-- ===== src/Number/Order.antt =====
-- Laws of the comparisons of Number.
use native.Mathlib.Nat.{mul-le-mul_right, le_of_mul-le-mul_right}
use forex_remote_copy_tradin.Prelude.{
  ℕ, suc, ◌≤◌, ◌<◌, ◌≡◌, refl, ap, Bool, true, false, not, arith,
}
use forex_remote_copy_tradin.Prelude.Int.{ℤ, pos, negsuc, pos_part, neg_part, sub_ℕ}
use forex_remote_copy_tradin.Number.{Number, ltb, leb, den, min, left_side, sub, abs, zero}

pub lt_of_ltb : (a b : Number) → ltb a b ≡ true → left_side a b < left_side b a
unfolding ltb
lt_of_ltb a b h = ground arith

pub le_of_not_ltb : (a b : Number) → ltb a b ≡ false → left_side b a ≤ left_side a b
unfolding ltb
le_of_not_ltb a b h = ground arith

pub ltb_of_lt : (a b : Number) → left_side a b < left_side b a → ltb a b ≡ true
unfolding ltb
ltb_of_lt a b h = ground arith

pub not_ltb_of_le : (a b : Number) → left_side b a ≤ left_side a b → ltb a b ≡ false
unfolding ltb
not_ltb_of_le a b h = ground arith

pub ltb_irrefl : (a : Number) → ltb a a ≡ false
ltb_irrefl a = not_ltb_of_le a a (omega arith)

pub ltb_asymm : (a b : Number) → ltb a b ≡ true → ltb b a ≡ false
ltb_asymm a b h = not_ltb_of_le b a (omega (arith, lt_of_ltb a b h))

pub leb_refl : (a : Number) → leb a a ≡ true
leb_refl a = ap_not (ltb_irrefl a)
  where
    ap_not : {b : Bool} → b ≡ false → not b ≡ true
    ap_not h = ground arith

pub min-leb_left : (a b : Number) → leb (min a b) a ≡ true
unfolding min
min-leb_left a b = ground (arith, ltb_irrefl a, ltb_asymm b a)

pub min-leb_right : (a b : Number) → leb (min a b) b ≡ true
unfolding min
min-leb_right a b = ground (arith, ltb_irrefl b)

pos_of_parts : (z : ℤ) → neg_part z < pos_part z → (n : ℕ) × (z ≡ pos (suc n))
pos_of_parts (pos ℕ.zero) h = absurd (omega arith)
pos_of_parts (pos (suc n)) h = (n, refl)
pos_of_parts (negsuc n) h = absurd (omega arith)

neg_part_of_le : (z : ℤ) → neg_part z ≤ pos_part z → neg_part z ≡ 0
neg_part_of_le (pos n) h = refl
neg_part_of_le (negsuc n) h = absurd (omega arith)

sub_ℕ_self : (n : ℕ) → sub_ℕ n n ≡ pos 0
sub_ℕ_self n = ground arith

-- A number above 0 has a positive numerator.
pub num_of_pos : (a : Number) → ltb zero a ≡ true → (n : ℕ) × (a.num ≡ pos (suc n))
num_of_pos a h = pos_of_parts a.num (omega (arith, lt_of_ltb zero a h))

pub neg_part_of_nonneg : (a : Number) → leb zero a ≡ true → neg_part a.num ≡ 0
neg_part_of_nonneg a h = neg_part_of_le a.num (omega (arith, le_of_not_ltb a zero (ground arith)))

-- The distance of a number to itself is within every tolerance that is not negative.
pub abs-sub_self : (a t : Number) → leb zero t ≡ true → ltb t (abs (sub a a)) ≡ false
unfolding abs sub
abs-sub_self a t h =
    rw (sub_ℕ_self (left_side a a)) (not_ltb_of_le t _ (rw (neg_part_of_nonneg t h) (omega arith)))

pub leb_of_le : (a b : Number) → left_side a b ≤ left_side b a → leb a b ≡ true
leb_of_le a b h = ap not (not_ltb_of_le b a h)

le_of_leb : (a b : Number) → leb a b ≡ true → left_side a b ≤ left_side b a
le_of_leb a b h = le_of_not_ltb b a (ground arith)

pub leb_trans : (a b c : Number) → leb a b ≡ true → leb b c ≡ true → leb a c ≡ true
leb_trans a b c h k = leb_of_le a c (
    le_of_mul-le-mul_right {k = den b}
      (omega (
        arith,
        mul-le-mul_right (den c) (le_of_leb a b h),
        mul-le-mul_right (den a) (le_of_leb b c k),
      ))
      (omega arith))
