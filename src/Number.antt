-- ===== src/Number.antt =====
-- The numbers of the program: JavaScript numbers and the Decimal columns of the database.
-- A number is the exact fraction that it stands for, and arithmetic is exact: the rounding of binary
-- floating point is in Double, and left out elsewhere. NaN and the infinities, which JSON cannot carry,
-- are left out.
pub mod Order
pub mod Exact
pub mod Double
use forex_remote_copy_tradin.Prelude.Int.{ℤ, pos, negsuc, pos_part, neg_part, sub_ℕ}
use forex_remote_copy_tradin.Prelude.{ℕ, suc, ◌+◌, ◌*◌, ◌/◌, Bool, not, ltb as ltb_ℕ, if◌then◌else◌}

-- num / (den_pred + 1)
pub record Number : Type 0 where
  pub num : ℤ
  pub den_pred : ℕ

abbrev pub den : Number → ℕ
den a = suc a.den_pred

abbrev pub of_int : ℤ → Number
of_int z = record { num = z; den_pred = 0 }

abbrev pub zero : Number
zero = of_int (pos 0)

-- n / 100, a value of a `Decimal(18, 2)` column.
abbrev pub cents : ℕ → Number
cents n = record { num = pos n; den_pred = 99 }

-- the two sides of a comparison over the common denominator
abbrev pub left_side : Number → Number → ℕ
left_side a b = pos_part a.num * den b + neg_part b.num * den a

-- a < b
unfoldable pub ltb : Number → Number → Bool
ltb a b = ltb_ℕ (left_side a b) (left_side b a)

-- a <= b
abbrev pub leb : Number → Number → Bool
leb a b = not (ltb b a)

-- z * k
abbrev pub scale : ℤ → ℕ → ℤ
scale z k = sub_ℕ (pos_part z * k) (neg_part z * k)

pub add : Number → Number → Number
add a b = record {
  num =
      sub_ℕ (pos_part a.num * den b + pos_part b.num * den a)
        (neg_part a.num * den b + neg_part b.num * den a);
  den_pred = a.den_pred * den b + b.den_pred;
}

unfoldable pub sub : Number → Number → Number
sub a b = record {
  num = sub_ℕ (left_side a b) (left_side b a);
  den_pred = a.den_pred * den b + b.den_pred;
}

unfoldable pub mul : Number → Number → Number
mul a b = record {
  num =
      sub_ℕ (pos_part a.num * pos_part b.num + neg_part a.num * neg_part b.num)
        (pos_part a.num * neg_part b.num + neg_part a.num * pos_part b.num);
  den_pred = a.den_pred * den b + b.den_pred;
}

-- a / (z / d). The program divides by positive numbers alone, so the quotient by 0 has no reading.
abbrev div_by : Number → ℤ → ℕ → Number
div_by a (pos n) d = elim n [
  | ℕ.zero ↦ zero
  | suc k ↦ record { num = scale a.num d; den_pred = a.den_pred * suc k + k }
]
div_by a (negsuc k) d = record {
  num = sub_ℕ (neg_part a.num * d) (pos_part a.num * d);
  den_pred = a.den_pred * suc k + k;
}

unfoldable pub div : Number → Number → Number
div a b = div_by a b.num (den b)

-- Math.abs
unfoldable pub abs : Number → Number
abs a = record a { num = pos (pos_part a.num + neg_part a.num) }

-- Math.min
unfoldable pub min : Number → Number → Number
min a b = if ltb b a then b else a

-- Math.max
unfoldable pub max : Number → Number → Number
max a b = if ltb a b then b else a

abbrev floor_ratio : ℤ → ℕ → ℤ
floor_ratio (pos n) d = pos (n / d)
floor_ratio (negsuc n) d = negsuc (n / d)

-- Math.floor
pub floor : Number → ℤ
floor a = floor_ratio a.num (den a)

-- Number(x.toFixed(8)) of a number that is not negative: the nearest multiple of 1e-8, and the
-- larger one of two that are as near.
unfoldable pub to_fixed8 : Number → Number
unfolding add floor
to_fixed8 a = record {
  num = floor (
      add (record { num = scale a.num 100_000_000; den_pred = a.den_pred })
        (record { num = pos 1; den_pred = 1 }));
  den_pred = 99_999_999;
}
