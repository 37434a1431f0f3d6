-- ===== src/Number/Exact.antt =====
-- Arithmetic of Number at fractions that are not negative, where it is that of their parts.
use native.Mathlib.Nat.{div-mul-le_self, lt-div-mul-add}
use forex_remote_copy_tradin.Prelude.{ℕ, suc, ◌+◌, ◌*◌, ◌/◌, ◌≤◌, ◌<◌, ◌≡◌, refl, ap, ◌∙◌, arith}
use forex_remote_copy_tradin.Prelude.Int.{ℤ, pos, sub_ℕ}
use forex_remote_copy_tradin.Number.{Number, cents, add, mul, div, floor, to_fixed8, left_side}

abbrev pub frac : ℕ → ℕ → Number
frac n d = record { num = pos n; den_pred = d }

-- Two fractions of the same value.
abbrev pub IsEqual : Number → Number → Type 0
IsEqual a b = left_side a b ≡ left_side b a

pub sub_ℕ_of_zero : (a b : ℕ) → b ≡ 0 → sub_ℕ a b ≡ pos a
sub_ℕ_of_zero a b h = ground arith

pub add-frac :
    (m n d e : ℕ) → add (frac m d) (frac n e) ≡ frac (m * suc e + n * suc d) (d * suc e + e)
unfolding add
add-frac m n d e =
    ap (λ z. record { num = z; den_pred = d * suc e + e }) (sub_ℕ_of_zero _ _ (omega arith))

pub mul-frac : (m n d e : ℕ) → mul (frac m d) (frac n e) ≡ frac (m * n) (d * suc e + e)
unfolding mul
mul-frac m n d e =
    ap (λ z. record { num = z; den_pred = d * suc e + e })
      (sub_ℕ_of_zero _ _ (omega arith) ∙ ap pos (omega arith))

pub div-frac : (m n d e : ℕ) → div (frac m d) (frac (suc n) e) ≡ frac (m * suc e) (d * suc n + n)
unfolding div
div-frac m n d e =
    ap (λ z. record { num = z; den_pred = d * suc n + n }) (sub_ℕ_of_zero _ _ (omega arith))

pub floor-frac :
    (m d : ℕ) → (k : ℕ) × (floor (frac m d) ≡ pos k) × (k * suc d ≤ m) × (m < k * suc d + suc d)
unfolding floor
floor-frac m d =
    (m / suc d, refl, div-mul-le_self m (suc d), lt-div-mul-add {b = suc d} (omega arith))

to_fixed8_of_num : ℤ → ℕ → Number
unfolding add floor
to_fixed8_of_num z d = record {
  num = floor (add (record { num = z; den_pred = d }) (frac 1 1));
  den_pred = 99_999_999;
}

to_fixed8-frac :
    (n d : ℕ)
    → to_fixed8 (frac n d) ≡ frac ((n * 100_000_000 * 2 + 1 * suc d) / suc (d * 2 + 1)) 99_999_999
unfolding to_fixed8 to_fixed8_of_num
to_fixed8-frac n d =
    ap (λ z. to_fixed8_of_num z d) (sub_ℕ_of_zero _ _ (omega arith))
    ∙ ap (λ z. record { num = floor z; den_pred = 99_999_999 }) (add-frac (n * 100_000_000) 1 d 1)

-- A number with two decimals has at most eight, so `toFixed(8)` keeps its value.
pub to_fixed8-cents : (n : ℕ) → to_fixed8 (cents n) ≡ frac (n * 1_000_000) 99_999_999
to_fixed8-cents n = to_fixed8-frac n 99 ∙ ap (λ m. frac m 99_999_999) (omega arith)
