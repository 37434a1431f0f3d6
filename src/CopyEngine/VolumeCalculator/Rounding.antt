-- ===== src/CopyEngine/VolumeCalculator/Rounding.antt =====
-- roundDownToStep against its description: the largest multiple of the step that is not above the
-- value by more than a billionth of a step.
use forex_remote_copy_tradin.Prelude.{
  ℕ, suc, ◌+◌, ◌*◌, ◌≤◌, ◌<◌, ◌≡◌, sym, ap, ◌∙◌, subst, true, not, arith,
}
use forex_remote_copy_tradin.Prelude.Int.{pos}
use forex_remote_copy_tradin.Number.{
  Number, cents, zero, leb, ltb, add, mul, div, floor, of_int, to_fixed8,
}
use forex_remote_copy_tradin.Number.Exact.{
  frac, IsEqual, add-frac, mul-frac, div-frac, floor-frac, to_fixed8-cents,
}
use forex_remote_copy_tradin.Number.Order.{
  not_ltb_of_le, ltb_of_lt, num_of_pos, leb_of_le, leb_trans,
}
use forex_remote_copy_tradin.CopyEngine.VolumeCalculator.{
  step_epsilon, steps_in, round_down_to_step,
}

-- the value over the step, with the epsilon, as one fraction
ratio :
    (v d c : ℕ)
    → add (div (frac v d) (cents (suc c))) step_epsilon
      ≡ frac
          (v * 100 * 1_000_000_000 + 1 * suc (d * suc c + c))
          ((d * suc c + c) * 1_000_000_000 + 999_999_999)
ratio v d c =
    ap (λ q. add q step_epsilon) (div-frac v c d 99) ∙ add-frac (v * 100) 1 (d * suc c + c) _

-- `steps` is the whole number k with k * step ≤ value + 1e-9 * step < (k + 1) * step.
steps_in-cents :
    (v d c : ℕ)
    → (k : ℕ) × (steps_in (frac v d) (cents (suc c)) ≡ frac k 0)
      × (k * suc c * suc d * 1_000_000_000 ≤ v * 100 * 1_000_000_000 + suc c * suc d)
      × (v * 100 * 1_000_000_000 + suc c * suc d < suc k * suc c * suc d * 1_000_000_000)
unfolding steps_in
steps_in-cents v d c =
    let (k, e, lower, upper) =
      floor-frac (v * 100 * 1_000_000_000 + 1 * suc (d * suc c + c))
        ((d * suc c + c) * 1_000_000_000 + 999_999_999) in
    (k, ap (λ r. of_int (floor r)) (ratio v d c) ∙ ap of_int e, omega arith, omega arith)

abbrev pub multiple : ℕ → Number → Number
multiple k step = mul (of_int (pos k)) step

abbrev pub widened : Number → Number → Number
widened v step = add v (mul step_epsilon step)

widened-frac :
    (v d c : ℕ)
    → widened (frac v d) (cents c)
      ≡ frac (v * 100_000_000_000 + 1 * c * suc d) (d * 100_000_000_000 + 99_999_999_999)
widened-frac v d c =
    ap (add (frac v d)) (mul-frac 1 c 999_999_999 99) ∙ add-frac v (1 * c) d 99_999_999_999

-- What `roundDownToStep` returns, at a positive step of whole cents and a positive value.
pub record IsLargestMultiple (v step r : Number) (k : ℕ) : Type 0 where
  pub is_multiple : IsEqual r (multiple k step)
  pub not_above : leb (multiple k step) (widened v step) ≡ true
  pub next_above : ltb (widened v step) (multiple (suc k) step) ≡ true

rounded :
    (v d c k : ℕ)
    → steps_in (frac (suc v) d) (cents (suc c)) ≡ frac k 0
    → round_down_to_step (frac (suc v) d) (cents (suc c)) ≡ frac (k * suc c * 1_000_000) 99_999_999
unfolding round_down_to_step
rounded v d c k e =
    rw (ltb_of_lt zero (cents (suc c)) (omega arith), ltb_of_lt zero (frac (suc v) d) (omega arith))
      (ap (λ n. to_fixed8 (mul n (cents (suc c)))) e
        ∙ ap to_fixed8 (mul-frac k (suc c) 0 99)
        ∙ to_fixed8-cents (k * suc c))

multiple_not_above :
    (v d c k : ℕ)
    → k * suc c * suc d * 1_000_000_000 ≤ v * 100 * 1_000_000_000 + suc c * suc d
    → leb (multiple k (cents (suc c))) (widened (frac v d) (cents (suc c))) ≡ true
multiple_not_above v d c k h =
    rw (mul-frac k (suc c) 0 99, widened-frac v d (suc c))
      (ap not (
        not_ltb_of_le
          (frac (v * 100_000_000_000 + 1 * suc c * suc d) (d * 100_000_000_000 + 99_999_999_999))
          (frac (k * suc c) 99) (omega arith)))

multiple_above :
    (v d c k : ℕ)
    → v * 100 * 1_000_000_000 + suc c * suc d < k * suc c * suc d * 1_000_000_000
    → ltb (widened (frac v d) (cents (suc c))) (multiple k (cents (suc c))) ≡ true
multiple_above v d c k h =
    rw (mul-frac k (suc c) 0 99, widened-frac v d (suc c))
      ((ltb_of_lt
        (frac (v * 100_000_000_000 + 1 * suc c * suc d) (d * 100_000_000_000 + 99_999_999_999))
        (frac (k * suc c) 99) (omega arith)))

round_down_to_step-frac :
    (v d c : ℕ)
    → (k : ℕ) × IsLargestMultiple
        (frac (suc v) d)
        (cents (suc c))
        (round_down_to_step (frac (suc v) d) (cents (suc c)))
        k
round_down_to_step-frac v d c =
    let (k, e, lower, upper) = steps_in-cents (suc v) d c in
    (
      k,
      record {
        is_multiple = rw (rounded v d c k e, mul-frac k (suc c) 0 99) (omega arith);
        not_above = multiple_not_above (suc v) d c k lower;
        next_above = multiple_above (suc v) d c (suc k) upper;
      },
    )

-- At a lot step of whole cents above 0, a positive value is rounded to the largest multiple of the
-- step that is not above the value widened by a billionth of a step; the result has exactly the
-- value of that multiple.
pub round_down_to_step-IsLargestMultiple :
    (v : Number) (c : ℕ)
    → ltb zero v ≡ true
    → (k : ℕ) × IsLargestMultiple v (cents (suc c)) (round_down_to_step v (cents (suc c))) k
round_down_to_step-IsLargestMultiple v c h =
    let (n, e) = num_of_pos v h in
    subst
      (λ z.
        let w : Number = record { num = z; den_pred = v.den_pred } in
        (k : ℕ) × IsLargestMultiple w (cents (suc c)) (round_down_to_step w (cents (suc c))) k)
      (sym e) (round_down_to_step-frac n v.den_pred c)

pub round_down_to_step-le-widened :
    (v : Number) (c : ℕ)
    → ltb zero v ≡ true
    → leb (round_down_to_step v (cents (suc c))) (widened v (cents (suc c))) ≡ true
round_down_to_step-le-widened v c h =
    let (k, m) = round_down_to_step-IsLargestMultiple v c h in
    leb_trans _ (multiple k (cents (suc c))) _ (leb_of_le _ _ (omega (arith, m.is_multiple)))
      m.not_above
