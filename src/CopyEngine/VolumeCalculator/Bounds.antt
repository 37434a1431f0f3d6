-- ===== src/CopyEngine/VolumeCalculator/Bounds.antt =====
-- The sizes that calculateVolume returns, and its refusals.
use forex_remote_copy_tradin.Prelude.{
  ℕ, suc, ◌≡◌, refl, ◌≢◌, ◌⊎◌, inl, inr, ◌↔◌, true, false, Option, none, some, arith, Bool-cases,
}
use forex_remote_copy_tradin.Number.{Number, cents, zero, leb, ltb, min, max, mul, div}
use forex_remote_copy_tradin.Number.Order.{min-leb_left, min-leb_right, leb_trans, leb_refl}
use forex_remote_copy_tradin.Types.{
  CopyMode, fixed_lot, multiplier, balance_proportional, equity_proportional, ErrorReason,
  below_min_lot,
}
use forex_remote_copy_tradin.CopyEngine.VolumeCalculator.{
  VolumeCalculatorInput, VolumeCalculatorResult, volume, rejected, fixed, proportional, raw_of,
  round_down_to_step, within_limits, calculate_volume,
}
use forex_remote_copy_tradin.CopyEngine.VolumeCalculator.Rounding.{
  widened, round_down_to_step-le-widened,
}

-- A size comes from a raw size of the copy mode, cut to the limits.
calculate_volume-eq-volume :
    (i : VolumeCalculatorInput) {v : Number}
    → calculate_volume i ≡ volume v
    → (raw : Number) × (raw_of i.copy_mode i ≡ volume raw) × (within_limits i raw ≡ volume v)
unfolding calculate_volume
calculate_volume-eq-volume i {v} h = go (raw_of i.copy_mode i) refl
  where
    go :
        (r : VolumeCalculatorResult)
        → raw_of i.copy_mode i ≡ r
        → (raw : Number) × (raw_of i.copy_mode i ≡ volume raw) × (within_limits i raw ≡ volume v)
    go (volume raw) e = (raw, e, ground arith)
    go (rejected reason) e = absurd (ground arith)

within_limits-eq-volume :
    (i : VolumeCalculatorInput) (raw : Number) {v : Number}
    → within_limits i raw ≡ volume v
    → (leb i.min_lot v ≡ true) × (v ≡ min (round_down_to_step raw i.lot_step) i.max_lot)
unfolding within_limits
within_limits-eq-volume i raw {v} h = (ground arith, ground arith)

-- Every size that `calculateVolume` returns lies between the Slave's minimum and maximum lot.
pub calculate_volume_bounds :
    (i : VolumeCalculatorInput) (v : Number)
    → calculate_volume i ≡ volume v
    → (leb i.min_lot v ≡ true) × (leb v i.max_lot ≡ true)
calculate_volume_bounds i v h =
    let (raw, _, w) = calculate_volume-eq-volume i h in
    let (floored, e) = within_limits-eq-volume i raw w in
    (floored, rw e (min-leb_right (round_down_to_step raw i.lot_step) i.max_lot))

-- A size above 0 comes from a raw size above 0.
round_down_to_step_of_not_pos :
    (raw step : Number) → ltb zero raw ≡ false → leb (round_down_to_step raw step) zero ≡ true
unfolding round_down_to_step max
round_down_to_step_of_not_pos raw step h = ground (arith, leb_refl zero)

-- With a lot step of whole cents and a minimum lot above 0, a size is never above the raw size of
-- the copy mode by more than a billionth of a step: sizes are rounded down, and capped.
pub calculate_volume-le-raw :
    (i : VolumeCalculatorInput) (c : ℕ) (v : Number)
    → i.lot_step ≡ cents (suc c)
    → ltb zero i.min_lot ≡ true
    → calculate_volume i ≡ volume v
    → (raw : Number) × (raw_of i.copy_mode i ≡ volume raw) × (leb v (widened raw i.lot_step) ≡ true)
calculate_volume-le-raw i c v step floor h =
    let (raw, e, w) = calculate_volume-eq-volume i h in
    let (floored, clamped) = within_limits-eq-volume i raw w in
    let r : Number = round_down_to_step raw i.lot_step in
    let below : leb v r ≡ true = rw clamped (min-leb_left r i.max_lot) in
    elim (Bool-cases (ltb zero raw)) [
      | inl positive ↦
          (raw, e, leb_trans v r _ below (rw step (round_down_to_step-le-widened raw c positive)))
      | inr other ↦
          let low =
            leb_trans _ v _ floored
              (leb_trans v r _ below (round_down_to_step_of_not_pos raw i.lot_step other)) in
          absurd (ground arith)
    ]

-- What the copy mode of a Slave needs before it can size a trade.
abbrev pub IsConfigured : CopyMode → VolumeCalculatorInput → Type 0
IsConfigured fixed_lot i = (l : Number) × (i.fixed_lot ≡ some l) × (ltb zero l ≡ true)
IsConfigured multiplier i = Unit {0}
IsConfigured balance_proportional i =
    (m s : Number) × (i.master_balance ≡ some m) × (ltb zero m ≡ true) × (i.slave_balance ≡ some s)
IsConfigured equity_proportional i =
    (m s : Number) × (i.master_equity ≡ some m) × (ltb zero m ≡ true) × (i.slave_equity ≡ some s)

module _ (volume_of_master : Number) (a b : ErrorReason) where
  proportional-eq-volume :
      (master slave : Option Number) {raw : Number}
      → proportional volume_of_master master slave a b ≡ volume raw
      → (m s : Number) × (master ≡ some m) × (ltb zero m ≡ true) × (slave ≡ some s)
  unfolding proportional
  proportional-eq-volume none slave h = absurd (cc)
  proportional-eq-volume (some m) none h = absurd (ground arith)
  proportional-eq-volume (some m) (some s) h = (m, s, refl, ground arith, refl)

  proportional_configured :
      (master slave : Option Number) (m s : Number)
      → master ≡ some m
      → ltb zero m ≡ true
      → slave ≡ some s
      → (raw : Number) × (proportional volume_of_master master slave a b ≡ volume raw)
  unfolding proportional
  proportional_configured master slave m s e p f = (mul volume_of_master (div s m), ground arith)

fixed-eq-volume :
    (l : Option Number) {raw : Number}
    → fixed l ≡ volume raw
    → (x : Number) × (l ≡ some x) × (ltb zero x ≡ true)
unfolding fixed
fixed-eq-volume none e = absurd (cc)
fixed-eq-volume (some x) e = (x, refl, ground arith)

raw_of-IsConfigured :
    (mode : CopyMode) (i : VolumeCalculatorInput) {raw : Number}
    → raw_of mode i ≡ volume raw
    → IsConfigured mode i
unfolding raw_of
raw_of-IsConfigured fixed_lot i h = fixed-eq-volume i.fixed_lot h
raw_of-IsConfigured multiplier i h = tt
raw_of-IsConfigured balance_proportional i h =
    proportional-eq-volume _ _ _ i.master_balance i.slave_balance h
raw_of-IsConfigured equity_proportional i h =
    proportional-eq-volume _ _ _ i.master_equity i.slave_equity h

raw_of_configured :
    (mode : CopyMode) (i : VolumeCalculatorInput)
    → IsConfigured mode i
    → (raw : Number) × (raw_of mode i ≡ volume raw)
unfolding raw_of
raw_of_configured fixed_lot i (l, e, p) = (l, ground arith)
raw_of_configured multiplier i c = (mul i.master_volume i.multiplier, refl)
raw_of_configured balance_proportional i (m, s, e, p, f) =
    proportional_configured _ _ _ i.master_balance i.slave_balance m s e p f
raw_of_configured equity_proportional i (m, s, e, p, f) =
    proportional_configured _ _ _ i.master_equity i.slave_equity m s e p f

too_small_of_fixed : (lot : Option Number) → fixed lot ≢ rejected below_min_lot
unfolding fixed
too_small_of_fixed none h = cc
too_small_of_fixed (some l) h = ground arith

too_small_of_proportional :
    (x : Number) (a b : ErrorReason) (master slave : Option Number)
    → a ≢ below_min_lot
    → b ≢ below_min_lot
    → proportional x master slave a b ≢ rejected below_min_lot
unfolding proportional
too_small_of_proportional x a b none slave p q h = p (cc)
too_small_of_proportional x a b (some m) none p q h = ground arith
too_small_of_proportional x a b (some m) (some s) p q h = ground arith

raw_of-not_too_small :
    (mode : CopyMode) (i : VolumeCalculatorInput) → raw_of mode i ≢ rejected below_min_lot
unfolding raw_of
raw_of-not_too_small fixed_lot i h = too_small_of_fixed i.fixed_lot h
raw_of-not_too_small multiplier i h = cc
raw_of-not_too_small balance_proportional i h =
    too_small_of_proportional _ _ _ i.master_balance i.slave_balance (λ e. cc) (λ e. cc) h
raw_of-not_too_small equity_proportional i h =
    too_small_of_proportional _ _ _ i.master_equity i.slave_equity (λ e. cc) (λ e. cc) h

-- What becomes of a raw size, and of a refusal.
within_limits_cases :
    (i : VolumeCalculatorInput) (raw : Number)
    → ((v : Number) × (within_limits i raw ≡ volume v))
      ⊎ (within_limits i raw ≡ rejected below_min_lot)
unfolding within_limits
within_limits_cases i raw =
    elim (Bool-cases (ltb (min (round_down_to_step raw i.lot_step) i.max_lot) i.min_lot)) [
      | inl small ↦ inr (rw small)
      | inr fits ↦ inl (min (round_down_to_step raw i.lot_step) i.max_lot, rw fits)
    ]

calculate_volume_of_raw :
    (i : VolumeCalculatorInput) {raw : Number}
    → raw_of i.copy_mode i ≡ volume raw
    → calculate_volume i ≡ within_limits i raw
unfolding calculate_volume
calculate_volume_of_raw i e = rw (e, calculate_volume)

raw_of_too_small :
    (i : VolumeCalculatorInput)
    → calculate_volume i ≡ rejected below_min_lot
    → (raw : Number) × (raw_of i.copy_mode i ≡ volume raw)
unfolding calculate_volume
raw_of_too_small i h = go (raw_of i.copy_mode i) refl
  where
    go :
        (r : VolumeCalculatorResult)
        → raw_of i.copy_mode i ≡ r
        → (raw : Number) × (raw_of i.copy_mode i ≡ volume raw)
    go (volume raw) e = (raw, e)
    go (rejected reason) e = absurd (raw_of-not_too_small i.copy_mode i (ground arith))

abbrev pub IsSizedOrTooSmall : VolumeCalculatorInput → Type 0
IsSizedOrTooSmall i =
    ((v : Number) × (calculate_volume i ≡ volume v)) ⊎ (calculate_volume i ≡ rejected below_min_lot)

IsSizedOrTooSmall-IsConfigured :
    (i : VolumeCalculatorInput) → IsSizedOrTooSmall i → IsConfigured i.copy_mode i
IsSizedOrTooSmall-IsConfigured i (inl (v, h)) =
    let (raw, e, w) = calculate_volume-eq-volume i h in raw_of-IsConfigured i.copy_mode i e
IsSizedOrTooSmall-IsConfigured i (inr h) =
    let (raw, e) = raw_of_too_small i h in raw_of-IsConfigured i.copy_mode i e

IsConfigured-IsSizedOrTooSmall :
    (i : VolumeCalculatorInput) → IsConfigured i.copy_mode i → IsSizedOrTooSmall i
IsConfigured-IsSizedOrTooSmall i c =
    let (raw, e) = raw_of_configured i.copy_mode i c in
    rw (calculate_volume_of_raw i e) (within_limits_cases i raw)

-- A trade is sized, or refused as too small, exactly when the Slave has what its copy mode needs:
-- a positive fixed lot, or a positive balance or equity of the Master and one of the Slave.
pub calculate_volume-IsConfigured_iff :
    (i : VolumeCalculatorInput) → IsSizedOrTooSmall i ↔ IsConfigured i.copy_mode i
calculate_volume-IsConfigured_iff i =
    (IsSizedOrTooSmall-IsConfigured i, IsConfigured-IsSizedOrTooSmall i)
