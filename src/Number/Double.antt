-- ===== src/Number/Double.antt =====
-- The numbers of JavaScript: the double nearest to a fraction, to the even one of two that are as near.
-- The infinities are left out.
use forex_remote_copy_tradin.Prelude.{
  ℕ, zero, suc, ◌+◌, ◌-◌, ◌*◌, ◌/◌, ◌%◌, ◌^◌, true, false, if◌then◌else◌, ltb as ltb_ℕ,
}
use forex_remote_copy_tradin.Prelude.Int.{pos, negsuc}
use forex_remote_copy_tradin.Number.{Number, of_int, abs, sub}

-- n / d to the nearest whole number
abbrev rounded : ℕ → ℕ → ℕ
rounded n d =
    if ltb_ℕ (2 * (n % d)) d
    then n / d
    else if ltb_ℕ d (2 * (n % d))
    then n / d + 1
    else n / d + (n / d) % 2

-- n / d, below 2 ^ 53: it is doubled until it has 53 bits, but 1074 times at most, which is the least
-- exponent of a double, and k counts how often
raised : ℕ → ℕ → ℕ → ℕ → Number
raised zero k n d = record { num = pos (rounded n d); den_pred = 2 ^ k - 1 }
raised (suc left) k n d = elim (ltb_ℕ n (4_503_599_627_370_496 * d)) [
  | true ↦ raised left (k + 1) (2 * n) d
  | false ↦ record { num = pos (rounded n d); den_pred = 2 ^ k - 1 }
]

-- n / d, halved until it has 53 bits, but 971 times at most: what is larger then is an infinity
lowered : ℕ → ℕ → ℕ → ℕ → Number
lowered zero k n d = of_int (pos (rounded n d * 2 ^ k))
lowered (suc left) k n d = elim (ltb_ℕ n (9_007_199_254_740_992 * d)) [
  | true ↦ of_int (pos (rounded n d * 2 ^ k))
  | false ↦ lowered left (k + 1) n (2 * d)
]

abbrev nearest : ℕ → ℕ → Number
unfolding raised lowered
nearest zero d = of_int (pos 0)
nearest (suc n) d =
    if ltb_ℕ (suc n) (9_007_199_254_740_992 * d)
    then raised 1074 0 (suc n) d
    else lowered 971 0 (suc n) d

abbrev negated : Number → Number
negated a = elim a.num [
  | pos n ↦ elim n [ zero ↦ a | suc m ↦ record a { num = negsuc m } ]
  | negsuc m ↦ a
]

unfoldable pub to_double : Number → Number
unfolding raised lowered
to_double a = elim a.num [
  | pos n ↦ nearest n (suc a.den_pred)
  | negsuc n ↦ negated (nearest (suc n) (suc a.den_pred))
]

-- Math.abs(a - b), of two numbers that are read as doubles
unfoldable pub distance : Number → Number → Number
unfolding to_double sub abs
distance a b = abs (to_double (sub (to_double a) (to_double b)))
