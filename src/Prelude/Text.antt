-- ===== src/Prelude/Text.antt =====
-- Texts read character by character.
use Prim.Native.Char.{code}
use Prim.Native.Nat.{compare, Ordering}
use Prim.Native.String.{◌++◌}
use Prim.Native.String.append
use forex_remote_copy_tradin.Prelude.{
  ℕ, ◌≡◌, ap, arith, String, Bool, true, false, Option, none, some, if◌then◌else◌,
}

abbrev pub same : ℕ → ℕ → Bool
same a b = elim (compare a b) [ Ordering.eq ↦ true | _ ↦ false ]

-- What is left of a text behind a prefix: `text.startsWith(prefix)` and `text.slice(…)`.
unfoldable pub strip_prefix : String → String → Option String
strip_prefix String.[] t = some t
strip_prefix (String.◌∷◌ c p) String.[] = none
strip_prefix (String.◌∷◌ c p) (String.◌∷◌ d t) =
    if same (code c) (code d) then strip_prefix p t else none

same_refl : (n : ℕ) → same n n ≡ true
same_refl n = ground arith

pub strip_prefix-append : (p t : String) → strip_prefix p (p ++ t) ≡ some t
unfolding strip_prefix
strip_prefix-append String.[] t = ap some (append.nil t)
strip_prefix-append (String.◌∷◌ c p) t =
    rw (append.cons c p t, same_refl (code c)) (strip_prefix-append p t)
