-- ===== src/CopyEngine/RiskChecks/Laws.antt =====
-- The risk limits against their description in terms of lists and bounds.
use mathlib.Core.List.{Mem, mem-cons_self, mem-cons_of_mem, eq-or-mem_of_mem-cons, not-mem-nil}
use mathlib.Core.Logic.Or
use mathlib.Core.HLevel.{⊥_prop}
use forex_remote_copy_tradin.Prelude.{
  ℕ, String, ◌<◌, ◌≡◌, refl, ◌↔◌, ◌⊎◌, inl, inr, true, false, Option, none, some, List, [], ◌∷◌,
  arith, Bool-cases, ◌==◌, eq→beq, beq→eq,
}
use forex_remote_copy_tradin.CopyEngine.RiskChecks.{
  EntryCheckInput, allowed, includes, is_empty, reached, check_entry_allowed,
}

includes-mem : (xs : List String) (s : String) → includes xs s ≡ true → Mem s xs
includes-mem [] s h = absurd (cc)
includes-mem (x ∷ xs) s h = elim (Bool-cases (x == s)) [
  | inl e ↦ rw (beq→eq x s e) mem-cons_self
  | inr e ↦ mem-cons_of_mem x (includes-mem xs s (ground arith))
]

not-mem_of_includes : (xs : List String) (s : String) → includes xs s ≡ false → ¬ Mem s xs
not-mem_of_includes [] s h m = not-mem-nil m
not-mem_of_includes (x ∷ xs) s h m =
    Or.elim ⊥_prop (eq-or-mem_of_mem-cons m) (λ e. ground (arith, eq→beq x s))
      (not-mem_of_includes xs s (ground arith))

-- What an OPEN must meet before it is sized.
pub record IsEntryAllowed (i : EntryCheckInput) : Type 0 where
  pub running : i.emergency_stop ≡ false
  pub not_blocked : ¬ Mem i.symbol i.blocked_symbols
  pub listed : (i.allowed_symbols ≡ []) ⊎ Mem i.symbol i.allowed_symbols
  pub below_max : (limit : ℕ) → i.max_positions ≡ some limit → i.current_open_positions < limit

entry_tests :
    (i : EntryCheckInput)
    → check_entry_allowed i ≡ allowed
    → (i.emergency_stop ≡ false)
      × (includes i.blocked_symbols i.symbol ≡ false)
      × ((is_empty i.allowed_symbols ≡ true) ⊎ (includes i.allowed_symbols i.symbol ≡ true))
      × (reached i.max_positions i.current_open_positions ≡ false)
unfolding check_entry_allowed
entry_tests i h = ground arith

check_entry_allowed_of_tests :
    (i : EntryCheckInput)
    → i.emergency_stop ≡ false
    → includes i.blocked_symbols i.symbol ≡ false
    → (is_empty i.allowed_symbols ≡ true) ⊎ (includes i.allowed_symbols i.symbol ≡ true)
    → reached i.max_positions i.current_open_positions ≡ false
    → check_entry_allowed i ≡ allowed
unfolding check_entry_allowed
check_entry_allowed_of_tests i a b c d = ground arith

is_empty-eq : (xs : List String) → is_empty xs ≡ true → xs ≡ []
is_empty-eq [] h = refl
is_empty-eq (x ∷ xs) h = cc

below_of_not_reached :
    (o : Option ℕ) (n : ℕ) → reached o n ≡ false → (limit : ℕ) → o ≡ some limit → n < limit
below_of_not_reached o n h limit e = ground arith

not_reached_of_below :
    (o : Option ℕ) (n : ℕ) → ((limit : ℕ) → o ≡ some limit → n < limit) → reached o n ≡ false
not_reached_of_below none n h = refl
not_reached_of_below (some limit) n h = ground (arith, h limit refl)

includes-of_not_mem : (xs : List String) (s : String) → ¬ Mem s xs → includes xs s ≡ false
includes-of_not_mem xs s h = elim (Bool-cases (includes xs s)) [
  | inl e ↦ absurd (h (includes-mem xs s e))
  | inr e ↦ e
]

includes-of_mem : (xs : List String) (s : String) → Mem s xs → includes xs s ≡ true
includes-of_mem xs s h = elim (Bool-cases (includes xs s)) [
  | inl e ↦ e
  | inr e ↦ absurd (not-mem_of_includes xs s e h)
]

-- An OPEN passes the checks before sizing exactly when the Slave is not stopped, its symbol is not
-- blocked, the list of allowed symbols is empty or holds the symbol, and the Slave has fewer open
-- positions than its limit, if it has one.
pub check_entry_allowed_iff :
    (i : EntryCheckInput) → (check_entry_allowed i ≡ allowed) ↔ IsEntryAllowed i
check_entry_allowed_iff i = (sound, complete)
  where
    sound : check_entry_allowed i ≡ allowed → IsEntryAllowed i
    sound h =
        let (a, b, c, d) = entry_tests i h in
        record {
          running = a;
          not_blocked = not-mem_of_includes i.blocked_symbols i.symbol b;
          listed = elim c [
            | inl e ↦ inl (is_empty-eq i.allowed_symbols e)
            | inr e ↦ inr (includes-mem i.allowed_symbols i.symbol e)
          ];
          below_max = below_of_not_reached i.max_positions i.current_open_positions d;
        }

    complete : IsEntryAllowed i → check_entry_allowed i ≡ allowed
    complete p =
        check_entry_allowed_of_tests i p.running
          (includes-of_not_mem i.blocked_symbols i.symbol p.not_blocked)
          (elim p.listed [
            | inl e ↦ inl (rw e refl)
            | inr m ↦ inr (includes-of_mem i.allowed_symbols i.symbol m)
          ])
          (not_reached_of_below i.max_positions i.current_open_positions p.below_max)
