-- ===== src/Slaves/SymbolMapping/RoundTrip.antt =====
-- Setting a mapping, and resolving a symbol after it.
use forex_remote_copy_tradin.Prelude.{
  String, ◌≡◌, refl, inl, inr, true, false, ◌&&◌, List, [], ◌∷◌, arith, any, find_first,
  update_where, Bool-cases, eq→beq, ◌==◌, eq_iff,
}
use forex_remote_copy_tradin.Types.{SymbolMapping}
use forex_remote_copy_tradin.World.{World}
use forex_remote_copy_tradin.Slaves.SymbolMapping.{
  is_mapping_of, slave_symbol_or, resolve_slave_symbol, upsert_symbol_mapping,
}

abbrev with_symbol : String → SymbolMapping → SymbolMapping
with_symbol slave_symbol m = record m { slave_symbol = slave_symbol }

updated-found :
    (slave_id master_symbol slave_symbol : String) (ms : List SymbolMapping)
    → any (is_mapping_of slave_id master_symbol) ms ≡ true
    → slave_symbol_or master_symbol (
        find_first
          (is_mapping_of slave_id master_symbol)
          (update_where (is_mapping_of slave_id master_symbol) (with_symbol slave_symbol) ms))
      ≡ slave_symbol
updated-found slave_id master_symbol slave_symbol [] h = absurd (cc)
updated-found slave_id master_symbol slave_symbol (m ∷ ms) h =
    elim (Bool-cases (is_mapping_of slave_id master_symbol m)) [
      | inl here ↦ rw (here, here) refl
      | inr other ↦
          rw (other, other) (updated-found slave_id master_symbol slave_symbol ms (rw other at h))
    ]

updated-others :
    (slave_id master_symbol slave_symbol x y : String) (ms : List SymbolMapping)
    → (x == slave_id && y == master_symbol) ≡ false
    → slave_symbol_or y (
        find_first
          (is_mapping_of x y)
          (update_where (is_mapping_of slave_id master_symbol) (with_symbol slave_symbol) ms))
      ≡ slave_symbol_or y (find_first (is_mapping_of x y) ms)
updated-others slave_id master_symbol slave_symbol x y [] other = refl
updated-others slave_id master_symbol slave_symbol x y (m ∷ ms) other = ground (
  arith,
  eq_iff m.slave_id x,
  eq_iff m.slave_id slave_id,
  eq_iff x slave_id,
  eq_iff m.master_symbol y,
  eq_iff m.master_symbol master_symbol,
  eq_iff y master_symbol,
  updated-others slave_id master_symbol slave_symbol x y ms,
)

-- After a mapping is set, the symbol resolves to it at that Slave, whether the mapping was there before
-- or not.
pub upsert-resolve :
    (new_id slave_id master_symbol slave_symbol : String) (w : World)
    → resolve_slave_symbol
        (upsert_symbol_mapping new_id slave_id master_symbol slave_symbol w)
        slave_id
        master_symbol
      ≡ slave_symbol
unfolding resolve_slave_symbol upsert_symbol_mapping
upsert-resolve new_id slave_id master_symbol slave_symbol w =
    elim (Bool-cases (any (is_mapping_of slave_id master_symbol) w.symbol_mappings)) [
      | inl there ↦
          rw there (updated-found slave_id master_symbol slave_symbol w.symbol_mappings there)
      | inr new ↦
          rw (new, eq→beq slave_id slave_id refl, eq→beq master_symbol master_symbol refl) refl
    ]

-- Setting a mapping changes no other symbol of the Slave and no symbol of another Slave.
pub upsert-resolve_others :
    (new_id slave_id master_symbol slave_symbol x y : String) (w : World)
    → (x == slave_id && y == master_symbol) ≡ false
    → resolve_slave_symbol (upsert_symbol_mapping new_id slave_id master_symbol slave_symbol w) x y
      ≡ resolve_slave_symbol w x y
unfolding resolve_slave_symbol upsert_symbol_mapping
upsert-resolve_others new_id slave_id master_symbol slave_symbol x y w other =
    elim (Bool-cases (any (is_mapping_of slave_id master_symbol) w.symbol_mappings)) [
      | inl there ↦
          rw there (updated-others slave_id master_symbol slave_symbol x y w.symbol_mappings other)
      | inr new ↦ ground (
        arith,
        new,
        eq_iff slave_id x,
        eq_iff x slave_id,
        eq_iff y master_symbol,
        eq_iff master_symbol y,
      )
    ]
