-- ===== src/Slaves/SymbolMapping.antt =====
-- backend/src/modules/slaves/symbolMapping.service.ts
pub mod RoundTrip
use forex_remote_copy_tradin.Prelude.{
  String, Bool, not, ◌&&◌, Option, none, some, ◌∷◌, if◌then◌else◌, any, find_first, filter_by,
  update_where, count_where, ltb, ◌==◌,
}
use forex_remote_copy_tradin.Types.{SymbolMapping}
use forex_remote_copy_tradin.World.{World}

-- the unique key (slaveId, masterSymbol)
abbrev pub is_mapping_of : String → String → SymbolMapping → Bool
is_mapping_of slave_id master_symbol m = m.slave_id == slave_id && m.master_symbol == master_symbol

abbrev slave_symbol_or : String → Option SymbolMapping → String
slave_symbol_or master_symbol none = master_symbol
slave_symbol_or master_symbol (some m) = m.slave_symbol

unfoldable pub resolve_slave_symbol : World → String → String → String
resolve_slave_symbol w slave_id master_symbol =
    slave_symbol_or master_symbol
      (find_first (is_mapping_of slave_id master_symbol) w.symbol_mappings)

-- The new row, if one is created, takes the id `new_id`.
unfoldable pub upsert_symbol_mapping : String → String → String → String → World → World
upsert_symbol_mapping new_id slave_id master_symbol slave_symbol w = record w {
  symbol_mappings =
      if any (is_mapping_of slave_id master_symbol) w.symbol_mappings
      then update_where (is_mapping_of slave_id master_symbol)
          (λ m. record m { slave_symbol = slave_symbol }) w.symbol_mappings
      else record {
        id = new_id;
        slave_id = slave_id;
        master_symbol = master_symbol;
        slave_symbol = slave_symbol;
      }
        ∷ w.symbol_mappings;
}

-- deleteMany with the mapping's id and its Slave; whether a row was deleted.
abbrev is_row : String → String → SymbolMapping → Bool
is_row slave_id mapping_id m = m.id == mapping_id && m.slave_id == slave_id

unfoldable pub delete_symbol_mapping : String → String → World → World × Bool
delete_symbol_mapping slave_id mapping_id w = (
  record w {
    symbol_mappings = filter_by (λ m. not (is_row slave_id mapping_id m)) w.symbol_mappings;
  },
  ltb 0 (count_where (is_row slave_id mapping_id) w.symbol_mappings),
)
