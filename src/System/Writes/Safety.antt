-- ===== src/System/Writes/Safety.antt =====
-- Invariants of the writes, in whatever order they come.
use forex_remote_copy_tradin.Prelude.{
  ◌≤◌, String, Bool, false, ◌≡◌, refl, sym, ap, ◌∙◌, inl, inr, List, [], ◌∷◌, some, arith, All, any,
  update_where, Bool-cases, beq→eq, ◌==◌,
}
use forex_remote_copy_tradin.Types.{Connector, CopyOrder, AuthenticatedConnector}
use forex_remote_copy_tradin.World.{World, Entry, is_copy_of}
use forex_remote_copy_tradin.CopyEngine.Dispatch.Counts.{
  count_copies, count_where-update_where, count_of_none,
}
use forex_remote_copy_tradin.CopyEngine.Fanout.Laws.{IsUnique}
use forex_remote_copy_tradin.Connectors.Service.{find_by_hash, identity}
use forex_remote_copy_tradin.Connectors.Service.Cache.{IsTrue, IsCoherent, All-IsTrue_new}
use forex_remote_copy_tradin.System.Writes.{
  IsSameConnector, Write, outside, token_cached, connectors_updated, connector_added, order_created,
  order_updated, Writes, done, next,
}

-- A row with a free trade event and Slave.
created-count :
    (o : CopyOrder) (orders : List CopyOrder) (t x : String)
    → any (is_copy_of o.trade_event_id o.slave_id) orders ≡ false
    → count_copies t x orders ≤ 1
    → count_copies t x (o ∷ orders) ≤ 1
created-count o orders t x free few = elim (Bool-cases (is_copy_of t x o)) [
  | inr other ↦ rw other (omega (arith, few))
  | inl here ↦
      let same_event = beq→eq o.trade_event_id t (ground arith) in
      let same_slave = beq→eq o.slave_id x (ground arith) in
      let none_yet : count_copies t x orders ≡ 0 =
        rw (sym same_event, sym same_slave) (count_of_none _ orders free) in
      rw here (omega (arith, none_yet))
]

Write-IsUnique : {w v : World} → Write w v → IsUnique w → IsUnique v
Write-IsUnique (outside u) unique = unique
Write-IsUnique (token_cached hash c e) unique = unique
Write-IsUnique (connectors_updated p f same) unique = unique
Write-IsUnique (connector_added c e) unique = unique
Write-IsUnique {w} (order_created o free) unique =
    λ t x. created-count o w.copy_orders t x free (unique t x)
Write-IsUnique {w} (order_updated id f same) unique = λ t x. omega (
  arith,
  unique t x,
  count_where-update_where (is_copy_of t x) (λ o. o.id == id) f w.copy_orders
      (λ o. rw ((same o).trade_event_id, (same o).slave_id) refl),
)

-- A connector that is found by a hash is found after an update, with the same identity.
find_updated :
    (p : Connector → Bool) (f : Connector → Connector) (hash : String) (cs : List Connector)
    (c : Connector)
    → ((d : Connector) → IsSameConnector d (f d))
    → find_by_hash cs hash ≡ some c
    → (d : Connector) × (find_by_hash (update_where p f cs) hash ≡ some d)
      × (identity d ≡ identity c)
find_updated p f hash [] c same found = absurd (cc)
find_updated p f hash (x ∷ cs) c same found = elim (Bool-cases (p x)) [
  | inr miss ↦ elim (Bool-cases (x.token_hash == hash)) [
    | inl own ↦ (c, rw (miss, own) (rw own at found), refl)
    | inr other ↦ rw (miss, other) (find_updated p f hash cs c same (rw other at found))
  ]
  | inl hit ↦ elim (Bool-cases (x.token_hash == hash)) [
    | inl own ↦
        let here : some x ≡ some c = rw own at found in
        let e : x ≡ c = cc in
        (f x, rw (hit, (same x).token_hash, own) refl, (same x).identity ∙ ap identity e)
    | inr other ↦
        rw (hit, (same x).token_hash, other) (find_updated p f hash cs c same (rw other at found))
  ]
]

All-IsTrue_updated :
    (p : Connector → Bool) (f : Connector → Connector) (cs : List Connector)
    (entries : List (Entry AuthenticatedConnector))
    → ((d : Connector) → IsSameConnector d (f d))
    → All (IsTrue cs) entries
    → All (IsTrue (update_where p f cs)) entries
All-IsTrue_updated p f cs [] same all = tt
All-IsTrue_updated p f cs (e ∷ entries) same ((c, found, value), rest) =
    let (d, there, identical) = find_updated p f e.key cs c same found in
    ((d, there, value ∙ sym identical), All-IsTrue_updated p f cs entries same rest)

Write-IsCoherent : {w v : World} → Write w v → IsCoherent w → IsCoherent v
Write-IsCoherent (outside u) ok = ok
Write-IsCoherent (token_cached hash c found) ok = ((c, found, refl), ok)
Write-IsCoherent {w} (connectors_updated p f same) ok =
    All-IsTrue_updated p f w.connectors w.token_cache same ok
Write-IsCoherent {w} (connector_added c free) ok =
    All-IsTrue_new (λ t. t) w.connectors c w.token_cache free ok
Write-IsCoherent (order_created o free) ok = ok
Write-IsCoherent (order_updated id f same) ok = ok

pub Writes-IsUnique : {w v : World} → Writes w v → IsUnique w → IsUnique v
Writes-IsUnique done unique = unique
Writes-IsUnique (next xs x) unique = Write-IsUnique x (Writes-IsUnique xs unique)

pub Writes-IsCoherent : {w v : World} → Writes w v → IsCoherent w → IsCoherent v
Writes-IsCoherent done ok = ok
Writes-IsCoherent (next xs x) ok = Write-IsCoherent x (Writes-IsCoherent xs ok)
