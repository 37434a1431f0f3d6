-- ===== src/Reconciliation/Engine/Groups.antt =====
-- The keys of the groups of positions.
use forex_remote_copy_tradin.Prelude.{
  ◌≤◌, String, ◌≡◌, refl, inl, inr, Bool, true, false, ◌||◌, Option, none, some, List, [], ◌∷◌,
  arith, length, count_where, Bool-cases, ltb, ◌==◌, eq_iff, eq→beq, beq→eq,
}
use forex_remote_copy_tradin.Reconciliation.Engine.{
  SlavePositionInfo, CompareStateInput, traced, Groups, join_group, join_traced, group_positions,
  duplicate_findings,
}
use forex_remote_copy_tradin.Reconciliation.Engine.Duplicates.{
  is_traced_to, group_size, group_size-group_positions,
}

abbrev has_key : String → Groups → Bool
has_key copy_id [] = false
has_key copy_id ((k, ps) ∷ groups) = k == copy_id || has_key copy_id groups

abbrev HasDistinctKeys : Groups → Type 0
HasDistinctKeys [] = Unit {0}
HasDistinctKeys ((k, ps) ∷ groups) = (has_key k groups ≡ false) × HasDistinctKeys groups

has_key-join_group :
    (copy_id k : String) (p : SlavePositionInfo) (groups : Groups)
    → has_key copy_id (join_group k p groups) ≡ (k == copy_id || has_key copy_id groups)
has_key-join_group copy_id k p [] = ground arith
has_key-join_group copy_id k p ((j, ps) ∷ groups) =
    ground
      (arith, eq_iff j k, eq_iff j copy_id, eq_iff k copy_id, has_key-join_group copy_id k p groups)

HasDistinctKeys-join_group :
    (k : String) (p : SlavePositionInfo) (groups : Groups)
    → HasDistinctKeys groups
    → HasDistinctKeys (join_group k p groups)
HasDistinctKeys-join_group k p [] d = (refl, tt)
HasDistinctKeys-join_group k p ((j, ps) ∷ groups) (new, rest) = elim (Bool-cases (j == k)) [
  | inl same ↦ rw same (new, rest)
  | inr other ↦ rw other (
    ground (arith, has_key-join_group j k p groups, eq_iff j k, eq_iff k j),
    HasDistinctKeys-join_group k p groups rest,
  )
]

HasDistinctKeys-join_traced :
    (o : Option String) (p : SlavePositionInfo) (groups : Groups)
    → HasDistinctKeys groups
    → HasDistinctKeys (join_traced o p groups)
HasDistinctKeys-join_traced none p groups d = d
HasDistinctKeys-join_traced (some k) p groups d = HasDistinctKeys-join_group k p groups d

HasDistinctKeys-group_positions :
    (i : CompareStateInput) (ps : List SlavePositionInfo) (groups : Groups)
    → HasDistinctKeys groups
    → HasDistinctKeys (group_positions i ps groups)
unfolding group_positions
HasDistinctKeys-group_positions i [] groups d = d
HasDistinctKeys-group_positions i (p ∷ ps) groups d =
    HasDistinctKeys-group_positions i ps (join_traced (traced i p) p groups)
      (HasDistinctKeys-join_traced (traced i p) p groups d)

small_tail :
    (k : String) (ps : List SlavePositionInfo) (groups : Groups)
    → has_key k groups ≡ false
    → ((j : String) → has_key j ((k, ps) ∷ groups) ≡ true → group_size j ((k, ps) ∷ groups) ≤ 1)
    → (j : String) → has_key j groups ≡ true
    → group_size j groups ≤ 1
small_tail k ps groups new small j there = elim (Bool-cases (k == j)) [
  | inl same ↦ absurd (let e = beq→eq k j same in let gone = rw e at new in cc)
  | inr other ↦ rw other at (small j (ground arith))
]

-- Where every group of the list has at most one position, and the keys differ, no duplicate is found.
duplicate_findings_of_sizes :
    (groups : Groups)
    → HasDistinctKeys groups
    → ((k : String) → has_key k groups ≡ true → group_size k groups ≤ 1)
    → duplicate_findings groups ≡ []
unfolding duplicate_findings
duplicate_findings_of_sizes [] d small = refl
duplicate_findings_of_sizes ((k, ps) ∷ groups) (new, rest) small =
    let own : length ps ≤ 1 = rw (eq→beq k k refl) at (small k (ground (arith, eq→beq k k))) in
    let few : ltb 1 (length ps) ≡ false = ground arith in
    rw few (duplicate_findings_of_sizes groups rest (small_tail k ps groups new small))

-- Where no copy has two positions, no duplicate is found.
pub duplicate_findings_of_single :
    (i : CompareStateInput)
    → ((copy_id : String) → count_where (is_traced_to i copy_id) i.slave_positions ≤ 1)
    → duplicate_findings (group_positions i i.slave_positions []) ≡ []
duplicate_findings_of_single i single =
    duplicate_findings_of_sizes (group_positions i i.slave_positions [])
      (HasDistinctKeys-group_positions i i.slave_positions [] tt)
      (λ k there. omega (arith, single k, group_size-group_positions i k i.slave_positions []))
