-- ===== src/Reconciliation/Engine/Duplicates.antt =====
-- The groups of positions that are traced to one copy.
use forex_remote_copy_tradin.Prelude.{
  ℕ, ◌+◌, ◌≤◌, String, ◌≡◌, refl, ap, inl, inr, Bool, false, Option, none, some, List, [], ◌∷◌,
  arith, length, length-append, count_where, Bool-cases, if◌then◌else◌, ltb, ◌==◌, eq_iff,
}
use forex_remote_copy_tradin.Reconciliation.Engine.{
  SlavePositionInfo, CompareStateInput, traced, Groups, join_group, join_traced, group_positions,
  duplicates_of, duplicate_findings,
}
use forex_remote_copy_tradin.Reconciliation.Engine.Silence.{append-eq_nil, cons-not_nil}

-- the positions that a copy is traced to
abbrev pub is_of : String → Option String → Bool
is_of copy_id none = false
is_of copy_id (some k) = k == copy_id

abbrev pub is_traced_to : CompareStateInput → String → SlavePositionInfo → Bool
is_traced_to i copy_id p = is_of copy_id (traced i p)

-- the size of the group of a copy
abbrev pub group_size : String → Groups → ℕ
group_size copy_id [] = 0
group_size copy_id ((k, ps) ∷ groups) =
    if k == copy_id then length ps else group_size copy_id groups

group_size-join_group :
    (copy_id k : String) (p : SlavePositionInfo) (groups : Groups)
    → group_size copy_id (join_group k p groups)
      ≡ (if k == copy_id then 1 else 0) + group_size copy_id groups
group_size-join_group copy_id k p [] = ground arith
group_size-join_group copy_id k p ((j, ps) ∷ groups) = ground (
  arith,
  eq_iff j k,
  eq_iff j copy_id,
  eq_iff k copy_id,
  length-append ps (p ∷ []),
  group_size-join_group copy_id k p groups,
)

group_size-join_traced :
    (copy_id : String) (o : Option String) (p : SlavePositionInfo) (groups : Groups)
    → group_size copy_id (join_traced o p groups)
      ≡ (if is_of copy_id o then 1 else 0) + group_size copy_id groups
group_size-join_traced copy_id none p groups = omega arith
group_size-join_traced copy_id (some k) p groups = group_size-join_group copy_id k p groups

pub group_size-group_positions :
    (i : CompareStateInput) (copy_id : String) (ps : List SlavePositionInfo) (groups : Groups)
    → group_size copy_id (group_positions i ps groups)
      ≡ count_where (is_traced_to i copy_id) ps + group_size copy_id groups
unfolding group_positions
group_size-group_positions i copy_id [] groups = omega arith
group_size-group_positions i copy_id (p ∷ ps) groups =
    let rest = group_size-group_positions i copy_id ps (join_traced (traced i p) p groups) in
    omega (arith, rest, group_size-join_traced copy_id (traced i p) p groups)

duplicates_of-nil :
    (copy_id : String) (count : ℕ) (ps : List SlavePositionInfo)
    → duplicates_of copy_id count ps ≡ []
    → ps ≡ []
unfolding duplicates_of
duplicates_of-nil copy_id count [] h = refl
duplicates_of-nil copy_id count (p ∷ ps) h = absurd (cons-not_nil _ _ h)

duplicate_findings-nil :
    (copy_id : String) (groups : Groups)
    → duplicate_findings groups ≡ []
    → group_size copy_id groups ≤ 1
unfolding duplicate_findings
duplicate_findings-nil copy_id [] h = omega arith
duplicate_findings-nil copy_id ((k, ps) ∷ groups) h =
    let (here, later) =
      append-eq_nil (if ltb 1 (length ps) then duplicates_of k (length ps) ps else []) _ h in
    let rest = duplicate_findings-nil copy_id groups later in
    elim (Bool-cases (ltb 1 (length ps))) [
      | inr few ↦ ground arith
      | inl many ↦
          let empty = ap length (duplicates_of-nil k (length ps) ps (rw many at here)) in
          absurd (ground arith)
    ]

-- Where no duplicate is found, no copy has two positions.
pub traced_once :
    (i : CompareStateInput) (copy_id : String)
    → duplicate_findings (group_positions i i.slave_positions []) ≡ []
    → count_where (is_traced_to i copy_id) i.slave_positions ≤ 1
traced_once i copy_id h = omega (
  arith,
  duplicate_findings-nil copy_id (group_positions i i.slave_positions []) h,
  group_size-group_positions i copy_id i.slave_positions [],
)
