-- ===== src/Reconciliation/Service/Rows.antt =====
-- The findings of one pair in the table, before and after a replacement.
use forex_remote_copy_tradin.Prelude.{
  String, ◌≡◌, refl, ap, ◌∙◌, inl, inr, false, not, List, [], ◌∷◌, ◌++◌, map, arith, filter_by,
  Bool-cases, ◌==◌, eq→beq, eq_iff,
}
use forex_remote_copy_tradin.Reconciliation.Engine.{Finding}
use forex_remote_copy_tradin.Reconciliation.Service.{
  FindingRow, is_of_pair, finding_row, replace_findings,
}

-- the findings of a pair
abbrev pub rows_of : String → String → List FindingRow → List FindingRow
rows_of m x rows = filter_by (is_of_pair m x) rows

rows_of-new :
    (m x : String) (fs : List Finding) (rows : List FindingRow)
    → rows_of m x (map (finding_row m x) fs ++ rows) ≡ map (finding_row m x) fs ++ rows_of m x rows
rows_of-new m x [] rows = refl
rows_of-new m x (f ∷ fs) rows = ground (arith, eq→beq m m, eq→beq x x, rows_of-new m x fs rows)

rows_of-deleted :
    (m x : String) (rows : List FindingRow)
    → rows_of m x (filter_by (λ r. not (is_of_pair m x r)) rows) ≡ []
rows_of-deleted m x [] = refl
rows_of-deleted m x (r ∷ rows) = elim (Bool-cases (is_of_pair m x r)) [
  | inl e ↦ rw e (rows_of-deleted m x rows)
  | inr e ↦ rw (e, e) (rows_of-deleted m x rows)
]

rows_of-kept :
    (m n x y : String) (rows : List FindingRow)
    → (y == x) ≡ false
    → rows_of m x (filter_by (λ r. not (is_of_pair n y r)) rows) ≡ rows_of m x rows
rows_of-kept m n x y [] other = refl
rows_of-kept m n x y (r ∷ rows) other =
    ground
      (arith, eq_iff r.slave_id x, eq_iff r.slave_id y, eq_iff y x, rows_of-kept m n x y rows other)

rows_of-added :
    (m n x y : String) (fs : List Finding) (rows : List FindingRow)
    → (y == x) ≡ false
    → rows_of m x (map (finding_row n y) fs ++ rows) ≡ rows_of m x rows
rows_of-added m n x y [] rows other = refl
rows_of-added m n x y (f ∷ fs) rows other = ground (arith, rows_of-added m n x y fs rows other)

append_nil {ℓ} : {A : Type ℓ} (xs : List A) → xs ++ [] ≡ xs
append_nil [] = refl
append_nil (x ∷ xs) = ap (◌∷◌ x) (append_nil xs)

pub rows_of-replaced :
    (m x : String) (fs : List Finding) (rows : List FindingRow)
    → rows_of m x (replace_findings m x fs rows) ≡ map (finding_row m x) fs
unfolding replace_findings
rows_of-replaced m x fs rows =
    rows_of-new m x fs _
    ∙ (ap (λ l. map (finding_row m x) fs ++ l) (rows_of-deleted m x rows) ∙ append_nil _)

pub rows_of-others :
    (m n x y : String) (fs : List Finding) (rows : List FindingRow)
    → (y == x) ≡ false
    → rows_of m x (replace_findings n y fs rows) ≡ rows_of m x rows
unfolding replace_findings
rows_of-others m n x y fs rows other =
    rows_of-added m n x y fs _ other ∙ rows_of-kept m n x y rows other
