-- ===== src/Dashboard/TradesPage/Latest.antt =====
-- The rows of the page against its abstract view: for each copy, the latest message about it.
use forex_remote_copy_tradin.Prelude.{
  ◌≤◌, String, true, false, ◌≡◌, refl, sym, subst, ◌∙◌, Option, none, some, List, [], ◌∷◌, inl, inr,
  arith, length, find_first, option_map, or_else, Bool-cases, Option-cases, length-take,
  length-replace_first, find_first-take, find_first-replace_first, find_first-replace_first_others,
  beq→eq, eq→beq, eq_iff, ◌==◌,
}
use forex_remote_copy_tradin.Number.{Number}
use forex_remote_copy_tradin.Dashboard.TradesPage.{
  max_rows, CopyOrderRow, TradeMessage, is_row, merged, put, merge, rows_after,
}

-- the latest message about a copy
abbrev pub latest : String → List TradeMessage → Option TradeMessage
latest id ms = find_first (λ m. m.event.copy_id == id) ms

some_injective {ℓ} : {A : Type ℓ} {a b : A} → some a ≡ some b → a ≡ b
some_injective h = cc

-- An optional value of the message that the row has, if it is there.
abbrev IsReported {ℓ} : {A : Type ℓ} → Option A → Option A → Type ℓ
IsReported none shown = Unit
IsReported (some a) shown = shown ≡ some a

module _ (text : Number → String) where
  -- The row shows the message.
  pub record IsShown (m : TradeMessage) (r : CopyOrderRow) : Type 0 where
    pub id : r.id ≡ m.event.copy_id
    pub status : r.status ≡ m.event.status
    pub type : r.type ≡ m.event.type
    pub error_reason : r.error_reason ≡ m.event.error_reason
    pub trade_event : r.trade_event ≡ some (m.event.symbol, m.event.side)
    pub volume : IsReported (option_map text m.event.volume) r.requested_volume
    pub ticket : IsReported m.event.slave_ticket r.slave_ticket
    pub price : IsReported (option_map text m.event.execution_price) r.execution_price

  IsReported-or_else {ℓ} : {A : Type ℓ} (o p : Option A) → IsReported o (or_else o p)
  IsReported-or_else none p = tt
  IsReported-or_else (some a) p = refl

  merged-IsShown :
      (existing : Option CopyOrderRow) (m : TradeMessage) → IsShown m (merged text existing m)
  merged-IsShown existing m = record {
    id = refl;
    status = refl;
    type = refl;
    error_reason = refl;
    trade_event = refl;
    volume = IsReported-or_else _ _;
    ticket = IsReported-or_else _ _;
    price = IsReported-or_else _ _;
  }

  -- The row of the message's own copy is there.
  put-own :
      (m : TradeMessage) (rows : List CopyOrderRow) (existing : Option CopyOrderRow)
      → find_first (is_row m.event.copy_id) rows ≡ existing
      → find_first (is_row m.event.copy_id) (put text existing m rows)
        ≡ some (merged text existing m)
  put-own m rows none h = rw (eq→beq m.event.copy_id m.event.copy_id refl) refl
  put-own m rows (some r) h =
      find_first-replace_first (is_row m.event.copy_id) (merged text (some r) m) rows h
        (eq→beq m.event.copy_id m.event.copy_id refl)

  -- A row of another copy was there before.
  put-others :
      (m : TradeMessage) (rows : List CopyOrderRow) (existing : Option CopyOrderRow) (x : String)
      {r : CopyOrderRow}
      → (m.event.copy_id == x) ≡ false
      → find_first (is_row x) (put text existing m rows) ≡ some r
      → find_first (is_row x) rows ≡ some r
  put-others m rows none x {r} other h =
      let found =
        find_first-take {A = CopyOrderRow} (is_row x) max_rows (merged text none m ∷ rows) {x = r}
          h in
      rw other at found
  put-others m rows (some s) x other h =
      sym (
        find_first-replace_first_others (is_row m.event.copy_id) (is_row x) (merged text (some s) m)
          rows (λ t own. ground (arith, eq_iff t.id m.event.copy_id, eq_iff m.event.copy_id x))
          other)
      ∙ h

  -- What is found at the message's own copy is the merged row.
  own_row :
      (m : TradeMessage) (rows : List CopyOrderRow) (x : String) (r : CopyOrderRow)
      → (m.event.copy_id == x) ≡ true
      → find_first (is_row x) (merge text m rows) ≡ some r
      → merged text (find_first (is_row m.event.copy_id) rows) m ≡ r
  unfolding merge
  own_row m rows x r own h =
      let same : m.event.copy_id ≡ x = beq→eq m.event.copy_id x own in
      let existing = find_first (is_row m.event.copy_id) rows in
      let found =
        subst
          (λ y. find_first (is_row y) (put text existing m rows) ≡ some (merged text existing m))
          same (put-own m rows existing refl) in
      some_injective (sym found ∙ h)

  -- The page at a copy: the row that is found shows the latest message, or is the one of the first load
  -- where there was no message.
  abbrev pub IsLatest :
      List CopyOrderRow → List TradeMessage → String → Option CopyOrderRow → Type 0
  IsLatest initial ms x none = Unit
  IsLatest initial ms x (some r) = elim (latest x ms) [
    | none ↦ find_first (is_row x) initial ≡ some r
    | some m ↦ IsShown m r
  ]

  -- The copy of the newest message is on the page, with what the message says.
  abbrev pub IsNewestShown : List TradeMessage → List CopyOrderRow → Type 0
  IsNewestShown [] rows = Unit
  IsNewestShown (m ∷ ms) rows =
      (r : CopyOrderRow) × (find_first (is_row m.event.copy_id) rows ≡ some r) × IsShown m r

  merge-IsLatest :
      (initial rows : List CopyOrderRow) (m : TradeMessage) (ms : List TradeMessage) (x : String)
      (found : Option CopyOrderRow)
      → find_first (is_row x) (merge text m rows) ≡ found
      → IsLatest initial ms x (find_first (is_row x) rows)
      → IsLatest initial (m ∷ ms) x found
  unfolding merge
  merge-IsLatest initial rows m ms x none h before = tt
  merge-IsLatest initial rows m ms x (some r) h before =
      let existing = find_first (is_row m.event.copy_id) rows in
      elim (Bool-cases (m.event.copy_id == x)) [
        | inl own ↦
            rw (IsLatest, own)
              (subst (IsShown m) (own_row m rows x r own h) (merged-IsShown existing m))
        | inr other ↦ rw (IsLatest, other) (rw (put-others m rows existing x other h) at before)
      ]

  rows_after-IsLatest :
      (initial : List CopyOrderRow) (ms : List TradeMessage) (x : String)
      → IsLatest initial ms x (find_first (is_row x) (rows_after text initial ms))
  unfolding rows_after
  rows_after-IsLatest initial [] x = elim (Option-cases (find_first (is_row x) initial)) [
    | inl missing ↦ rw missing tt
    | inr (r, there) ↦ rw there there
  ]
  rows_after-IsLatest initial (m ∷ ms) x =
      merge-IsLatest initial (rows_after text initial ms) m ms x _ refl
        (rows_after-IsLatest initial ms x)

  put-bounded :
      (m : TradeMessage) (rows : List CopyOrderRow) (existing : Option CopyOrderRow)
      → length rows ≤ max_rows
      → length (put text existing m rows) ≤ max_rows
  put-bounded m rows none h = length-take max_rows (merged text none m ∷ rows)
  put-bounded m rows (some r) h =
      omega (arith, length-replace_first (is_row m.event.copy_id) (merged text (some r) m) rows)

  rows_after-bounded :
      (initial : List CopyOrderRow) (ms : List TradeMessage)
      → length initial ≤ max_rows
      → length (rows_after text initial ms) ≤ max_rows
  unfolding rows_after merge
  rows_after-bounded initial [] h = h
  rows_after-bounded initial (m ∷ ms) h =
      put-bounded m (rows_after text initial ms) _ (rows_after-bounded initial ms h)

  rows_after-IsNewestShown :
      (initial : List CopyOrderRow) (ms : List TradeMessage)
      → IsNewestShown ms (rows_after text initial ms)
  unfolding rows_after merge
  rows_after-IsNewestShown initial [] = tt
  rows_after-IsNewestShown initial (m ∷ ms) = (
    merged text (find_first (is_row m.event.copy_id) (rows_after text initial ms)) m,
    put-own m (rows_after text initial ms) _ refl,
    merged-IsShown (find_first (is_row m.event.copy_id) (rows_after text initial ms)) m,
  )

  -- The three together.
  pub rows_after-Refines :
      (initial : List CopyOrderRow) (ms : List TradeMessage) (x : String)
      → length initial ≤ max_rows
      → IsLatest initial ms x (find_first (is_row x) (rows_after text initial ms))
        × IsNewestShown ms (rows_after text initial ms)
        × (length (rows_after text initial ms) ≤ max_rows)
  rows_after-Refines initial ms x few = (
    rows_after-IsLatest initial ms x,
    rows_after-IsNewestShown initial ms,
    rows_after-bounded initial ms few,
  )
