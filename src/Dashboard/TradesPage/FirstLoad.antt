-- ===== src/Dashboard/TradesPage/FirstLoad.antt =====
-- The page from its first load on.
use forex_remote_copy_tradin.Prelude.{
  ◌≤◌, String, ◌≡◌, refl, Option, none, some, List, [], ◌∷◌, arith, length, find_first, length-take,
  map, truthy, suc, ap, ℕ,
}
use forex_remote_copy_tradin.Number.{Number}
use forex_remote_copy_tradin.World.{World}
use forex_remote_copy_tradin.Monitoring.Orders.{get_copy_orders, selected, view}
use forex_remote_copy_tradin.Dashboard.TradesPage.{
  max_rows, first_load, row_of, TradeMessage, is_row, rows_after,
}
use forex_remote_copy_tradin.Dashboard.TradesPage.Latest.{
  IsLatest, IsNewestShown, rows_after-Refines,
}

length-map {ℓ κ} :
    {A : Type ℓ} {B : Type κ} (f : A → B) (xs : List A) → length (map f xs) ≡ length xs
length-map f [] = refl
length-map f (x ∷ xs) = ap suc (length-map f xs)

hundred_selected :
    (number_of : String → Option ℕ) (w : World)
    → number_of "100" ≡ some 100
    → length (selected number_of none none (some "100") w) ≤ 100
unfolding truthy
hundred_selected number_of w hundred = rw (selected, hundred) (length-take 100 _)

-- The first load asks for 100 rows at most.
first_load_bounded :
    (text : Number → String) (number_of : String → Option ℕ) (created_at : String → ℕ) (w : World)
    → number_of "100" ≡ some 100
    → length (first_load text number_of created_at w) ≤ max_rows
unfolding first_load get_copy_orders truthy
first_load_bounded text number_of created_at w hundred =
    let rows = selected number_of none none (some "100") w in
    omega (
      arith,
      length-map (row_of text created_at) (map (view w) rows),
      length-map (view w) rows,
      hundred_selected number_of w hundred,
    )

-- After the first load of a dashboard's page and whatever messages arrive then, the page refines the map
-- from each copy to the latest message about it: a row of the page shows the latest message about its
-- copy, or is the loaded row where there was none; the copy of the newest message is on the page; and
-- the page has at most 200 rows.
pub first_load-Refines :
    (text : Number → String) (number_of : String → Option ℕ) (created_at : String → ℕ) (w : World)
    (ms : List TradeMessage) (x : String)
    → number_of "100" ≡ some 100
    → IsLatest text
        (first_load text number_of created_at w)
        ms
        x
        (find_first (is_row x) (rows_after text (first_load text number_of created_at w) ms))
      × IsNewestShown text ms (rows_after text (first_load text number_of created_at w) ms)
      × (length (rows_after text (first_load text number_of created_at w) ms) ≤ max_rows)
first_load-Refines text number_of created_at w ms x hundred =
    rows_after-Refines text (first_load text number_of created_at w) ms x
      (first_load_bounded text number_of created_at w hundred)
