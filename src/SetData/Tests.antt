-- ===== src/SetData/Tests.antt =====
-- A run of safeSetData.ts, and an instance of its theorem.
use pathmemos.Base.{zero, suc, ℕ, ◌≡◌, refl, false, none, some, List, [], ◌∷◌}
use pathmemos.SetData.{
  DataPath, Tree, View, set_data, is_alive, apply_pending_set_data, safe_set_data, force_set_data,
  hide, show, detached,
}
use pathmemos.SetData.Deferred.{Op, writes, hides, run_view, written, run_view_refines}

abbrev empty : View ℕ
empty = record {
  view_data = λ k. none;
  pending_set_data = none;
  is_destroyed = some false;
  is_detached = false;
  is_hidden = false;
}

-- A number, and a list with the one entry `{ x: n }`.
abbrev number : ℕ → Tree ℕ
number n [] = some n
number n (_ ∷ _) = none

abbrev entry : ℕ → Tree ℕ
entry n (zero ∷ suc zero ∷ path) = number n path
entry n _ = none

-- The keys `title`, `list`, `list[0].x` and `list[1].x`.
abbrev title : DataPath
title = 6 ∷ []

abbrev list : DataPath
list = 7 ∷ []

abbrev list_0_x : DataPath
list_0_x = 7 ∷ 0 ∷ 1 ∷ []

abbrev list_1_x : DataPath
list_1_x = 7 ∷ 1 ∷ 1 ∷ []

abbrev history : List (Op ℕ)
history =
    writes ((title, number 10) ∷ [])
    ∷ hides
    ∷ writes ((list_0_x, number 20) ∷ (title, number 11) ∷ [])
    ∷ writes ((list_1_x, number 30) ∷ (list_0_x, number 21) ∷ [])
    ∷ []

-- A list, an update of its entry and a newer list, all while the component is hidden.
abbrev overlapping : List (Op ℕ)
overlapping =
    hides
    ∷ writes ((list, entry 1) ∷ [])
    ∷ writes ((list_0_x, number 2) ∷ [])
    ∷ writes ((list, entry 3) ∷ [])
    ∷ []

runs : Unit {0}
unfolding is_alive set_data apply_pending_set_data safe_set_data hide show force_set_data detached
runs = tt

-- While it is hidden a component shows what it did; a forced write is shown at once, and is lost to
-- one that waits; a detached component drops what waits.
view_tests :
    ((run_view empty history).view_data title ≡ some 10)
    × ((run_view empty history).view_data list_0_x ≡ none)
    × ((show (run_view empty history)).view_data list_0_x ≡ some 21)
    × ((show (force_set_data ((list_0_x, number 40) ∷ []) (run_view empty history))).view_data
          list_0_x
        ≡ some 21)
    × ((show (detached (run_view empty history))).view_data list_0_x ≡ none)
unfolding runs
view_tests = (refl, refl, refl, refl, refl)

-- The newer list keeps the place of the older one, so that the update of the entry is written over
-- it; a component that was not hidden shows the newer list.
overlap_tests :
    ((show (run_view empty overlapping)).view_data list_0_x ≡ some 2)
    × (written overlapping empty.view_data list_0_x ≡ some 3)
unfolding runs
overlap_tests = (refl, refl)

run_view_refines_example :
    let t = run_view empty history in
    ((show t).view_data ≡ written history empty.view_data)
    × (t.is_hidden ≡ false → t.view_data ≡ written history empty.view_data)
run_view_refines_example =
    run_view_refines (title ∷ list_0_x ∷ list_1_x ∷ []) empty history refl refl refl refl refl
