-- ===== src/Home/Tests.antt =====
-- Runs of index.ts on pages of two cards, and instances of its theorems.
use pathmemos.Base.{◌≡◌, refl, true, false, none, some, [], ◌∷◌, ◌++◌, arith, is_some, take}
use pathmemos.Home.{
  Page, Answer, cards, fails, Login, max_list_size, fetch_begin, append_cards, fetch_answered,
  fetch, handle_load_more, ensure_login, reload_run, handle_pull_refresh, show_reload,
}
use pathmemos.Home.Paging.{feed, loads, IsIdle, paging_refines}
use pathmemos.Home.Refresh.{refresh_fails}

runs : Unit {0}
unfolding fetch_begin append_cards fetch_answered fetch handle_load_more ensure_login reload_run
    handle_pull_refresh show_reload
runs = tt

abbrev shown : Page
shown = record {
  list = [];
  is_login = false;
  loading = false;
  loaded_once = false;
  refresher_triggered = false;
  cursor_date = none;
  finished_load = false;
  reloading = false;
  is_destroyed = false;
  is_hidden = false;
  need_refresh = false;
}

abbrev session : Login
session = record { session = true; still_session = true; after_login = false }

abbrev first : Answer
first = cards (8 ∷ 7 ∷ []) (some 7)

abbrev last : Answer
last = cards (6 ∷ []) none

abbrev loaded : Page
loaded = (reload_run session first shown).0

-- Loads with a failure between; a refresh, and one that fails, after which cards are there twice.
home_tests :
    ((loads loaded (fails ∷ last ∷ first ∷ [])).list ≡ 8 ∷ 7 ∷ 6 ∷ [])
    × ((show_reload session first shown).loaded_once ≡ true)
    × ((handle_pull_refresh session last loaded).list ≡ 6 ∷ [])
    × ((handle_load_more first (handle_pull_refresh session fails loaded)).list
        ≡ 8 ∷ 7 ∷ 8 ∷ 7 ∷ [])
unfolding runs
home_tests = (refl, refl, refl, refl)

shown-IsIdle : IsIdle shown
shown-IsIdle = record { settled = refl; shown = refl; alive = refl }

loaded-IsIdle : IsIdle loaded
unfolding runs
loaded-IsIdle = record { settled = refl; shown = refl; alive = refl }

paging_refines_example :
    (loads loaded (fails ∷ last ∷ [])).list ≡ take max_list_size (feed (first ∷ fails ∷ last ∷ []))
unfolding ensure_login
paging_refines_example = paging_refines session first (fails ∷ last ∷ []) shown shown-IsIdle refl

refresh_fails_example :
    let t = handle_pull_refresh session fails loaded in
    (t.list ≡ loaded.list)
    × (t.cursor_date ≡ none)
    × (is_some (fetch_begin false t) ≡ true)
    × ((handle_load_more (cards (8 ∷ 7 ∷ []) (some 7)) t).list ≡ loaded.list ++ 8 ∷ 7 ∷ [])
unfolding runs
refresh_fails_example =
    refresh_fails session (8 ∷ 7 ∷ []) (some 7) loaded loaded-IsIdle refl refl (omega arith)
