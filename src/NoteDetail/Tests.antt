-- ===== src/NoteDetail/Tests.antt =====
-- Runs of NoteDetail.ts, and instances of its theorems.
use pathmemos.Base.{ℕ, ◌≤◌, ◌≡◌, refl, true, false, none, some, [], ◌∷◌, arith, length, take}
use pathmemos.NoteDetail.{
  Entry, Detail, Answer, entries, failed, max_full_list, fetch_begin, fetch_answered, load_more,
  load_more_run, reload_run, on_hide, on_show,
}
use pathmemos.NoteDetail.Entries.{distinct}
use pathmemos.NoteDetail.Growth.{loads, loads_grow}
use pathmemos.NoteDetail.Skipped.{IsIdle, hidden_load, hidden_load_skips}

runs : Unit {0}
unfolding fetch_begin fetch_answered load_more load_more_run reload_run on_hide on_show
runs = tt

abbrev entry : ℕ → Entry
entry i = record { id = some i; content = 0 }

-- The first page of entries was loaded.
abbrev loaded : Detail
loaded = record {
  full_list = entry 9 ∷ entry 8 ∷ [];
  memories = 0;
  page = 1;
  loading = false;
  reloading = false;
  has_more = true;
  is_login = true;
  is_hidden = false;
  is_destroyed = false;
}

-- The second page of entries overlaps with the first.
abbrev second : Answer
second = entries (entry 8 ∷ entry 7 ∷ []) 1

-- A reload that fails counts as one.
detail_tests :
    ((loads loaded false (failed ∷ second ∷ [])).full_list ≡ entry 9 ∷ entry 8 ∷ entry 7 ∷ [])
    × ((loads loaded false (second ∷ [])).has_more ≡ false)
    × ((fetch_answered 1 (entries [] 0) loaded).full_list ≡ entry 9 ∷ entry 8 ∷ [])
    × ((reload_run false second loaded).0.full_list ≡ entry 8 ∷ entry 7 ∷ [])
    × ((reload_run false failed loaded).0.full_list ≡ [])
    × ((reload_run false failed loaded).1 ≡ true)
    × ((fetch_begin true none false (on_hide loaded)).1 ≡ none)
unfolding runs
detail_tests = (refl, refl, refl, refl, refl, refl, refl)

loads_grow_example :
    let t = loads loaded false (failed ∷ second ∷ []) in
    (distinct t.full_list ≡ true)
    × (length t.full_list ≤ max_full_list)
    × (take 2 t.full_list ≡ loaded.full_list)
loads_grow_example = loads_grow false (failed ∷ second ∷ []) loaded (omega arith) refl (omega arith)

loaded-IsIdle : IsIdle loaded
loaded-IsIdle = record {
  idle = refl;
  settled = refl;
  more = refl;
  user = refl;
  shown = refl;
  there = refl;
}

hidden_load_skips_example :
    let f = load_more_run false failed loaded in
    let h = hidden_load false loaded in
    (f ≡ loaded)
    × ((load_more false f).1 ≡ some 2)
    × (h.full_list ≡ loaded.full_list)
    × ((load_more false h).1 ≡ some 3)
hidden_load_skips_example = hidden_load_skips false loaded loaded-IsIdle (omega arith)
