-- ===== src/Home.antt =====
-- frontend/miniapp/miniprogram/pages/index/index.ts: the list of diary cards of the first page, its
-- paging, its reload and its refresh. A card, and the date that a page of cards ends at (a cursor), are
-- numbers. Each function that awaits is cut at its `await`s.
pub mod Paging
pub mod Refresh
mod Tests
use pathmemos.Base.{
  ℕ, zero, suc, ◌+◌, ◌-◌, Bool, true, false, not, ◌&&◌, ◌||◌, Option, none, some, List, [], ◌∷◌,
  ◌++◌, ltb, ◌==◌, if◌then◌else◌, is_some, is_empty, length, take,
}

abbrev pub max_list_size : ℕ
max_list_size = 200

-- The fields that paging reads: of `data`, of the page, and `_needRefreshIndexList` of the app.
pub record Page : Type 0 where
  pub list : List ℕ
  pub is_login : Bool
  pub loading : Bool
  pub loaded_once : Bool
  pub refresher_triggered : Bool
  pub cursor_date : Option ℕ
  pub finished_load : Bool
  pub reloading : Bool
  pub is_destroyed : Bool
  pub is_hidden : Bool
  pub need_refresh : Bool

-- How `GET /diary/info` ends: the cards with `nextCursor`, or a failure, an abort included.
pub data Answer : Type 0 where
  cards : List ℕ → Option ℕ → Answer
  fails : Answer

-- `fetch` to its request: none if it does not make it, else with the cursor that it asks for.
unfoldable pub fetch_begin : (skip_reload_guard : Bool) → Page → Option (Page × Option ℕ)
fetch_begin skip_reload_guard s =
    let asked : Page × Option ℕ = (record s { loading = true }, s.cursor_date) in
    if s.loading
      || (s.finished_load
          || (not s.is_login || ((s.reloading && not skip_reload_guard) || s.is_hidden)))
    then none
    else some asked

-- The writes `list[start + i]` of a page of cards, as far as the list may grow.
unfoldable pub append_cards : List ℕ → Page → Page
append_cards mapped_data s =
    if ltb max_list_size (length (s.list ++ mapped_data))
    then record s {
      finished_load = true;
      list = s.list ++ take (max_list_size - length s.list) mapped_data;
      loading = false;
    }
    else record s { list = s.list ++ mapped_data; loading = false }

-- The answer of the request.
unfoldable pub fetch_answered : (replace : Bool) → Answer → Page → Page
unfolding append_cards
fetch_answered replace (cards mapped_data next_cursor) s =
    let s = record s { finished_load = not (is_some next_cursor); cursor_date = next_cursor } in
    if replace then record s { list = mapped_data; loading = false } else append_cards mapped_data s
fetch_answered replace fails s = record s { loading = false }

-- `fetch` in a run in which nothing else happens.
unfoldable pub fetch : (skip_reload_guard replace : Bool) → Answer → Page → Page
fetch skip_reload_guard replace answer s = elim (fetch_begin skip_reload_guard s) [
  | none ↦ s
  | some asked ↦ fetch_answered replace answer (asked.0)
]

-- `handleLoadMore`
unfoldable pub handle_load_more : Answer → Page → Page
handle_load_more answer s = if s.reloading then s else fetch false false answer s

-- How the three queries of `ensureLogin` end: a session that is there, with whether the profile query
-- leaves it, and what a login leaves (false if it fails).
pub record Login : Type 0 where
  pub session : Bool
  pub still_session : Bool
  pub after_login : Bool

unfoldable pub ensure_login : Login → Page → Page × Bool
ensure_login l s =
    let is_login = if l.session && l.still_session then true else l.after_login in
    (record s { is_login = is_login }, is_login)

-- `reload` in a run in which the page stays shown; the second component is its value.
unfoldable pub reload_run : Login → Answer → Page → Page × Bool
reload_run l answer s =
    let (t, is_login) = ensure_login l (record s {
      reloading = true;
      cursor_date = none;
      finished_load = false;
      list = [];
      loading = false;
    }) in
    let u = fetch true false answer t in
    if s.reloading || s.is_hidden
    then (s, false)
    else if not is_login || t.is_destroyed
    then (record t { reloading = false }, false)
    else (
      record u { reloading = false },
      not (u.is_destroyed || u.is_hidden) && not (is_empty u.list && not u.finished_load),
    )

-- `handlePullRefresh` in such a run. Since `fetch` catches the failure of its request, the `catch` that
-- puts the old cursor back is reached by none of its own.
unfoldable pub handle_pull_refresh : Login → Answer → Page → Page
handle_pull_refresh l answer s =
    let (t, is_login) =
      ensure_login l (record s { reloading = true; refresher_triggered = true }) in
    let u = fetch true true answer (record t { cursor_date = none; finished_load = false }) in
    if s.reloading || s.is_hidden
    then record s { refresher_triggered = false }
    else if not is_login || t.is_destroyed
    then record t { reloading = false; refresher_triggered = false }
    else record u { reloading = false; refresher_triggered = false }

-- The part of `onShow` that reloads.
unfoldable pub show_reload : Login → Answer → Page → Page
show_reload l answer s =
    let (t, loaded) = reload_run l answer s in
    if s.need_refresh || (is_empty s.list && not s.loaded_once)
    then if loaded then record t { need_refresh = false; loaded_once = true } else t
    else s

-- `onHide` on these fields: the request is cancelled.
unfoldable pub on_hide : Page → Page
on_hide s = record s { is_hidden = true; loading = false }
