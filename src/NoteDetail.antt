-- ===== src/NoteDetail.antt =====
-- frontend/miniapp/miniprogram/pages/NoteDetail/NoteDetail.ts: the entries of a day, loaded page by page.
-- What is shown is derived from them and left out, as are covers and memories but for their number.
pub mod Entries
pub mod Growth
pub mod Skipped
mod Tests
use pathmemos.Base.{
  ℕ, zero, suc, ◌+◌, ◌-◌, max, Bool, true, false, not, ◌&&◌, ◌||◌, Option, none, some, List, [],
  ◌∷◌, ◌++◌, ltb, ◌==◌, if◌then◌else◌, is_empty, length, take,
}

abbrev pub page_size : ℕ
page_size = 20

abbrev pub max_full_list : ℕ
max_full_list = 200

-- An entry; an id that is missing is none.
pub record Entry : Type 0 where
  pub id : Option ℕ
  pub content : ℕ

pub record Detail : Type 0 where
  pub full_list : List Entry
  pub memories : ℕ
  pub page : ℕ
  pub loading : Bool
  pub reloading : Bool
  pub has_more : Bool
  pub is_login : Bool
  pub is_hidden : Bool
  pub is_destroyed : Bool

-- How `GET /diary/details` ends; `request:abort` is an error of its own.
pub data Answer : Type 0 where
  entries : List Entry → (memories : ℕ) → Answer
  aborted failed : Answer

abbrev pub same_id : Option ℕ → Option ℕ → Bool
same_id none j = false
same_id (some i) none = false
same_id (some i) (some j) = i == j

abbrev pub seen : Option ℕ → List Entry → Bool
seen i [] = false
seen i (e ∷ es) = same_id i e.id || seen i es

-- The loop that appends what was not seen.
abbrev pub append_unseen : (full_list all_data : List Entry) → List Entry
append_unseen l [] = l
append_unseen l (e ∷ es) =
    let skipped : List Entry = append_unseen l es in
    let pushed : List Entry = append_unseen (l ++ e ∷ []) es in
    if seen e.id l then skipped else pushed

-- `fetch` to its request, with the page that it asks for; `after_login` is whether a login that is
-- needed leaves a user.
unfoldable pub fetch_begin :
    (after_login : Bool)
    → (target_page : Option ℕ) → (skip_reload_guard : Bool) → Detail
    → Detail × Option ℕ
fetch_begin after_login target_page skip_reload_guard d =
    let e : Detail = record d { is_login = d.is_login || after_login } in
    let page : ℕ = elim target_page [ none ↦ d.page | some p ↦ p ] in
    if d.is_destroyed || d.is_hidden
    then (d, none)
    else if not e.is_login || (d.loading || (d.reloading && not skip_reload_guard))
    then (e, none)
    else (record e { page = page; loading = true }, some page)

-- The answer to the request for a page.
unfoldable pub fetch_answered : (page : ℕ) → Answer → Detail → Detail
fetch_answered page (entries all_data memories) d =
    let merged : List Entry = if page == 1 then all_data else append_unseen d.full_list all_data in
    let is_long = ltb max_full_list (length merged) in
    if is_empty all_data && (memories == 0 && page == 1)
    then record d { loading = false; has_more = false }
    else record d {
      full_list = if is_long then take max_full_list merged else merged;
      memories = memories;
      loading = false;
      has_more = if is_long then false else length all_data == page_size;
    }
fetch_answered page aborted d = record d { loading = false }
fetch_answered page failed d =
    if d.is_destroyed || d.is_hidden
    then d
    else record d { loading = false; page = max 1 (page - 1) }

-- `loadMore`, with the page that it asks for.
unfoldable pub load_more : (after_login : Bool) → Detail → Detail × Option ℕ
unfolding fetch_begin
load_more after_login d =
    if d.loading || (d.reloading || not d.has_more)
    then (d, none)
    else fetch_begin after_login (some (d.page + 1)) false d

-- `loadMore` and its answer, in a run in which nothing else happens.
unfoldable pub load_more_run : (after_login : Bool) → Answer → Detail → Detail
load_more_run after_login answer d =
    let (e, asked) = load_more after_login d in
    elim asked [ none ↦ e | some page ↦ fetch_answered page answer e ]

-- `onHide`, which cancels the request, and `onShow`, on these fields.
unfoldable pub on_hide : Detail → Detail
on_hide d = record d { is_hidden = true; loading = false }

unfoldable pub on_show : Detail → Detail
on_show d = if d.is_destroyed then d else record d { is_hidden = false }

-- `reload` in a run in which nothing else happens; the second component is its value.
unfoldable pub reload_run : (after_login : Bool) → Answer → Detail → Detail × Bool
unfolding fetch_begin fetch_answered
reload_run after_login answer d =
    let fresh : Detail = record d {
      full_list = [];
      memories = 0;
      reloading = true;
      loading = false;
      page = 1;
      has_more = true;
    } in
    let (e, asked) = fetch_begin after_login none true fresh in
    let done : Detail = elim asked [ none ↦ e | some page ↦ fetch_answered page answer e ] in
    if d.reloading || d.is_hidden
    then (d, false)
    else (record done { reloading = false }, not done.is_destroyed && not done.is_hidden)
