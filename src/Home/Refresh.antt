-- ===== src/Home/Refresh.antt =====
-- index.ts: a refresh whose request fails.
use pathmemos.Base.{
  ℕ, ◌+◌, ◌≤◌, ◌≡◌, refl, sym, ◌∙◌, ap, subst, true, false, Option, none, List, ◌++◌, arith,
  is_some, length,
}
use pathmemos.Home.{
  Page, cards, fails, Login, max_list_size, fetch_begin, fetch_answered, fetch, handle_load_more,
  ensure_login, handle_pull_refresh,
}
use pathmemos.Home.Paging.{IsIdle, answered, handle_load_more-cards, append_cards-room}

abbrev refreshed : Page → Page
refreshed s = record s {
  reloading = false;
  refresher_triggered = false;
  cursor_date = none;
  finished_load = false;
  is_login = true;
  loading = false;
}

handle_pull_refresh-fails :
    (l : Login) (s : Page)
    → IsIdle s
    → s.loading ≡ false
    → (ensure_login l s).1 ≡ true
    → handle_pull_refresh l fails s ≡ refreshed s
unfolding handle_pull_refresh ensure_login fetch fetch_begin fetch_answered
handle_pull_refresh-fails l s h idle e = ground (arith, h, idle, e)

asks : (s : Page) → s.is_hidden ≡ false → is_some (fetch_begin false (refreshed s)) ≡ true
unfolding fetch_begin
asks s e = ground arith

-- A refresh whose request for the first page of cards fails, on a page that is shown and has a login
-- and no request under way, keeps the list, but has forgotten where it ends: the next load asks for the
-- first page of cards again, and puts it behind the list that already begins with it.
pub refresh_fails :
    (l : Login) (page : List ℕ) (next : Option ℕ) (s : Page)
    → IsIdle s
    → s.loading ≡ false
    → (ensure_login l s).1 ≡ true
    → length s.list + length page ≤ max_list_size
    → let t = handle_pull_refresh l fails s in
      (t.list ≡ s.list)
      × (t.cursor_date ≡ none)
      × (is_some (fetch_begin false t) ≡ true)
      × ((handle_load_more (cards page next) t).list ≡ s.list ++ page)
refresh_fails l page next s h idle e room =
    let t : Page = refreshed s in
    subst
      (λ u.
        (u.list ≡ s.list)
        × (u.cursor_date ≡ none)
        × (is_some (fetch_begin false u) ≡ true)
        × ((handle_load_more (cards page next) u).list ≡ s.list ++ page))
      (sym (handle_pull_refresh-fails l s h idle e))
      (
        refl,
        refl,
        asks t h.shown,
        ap (λ u. u.list)
            (handle_load_more-cards page next t (record {
              login = refl;
              idle = refl;
              settled = refl;
              shown = h.shown;
              unfinished = refl;
              bound = omega (arith, room);
            })
              ∙ append_cards-room page (answered next t) room),
      )
