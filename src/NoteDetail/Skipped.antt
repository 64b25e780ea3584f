-- ===== src/NoteDetail/Skipped.antt =====
-- NoteDetail.ts: which page is asked for after a load that fails, or that hiding the page aborts.
use pathmemos.Base.{ℕ, ◌+◌, ◌≤◌, ◌≡◌, ◌∙◌, ap, Bool, true, false, Option, none, some, arith}
use pathmemos.NoteDetail.{
  Detail, aborted, failed, fetch_begin, fetch_answered, load_more, load_more_run, on_hide, on_show,
}

-- A page that is shown, and loads nothing.
pub record IsIdle (d : Detail) : Type 0 where
  pub idle : d.loading ≡ false
  pub settled : d.reloading ≡ false
  pub more : d.has_more ≡ true
  pub user : d.is_login ≡ true
  pub shown : d.is_hidden ≡ false
  pub there : d.is_destroyed ≡ false

-- The load that hiding the page aborts: it begins, the page is hidden, the answer is an abort, and the
-- page is shown again.
abbrev pub hidden_load : (after_login : Bool) → Detail → Detail
hidden_load after_login d =
    let (e, asked) = load_more after_login d in
    elim asked [ none ↦ e | some page ↦ on_show (fetch_answered page aborted (on_hide e)) ]

begins :
    (after_login : Bool) (d : Detail)
    → IsIdle d
    → load_more after_login d ≡ (record d { page = d.page + 1; loading = true }, some (d.page + 1))
unfolding load_more fetch_begin
begins after_login d i =
    let a = i.idle in
    let b = i.settled in
    let c = i.more in
    let u = i.user in let s = i.shown in let t = i.there in ground (arith, a, b, c, u, s, t)

abbrev resumed : Detail × Option ℕ → Detail
resumed (e, none) = e
resumed (e, some page) = on_show (fetch_answered page aborted (on_hide e))

abbrev failing : Detail × Option ℕ → Detail
failing (e, none) = e
failing (e, some page) = fetch_answered page failed e

hidden_load-eq :
    (after_login : Bool) (d : Detail)
    → IsIdle d
    → hidden_load after_login d ≡ record d { page = d.page + 1 }
unfolding on_show on_hide fetch_answered
hidden_load-eq after_login d i =
    let e : Detail = record d { page = d.page + 1; loading = true } in
    let a = i.idle in
    let s = i.shown in
    let t = i.there in
    let r : resumed (e, some (d.page + 1)) ≡ record d { page = d.page + 1 } =
      ground (arith, a, s, t) in
    ap resumed (begins after_login d i) ∙ r

failed_load-eq :
    (after_login : Bool) (d : Detail)
    → IsIdle d
    → 1 ≤ d.page
    → load_more_run after_login failed d ≡ d
unfolding load_more_run fetch_answered
failed_load-eq after_login d i h =
    let e : Detail = record d { page = d.page + 1; loading = true } in
    let a = i.idle in
    let s = i.shown in
    let t = i.there in
    let r : failing (e, some (d.page + 1)) ≡ d = ground (arith, a, s, t, h) in
    ap failing (begins after_login d i) ∙ r

-- On a page that is shown, has a user, more entries and nothing to load, a load that fails leaves
-- everything as it was, so the next one asks for the same page of entries; but one that is aborted
-- since the page is hidden keeps the number of the page of entries that it did not get, so the next
-- load leaves that one out.
pub hidden_load_skips :
    (after_login : Bool) (d : Detail)
    → IsIdle d
    → 1 ≤ d.page
    → let f = load_more_run after_login failed d in
      let h = hidden_load after_login d in
      (f ≡ d)
      × ((load_more after_login f).1 ≡ some (d.page + 1))
      × (h.full_list ≡ d.full_list)
      × ((load_more after_login h).1 ≡ some (d.page + 1 + 1))
hidden_load_skips after_login d i p =
    let f = failed_load-eq after_login d i p in
    let h = hidden_load-eq after_login d i in
    let next : Detail = record d { page = d.page + 1 } in
    let next-IsIdle : IsIdle next = record {
      idle = i.idle;
      settled = i.settled;
      more = i.more;
      user = i.user;
      shown = i.shown;
      there = i.there;
    } in
    (
      f,
      ap (λ x. (load_more after_login x).1) f ∙ ap (λ r. r.1) (begins after_login d i),
      ap (λ x. x.full_list) h,
      ap (λ x. (load_more after_login x).1) h ∙ ap (λ r. r.1) (begins after_login next next-IsIdle),
    )
