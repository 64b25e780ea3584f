-- ===== src/NoteDetail/Growth.antt =====
-- NoteDetail.ts: the list of entries over any history of loads.
use pathmemos.Base.{
  ℕ, ◌+◌, ◌⊎◌, ◌≤◌, ◌≡◌, refl, sym, ◌∙◌, ap, subst, inl, inr, Bool, true, false, not, ◌&&◌, ◌||◌,
  Option, none, some, List, [], ◌∷◌, ◌==◌, arith, if◌then◌else◌, length, take, length-take,
}
use pathmemos.NoteDetail.{
  Entry, Detail, Answer, entries, aborted, failed, append_unseen, max_full_list, fetch_begin,
  fetch_answered, load_more, load_more_run,
}
use pathmemos.NoteDetail.Entries.{
  distinct, append_unseen-distinct, take-append_unseen, take-take, Good, cut, cut-Good, whole,
}

entries-full_list :
    (page : ℕ) (es : List Entry) (memories : ℕ) (d : Detail)
    → 2 ≤ page
    → (fetch_answered page (entries es memories) d).full_list ≡ cut (append_unseen d.full_list es)
unfolding fetch_answered cut
entries-full_list page es memories d p =
    let later : (page == 1) ≡ false = ground (arith, p) in ground (arith, later)

failed-full_list : (page : ℕ) (d : Detail) → (fetch_answered page failed d).full_list ≡ d.full_list
unfolding fetch_answered
failed-full_list page d = ground arith

-- The answer to a page of entries behind the first one.
answered-Good :
    (page : ℕ) (answer : Answer) (d : Detail)
    → 2 ≤ page
    → distinct d.full_list ≡ true
    → length d.full_list ≤ max_full_list
    → Good d.full_list (fetch_answered page answer d).full_list
unfolding fetch_answered
answered-Good page (entries es memories) d p x n =
    subst (Good d.full_list) (sym (entries-full_list page es memories d p)) (
      cut-Good d.full_list (append_unseen d.full_list es) n
        (append_unseen-distinct es d.full_list x) (take-append_unseen es d.full_list))
answered-Good page aborted d p x n = (x, n, whole d.full_list)
answered-Good page failed d p x n =
    subst (Good d.full_list) (sym (failed-full_list page d)) (x, n, whole d.full_list)

answered-page :
    (page : ℕ) (answer : Answer) (d : Detail) → 1 ≤ d.page → 1 ≤ (fetch_answered page answer d).page
unfolding fetch_answered
answered-page page (entries es memories) d p = ground (arith, p)
answered-page page aborted d p = p
answered-page page failed d p = ground (arith, p)

-- `loadMore` asks for nothing, or for the page of entries after the last one.
abbrev Asks : Detail → Detail × Option ℕ → Type 0
Asks d r =
    (r.0.full_list ≡ d.full_list) × (d.page ≤ r.0.page) × ((r.1 ≡ none) ⊎ (r.1 ≡ some (d.page + 1)))

Asks-if :
    (b : Bool) (d : Detail) (r t : Detail × Option ℕ)
    → Asks d r
    → Asks d t
    → Asks d (if b then r else t)
Asks-if true d r t p q = p
Asks-if false d r t p q = q

load_more-Asks : (after_login : Bool) (d : Detail) → Asks d (load_more after_login d)
unfolding load_more fetch_begin
load_more-Asks after_login d =
    let e : Detail = record d { is_login = d.is_login || after_login } in
    let asked : Detail = record e { page = d.page + 1; loading = true } in
    let nothing : Asks d (d, none) = (refl, omega arith, inl refl) in
    let logged : Asks d (e, none) = (refl, omega arith, inl refl) in
    let asks : Asks d (asked, some (d.page + 1)) = (refl, omega arith, inr refl) in
    let busy = not e.is_login || (e.loading || (e.reloading && true)) in
    let begun : Detail × Option ℕ = if busy then (e, none) else (asked, some (d.page + 1)) in
    let gone = d.is_destroyed || d.is_hidden in
    Asks-if (d.loading || (d.reloading || not d.has_more)) d (d, none)
      (if gone then (d, none) else begun) nothing
      (Asks-if gone d (d, none) begun nothing
        (Asks-if busy d (e, none) (asked, some (d.page + 1)) logged asks))

abbrev answered : Answer → Detail × Option ℕ → Detail
answered answer (e, none) = e
answered answer (e, some page) = fetch_answered page answer e

-- A list with its number of the page, after a load.
abbrev Loaded : Detail → Detail → Type 0
Loaded d t = Good d.full_list t.full_list × (1 ≤ t.page)

answered-Loaded :
    (answer : Answer) (d e : Detail) (asked : Option ℕ)
    → Asks d (e, asked)
    → 1 ≤ d.page
    → distinct d.full_list ≡ true
    → length d.full_list ≤ max_full_list
    → Loaded d (answered answer (e, asked))
answered-Loaded answer d e none (same, later, _) p x n =
    (subst (Good d.full_list) (sym same) (x, n, whole d.full_list), omega arith)
answered-Loaded answer d e (some page) (same, later, which) p x n =
    let two : 2 ≤ page = asked_page page d which p in
    let g =
      answered-Good page answer e two (ap distinct same ∙ x)
        (subst (λ l. length l ≤ max_full_list) (sym same) n) in
    (
      subst (λ l. Good l (fetch_answered page answer e).full_list) same g,
      answered-page page answer e (omega arith),
    )
  where
    asked_page :
        (page : ℕ) (d : Detail)
        → (some page ≡ none) ⊎ (some page ≡ some (d.page + 1))
        → 1 ≤ d.page
        → 2 ≤ page
    asked_page page d w p = ground (arith, w, p)

abbrev pub loads : Detail → (after_login : Bool) → List Answer → Detail
loads d after_login [] = d
loads d after_login (answer ∷ answers) =
    loads (load_more_run after_login answer d) after_login answers

load_more_run-Loaded :
    (after_login : Bool) (answer : Answer) (d : Detail)
    → 1 ≤ d.page
    → distinct d.full_list ≡ true
    → length d.full_list ≤ max_full_list
    → Loaded d (load_more_run after_login answer d)
unfolding load_more_run
load_more_run-Loaded after_login answer d p x n =
    let (e, asked) = load_more after_login d in
    answered-Loaded answer d e asked (load_more-Asks after_login d) p x n

Good-trans : (a b c : List Entry) → length a ≤ length b → Good a b → Good b c → Good a c
Good-trans a b c h (_, _, t) (x, n, u) =
    (x, n, sym (take-take (length a) (length b) c h) ∙ ap (take (length a)) u ∙ t)

longer : (a b : List Entry) → take (length a) b ≡ a → length a ≤ length b
longer a b t = let n = length-take (length a) b in let e = ap length t in omega arith

-- Over any history of further loads, answered, aborted or failed, the list of entries only grows at
-- its end: what it had is there, in its place; no entry comes twice, although pages of entries may
-- overlap; and it keeps within 200 entries. This holds from a list on that has no entry twice, is
-- within the limit and is that of some page.
pub loads_grow :
    (after_login : Bool) (answers : List Answer) (d : Detail)
    → 1 ≤ d.page
    → distinct d.full_list ≡ true
    → length d.full_list ≤ max_full_list
    → let t = loads d after_login answers in
      (distinct t.full_list ≡ true)
      × (length t.full_list ≤ max_full_list)
      × (take (length d.full_list) t.full_list ≡ d.full_list)
loads_grow after_login [] d p x n = (x, n, whole d.full_list)
loads_grow after_login (answer ∷ answers) d p x n =
    let s = load_more_run after_login answer d in
    let ((x', n', t), p') = load_more_run-Loaded after_login answer d p x n in
    Good-trans d.full_list s.full_list (loads s after_login answers).full_list
      (longer d.full_list s.full_list t) (x', n', t) (loads_grow after_login answers s p' x' n')
