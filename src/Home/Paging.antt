-- ===== src/Home/Paging.antt =====
-- index.ts: the list is the cards that the server has sent, cut off at the limit.
use pathmemos.Base.{
  ℕ, zero, suc, ◌+◌, ◌-◌, ◌≤◌, ◌<◌, ◌≡◌, refl, sym, ◌∙◌, ap, inl, inr, true, false, not, Option,
  none, some, List, [], ◌∷◌, ◌++◌, append_assoc, append-nil, ltb, arith, Bool-cases, is_some,
  length, take, length-append,
}
use pathmemos.Home.{
  Page, Answer, cards, fails, Login, max_list_size, fetch_begin, append_cards, fetch_answered,
  fetch, handle_load_more, ensure_login, reload_run,
}

-- What a server sends, up to the page that has no successor.
abbrev pub feed : List Answer → List ℕ
feed [] = []
feed (fails ∷ answers) = feed answers
feed (cards page none ∷ answers) = page
feed (cards page (some cursor) ∷ answers) = page ++ feed answers

abbrev pub loads : Page → List Answer → Page
loads s [] = s
loads s (a ∷ answers) = loads (handle_load_more a s) answers

module _ {A : Type 0} where
  take-append :
      (n : ℕ) (xs ys : List A) → length xs ≤ n → take n (xs ++ ys) ≡ xs ++ take (n - length xs) ys
  take-append n [] ys h = ap (λ (k : ℕ). take k ys) (omega arith)
  take-append zero (x ∷ xs) ys h = absurd (omega arith)
  take-append (suc n) (x ∷ xs) ys h =
      ap (◌∷◌ x) (take-append n xs ys (omega arith) ∙ ap (λ (k : ℕ). xs ++ take k ys) (omega arith))

  take-all : (n : ℕ) (xs : List A) → length xs ≤ n → take n xs ≡ xs
  take-all zero [] h = refl
  take-all (suc n) [] h = refl
  take-all zero (x ∷ xs) h = absurd (omega arith)
  take-all (suc n) (x ∷ xs) h = ap (◌∷◌ x) (take-all n xs (omega arith))

  take-prefix : (n : ℕ) (xs ys : List A) → n ≤ length xs → take n (xs ++ ys) ≡ take n xs
  take-prefix zero xs ys h = refl
  take-prefix (suc n) [] ys h = absurd (omega arith)
  take-prefix (suc n) (x ∷ xs) ys h = ap (◌∷◌ x) (take-prefix n xs ys (omega arith))

-- A page that may ask for more.
pub record IsReady (s : Page) : Type 0 where
  pub login : s.is_login ≡ true
  pub idle : s.loading ≡ false
  pub settled : s.reloading ≡ false
  pub shown : s.is_hidden ≡ false
  pub unfinished : s.finished_load ≡ false
  pub bound : length s.list ≤ max_list_size

handle_load_more-IsReady :
    (a : Answer) (s : Page)
    → IsReady s
    → handle_load_more a s ≡ fetch_answered false a (record s { loading = true })
unfolding handle_load_more fetch fetch_begin
handle_load_more-IsReady a s h = ground (arith, h)

handle_load_more_finished :
    (a : Answer) (s : Page) → s.finished_load ≡ true → handle_load_more a s ≡ s
unfolding handle_load_more fetch fetch_begin
handle_load_more_finished a s e = ground arith

loads_finished : (answers : List Answer) (s : Page) → s.finished_load ≡ true → loads s answers ≡ s
loads_finished [] s e = refl
loads_finished (a ∷ answers) s e =
    ap (λ t. loads t answers) (handle_load_more_finished a s e) ∙ loads_finished answers s e

-- A page of cards on a list that is within the limit.
pub append_cards-room :
    (page : List ℕ) (s : Page)
    → length s.list + length page ≤ max_list_size
    → append_cards page s ≡ record s { list = s.list ++ page; loading = false }
unfolding append_cards
append_cards-room page s h = ground (arith, length-append s.list page)

append_cards-full :
    (page : List ℕ) (s : Page)
    → max_list_size < length s.list + length page
    → append_cards page s ≡ record s {
      finished_load = true;
      list = s.list ++ take (max_list_size - length s.list) page;
      loading = false;
    }
unfolding append_cards
append_cards-full page s h = ground (arith, length-append s.list page)

answered-list :
    (page : List ℕ) (s : Page)
    → length s.list ≤ max_list_size
    → (append_cards page s).list ≡ take max_list_size (s.list ++ page)
answered-list page s h = elim (Bool-cases (ltb max_list_size (length s.list + length page))) [
  | inl e ↦
      ap (λ t. t.list) (append_cards-full page s (ground (arith, e)))
      ∙ sym (take-append max_list_size s.list page h)
  | inr e ↦
      ap (λ t. t.list) (append_cards-room page s (ground (arith, e)))
      ∙ sym (take-all max_list_size (s.list ++ page) (ground (arith, length-append s.list page, e)))
]

append_cards-finished :
    (page : List ℕ) (s : Page) → s.finished_load ≡ true → (append_cards page s).finished_load ≡ true
unfolding append_cards
append_cards-finished page s e = ground arith

-- The fields that an answer sets first.
abbrev pub answered : Option ℕ → Page → Page
answered next s = record s {
  loading = true;
  finished_load = not (is_some next);
  cursor_date = next;
}

pub handle_load_more-cards :
    (page : List ℕ) (next : Option ℕ) (s : Page)
    → IsReady s
    → handle_load_more (cards page next) s ≡ append_cards page (answered next s)
unfolding fetch_answered
handle_load_more-cards page next s h = handle_load_more-IsReady (cards page next) s h

failed : (s : Page) → IsReady s → handle_load_more fails s ≡ record s { loading = false }
unfolding fetch_answered
failed s h = handle_load_more-IsReady fails s h

loads_lem :
    (answers : List Answer) (s : Page)
    → IsReady s
    → (loads s answers).list ≡ take max_list_size (s.list ++ feed answers)
loads_lem [] s h = sym (
    take-all max_list_size (s.list ++ []) (ground (arith, append-nil s.list, h.bound))
    ∙ append-nil s.list)
loads_lem (fails ∷ answers) s h =
    ap (λ t. (loads t answers).list) (failed s h)
    ∙ loads_lem answers (record s { loading = false })
        (record {
          login = h.login;
          idle = refl;
          settled = h.settled;
          shown = h.shown;
          unfinished = h.unfinished;
          bound = h.bound;
        })
loads_lem (cards page none ∷ answers) s h =
    let t : Page = append_cards page (answered none s) in
    ap (λ u. (loads u answers).list) (handle_load_more-cards page none s h)
    ∙ ap (λ u. u.list)
        (loads_finished answers t (append_cards-finished page (answered none s) refl))
    ∙ answered-list page (answered none s) h.bound
loads_lem (cards page (some cursor) ∷ answers) s h =
    let s' : Page = answered (some cursor) s in
    elim (Bool-cases (ltb max_list_size (length s.list + length page))) [
      | inl e ↦
          let full = append_cards-full page s' (ground (arith, e)) in
          ap (λ u. (loads u answers).list) (handle_load_more-cards page (some cursor) s h)
          ∙ ap (λ u. u.list)
              (loads_finished answers (append_cards page s') (ap (λ u. u.finished_load) full))
          ∙ answered-list page s' h.bound
          ∙ sym (
              take-prefix max_list_size (s.list ++ page) (feed answers)
                (ground (arith, length-append s.list page, e)))
          ∙ ap (take max_list_size) (append_assoc s.list page (feed answers))
      | inr e ↦
          let u : Page = record s' { list = s.list ++ page; loading = false } in
          ap (λ u. (loads u answers).list)
            (handle_load_more-cards page (some cursor) s h
              ∙ append_cards-room page s' (ground (arith, e)))
          ∙ loads_lem answers u (record {
            login = h.login;
            idle = refl;
            settled = h.settled;
            shown = h.shown;
            unfinished = refl;
            bound = ground (arith, length-append s.list page, e);
          })
          ∙ ap (take max_list_size) (append_assoc s.list page (feed answers))
    ]

-- A page that is shown, on which nothing is under way.
pub record IsIdle (s : Page) : Type 0 where
  pub settled : s.reloading ≡ false
  pub shown : s.is_hidden ≡ false
  pub alive : s.is_destroyed ≡ false

-- What a reload leaves, if there is a login.
reload_run-list :
    (l : Login) (a : Answer) (s : Page)
    → IsIdle s
    → (ensure_login l s).1 ≡ true
    → (reload_run l a s).0
      ≡ record (fetch true false a (record s {
        reloading = true;
        cursor_date = none;
        finished_load = false;
        list = [];
        loading = false;
        is_login = true;
      })) { reloading = false }
unfolding reload_run ensure_login
reload_run-list l a s h e = ground (arith, h, e)

abbrev cleared : Page → Page
cleared s = record s {
  reloading = false;
  cursor_date = none;
  finished_load = false;
  list = [];
  loading = false;
  is_login = true;
}

-- The load of a reload is an ordinary one on the cleared page.
reload_fetch :
    (a : Answer) (s : Page)
    → IsIdle s
    → record (fetch true false a (record (cleared s) { reloading = true })) { reloading = false }
      ≡ handle_load_more a (cleared s)
unfolding fetch fetch_begin fetch_answered append_cards handle_load_more
reload_fetch (cards page next) s h = ground (arith, h)
reload_fetch fails s h = ground (arith, h)

-- Once a reload has a login, on a page that is shown and stays shown, the list after it and after any
-- number of further loads is exactly what the server has sent, up to its last page and to the limit
-- of 200 cards: in order, nothing twice and nothing left out, whatever requests fail on the way.
pub paging_refines :
    (l : Login) (first : Answer) (answers : List Answer) (s : Page)
    → IsIdle s
    → (ensure_login l s).1 ≡ true
    → (loads (reload_run l first s).0 answers).list ≡ take max_list_size (feed (first ∷ answers))
paging_refines l first answers s h e =
    ap (λ t. (loads t answers).list) (reload_run-list l first s h e ∙ reload_fetch first s h)
    ∙ loads_lem (first ∷ answers) (cleared s) (record {
      login = refl;
      idle = refl;
      settled = refl;
      shown = h.shown;
      unfinished = refl;
      bound = omega arith;
    })
