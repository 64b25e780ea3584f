-- ===== src/Translation/Restart.antt =====
-- i18n.ts: the mode that was chosen is there after a restart.
use Prim.Native.String.{String}
use pathmemos.Base.{
  ◌++◌, ◌≡◌, refl, sym, ◌∙◌, ap, Bool, true, false, ◌&&◌, Option, List, [], ◌∷◌, arith,
  if◌then◌else◌,
}
use pathmemos.Translation.{
  Locale, zh, en, zh_hant, Mode, auto, fixed, Storage, Writing, write_throws, removal_throws,
  both_done, I18n, same_locale, same_mode, stored_mode, resolve_locale, write_mode, init, tell,
  set_mode,
}

-- A choice of a mode, with what becomes of its write.
pub record Choice : Type 0 where
  pub writing : Writing
  pub chosen : Mode

abbrev pub choose : (system : Option String) → List Choice → Storage × I18n → Storage × I18n
choose system [] p = p
choose system (c ∷ cs) p = choose system cs (set_mode c.writing system c.chosen p)

abbrev pub writes : Writing → Bool
writes write_throws = false
writes removal_throws = true
writes both_done = true

abbrev pub all_write : List Choice → Bool
all_write [] = true
all_write (c ∷ cs) = writes c.writing && all_write cs

stored_mode-write_mode :
    (w : Writing) (m : Mode) (s : Storage) → writes w ≡ true → stored_mode (write_mode w m s) ≡ m
stored_mode-write_mode write_throws m s h = ground (arith, h)
stored_mode-write_mode removal_throws auto s h = refl
stored_mode-write_mode removal_throws (fixed zh) s h = refl
stored_mode-write_mode removal_throws (fixed en) s h = refl
stored_mode-write_mode removal_throws (fixed zh_hant) s h = refl
stored_mode-write_mode both_done auto s h = refl
stored_mode-write_mode both_done (fixed zh) s h = refl
stored_mode-write_mode both_done (fixed en) s h = refl
stored_mode-write_mode both_done (fixed zh_hant) s h = refl

same_locale-eq : (l k : Locale) → same_locale l k ≡ true → l ≡ k
same_locale-eq zh zh h = refl
same_locale-eq zh en h = ground (arith, h)
same_locale-eq zh zh_hant h = ground (arith, h)
same_locale-eq en zh h = ground (arith, h)
same_locale-eq en en h = refl
same_locale-eq en zh_hant h = ground (arith, h)
same_locale-eq zh_hant zh h = ground (arith, h)
same_locale-eq zh_hant en h = ground (arith, h)
same_locale-eq zh_hant zh_hant h = refl

-- The storage has the mode in use, and the locale is the mode's.
abbrev Kept : Option String → Storage × I18n → Type 0
Kept system p = (stored_mode p.0 ≡ p.1.mode) × (p.1.locale ≡ resolve_locale system p.1.mode)

Kept-if :
    (system : Option String) (b : Bool) (p q : Storage × I18n)
    → Kept system p
    → Kept system q
    → Kept system (if b then p else q)
Kept-if system true p q h k = h
Kept-if system false p q h k = k

-- The choice of a new mode, with whether it has the old one's locale.
chosen-Kept :
    (system : Option String) (same : Bool) (m : Mode) (s : Storage) (i changed : I18n)
    → stored_mode s ≡ m
    → changed.mode ≡ m
    → changed.locale ≡ resolve_locale system m
    → same_locale i.locale (resolve_locale system m) ≡ same
    → Kept system (s, if same then record i { mode = m } else changed)
chosen-Kept system true m s i changed h e l q =
    (h, same_locale-eq i.locale (resolve_locale system m) q)
chosen-Kept system false m s i changed h e l q = (h ∙ sym e, l ∙ ap (resolve_locale system) (sym e))

set_mode-Kept :
    (system : Option String) (c : Choice) (s : Storage) (i : I18n)
    → writes c.writing ≡ true
    → Kept system (s, i)
    → Kept system (set_mode c.writing system c.chosen (s, i))
unfolding set_mode
set_mode-Kept system c s i w h =
    let m = c.chosen in
    let locale = resolve_locale system m in
    let written = write_mode c.writing m s in
    let changed : I18n = record i {
      mode = m;
      locale = locale;
      told = i.told ++ tell locale i.listeners;
    } in
    let same = same_locale i.locale locale in
    let next : I18n = if same then record i { mode = m } else changed in
    Kept-if system (same_mode i.mode m) (s, i) (written, next) h
      (chosen-Kept system same m written i changed (stored_mode-write_mode c.writing m s w) refl
        refl refl)

choose-Kept :
    (system : Option String) (cs : List Choice) (s : Storage) (i : I18n)
    → all_write cs ≡ true
    → Kept system (s, i)
    → Kept system (choose system cs (s, i))
choose-Kept system [] s i w h = h
choose-Kept system (c ∷ cs) s i w h =
    let (t, j) = set_mode c.writing system c.chosen (s, i) in
    choose-Kept system cs t j (ground (arith, w)) (set_mode-Kept system c s i (ground (arith, w)) h)

restarted :
    (system : Option String) (s : Storage) (i : I18n) → Kept system (s, i) → init s system i ≡ i
unfolding init
restarted system s i (m, l) =
    ap (λ x. record i { mode = x; locale = resolve_locale system x }) m
    ∙ ap (λ x. record i { locale = x }) (sym l)

-- Whatever the storage has at the start, and whatever modes are chosen then, with or without a removal
-- of the older key that throws: as long as the mode itself is written, starting again on what the
-- storage has then gives the mode and the locale that were in use, on a platform with the same
-- language.
pub init-choose :
    (system : Option String) (cs : List Choice) (s : Storage) (i : I18n)
    → all_write cs ≡ true
    → let (t, j) = choose system cs (s, init s system i) in init t system j ≡ j
unfolding init
init-choose system cs s i w =
    let (t, j) = choose system cs (s, init s system i) in
    restarted system t j (choose-Kept system cs s (init s system i) w (refl, refl))
