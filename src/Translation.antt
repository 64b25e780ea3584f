-- ===== src/Translation.antt =====
-- frontend/miniapp/miniprogram/utils/i18n.ts: the language, its storage and the lookup of texts. A key is
-- the list of its parts between dots, a table of texts a tree, a listener a number.
pub mod Texts
pub mod Restart
mod Tests
use Prim.Native.String.{String}
use text.Mathlib.Text.{◌==◌ as str_eq}
use pathmemos.Base.{
  ℕ, Bool, true, false, not, ◌&&◌, ◌||◌, Option, none, some, List, [], ◌∷◌, ◌++◌, map, ◌==◌,
  if◌then◌else◌,
}

pub data Locale : Type 0 where
  zh en zh_hant : Locale

-- `LanguageMode`
pub data Mode : Type 0 where
  auto : Mode
  fixed : Locale → Mode

abbrev pub locale_map : List (String × Locale)
locale_map =
    ("zh", zh)
    ∷ ("zh-CN", zh)
    ∷ ("zh_CN", zh)
    ∷ ("zh-TW", zh_hant)
    ∷ ("zh_TW", zh_hant)
    ∷ ("zh-HK", zh_hant)
    ∷ ("zh_HK", zh_hant)
    ∷ ("zh-Hant", zh_hant)
    ∷ ("en", en)
    ∷ ("en-US", en)
    ∷ ("en_US", en)
    ∷ ("en-GB", en)
    ∷ ("en_GB", en)
    ∷ []

abbrev pub lookup : {A : Type 0} → String → List (String × A) → Option A
lookup s [] = none
lookup s ((t, x) ∷ entries) = let rest = lookup s entries in if str_eq s t then some x else rest

abbrev pub locale_or_zh : Option Locale → Locale
locale_or_zh none = zh
locale_or_zh (some l) = l

-- `getSystemLocale`, by the language that the platform tells, none if it throws.
unfoldable pub get_system_locale : Option String → Locale
get_system_locale none = zh
get_system_locale (some system) =
    locale_or_zh (lookup (if str_eq system "" then "zh_CN" else system) locale_map)

abbrev pub locale_text : Locale → String
locale_text zh = "zh"
locale_text en = "en"
locale_text zh_hant = "zh-Hant"

abbrev pub mode_text : Mode → String
mode_text auto = "auto"
mode_text (fixed l) = locale_text l

-- The texts that are a mode; the older storage has no `auto`.
abbrev pub legacy_of : Option String → Option Mode
legacy_of none = none
legacy_of (some s) =
    if str_eq s "zh"
    then some (fixed zh)
    else if str_eq s "en"
    then some (fixed en)
    else if str_eq s "zh-Hant"
    then some (fixed zh_hant)
    else none

abbrev pub mode_of : Option String → Option Mode
mode_of none = none
mode_of (some s) = if str_eq s "auto" then some auto else legacy_of (some s)

-- The two keys of the storage, and what a write of them does: nothing, the write alone, or also the
-- removal of the older key.
pub record Storage : Type 0 where
  pub mode_key : Option String
  pub legacy_locale_key : Option String

pub data Writing : Type 0 where
  write_throws removal_throws both_done : Writing

pub record I18n : Type 0 where
  pub mode : Mode
  pub locale : Locale
  pub listeners : List ℕ
  pub told : List (ℕ × Locale)

-- `_resolveLocale`
unfoldable pub resolve_locale : Option String → Mode → Locale
unfolding get_system_locale
resolve_locale system auto = get_system_locale system
resolve_locale system (fixed l) = l

abbrev pub first_mode : Option Mode → Option Mode → Mode
first_mode (some m) legacy = m
first_mode none (some m) = m
first_mode none none = auto

-- The mode in the storage; a read that throws is as a missing text.
abbrev pub stored_mode : Storage → Mode
stored_mode s = first_mode (mode_of s.mode_key) (legacy_of s.legacy_locale_key)

-- `init`
unfoldable pub init : Storage → Option String → I18n → I18n
unfolding resolve_locale
init s system i = record i { mode = stored_mode s; locale = resolve_locale system (stored_mode s) }

abbrev pub same_locale : Locale → Locale → Bool
same_locale zh zh = true
same_locale zh en = false
same_locale zh zh_hant = false
same_locale en zh = false
same_locale en en = true
same_locale en zh_hant = false
same_locale zh_hant zh = false
same_locale zh_hant en = false
same_locale zh_hant zh_hant = true

abbrev pub same_mode : Mode → Mode → Bool
same_mode auto auto = true
same_mode auto (fixed l) = false
same_mode (fixed l) auto = false
same_mode (fixed l) (fixed k) = same_locale l k

abbrev pub write_mode : Writing → Mode → Storage → Storage
write_mode write_throws m s = s
write_mode removal_throws m s = record s { mode_key = some (mode_text m) }
write_mode both_done m s = record { mode_key = some (mode_text m); legacy_locale_key = none }

abbrev pub tell : Locale → List ℕ → List (ℕ × Locale)
tell l [] = []
tell l (i ∷ is) = (i, l) ∷ tell l is

-- `setMode`
unfoldable pub set_mode : Writing → Option String → Mode → Storage × I18n → Storage × I18n
unfolding resolve_locale
set_mode writing system m (s, i) =
    let locale = resolve_locale system m in
    let chosen : I18n = record i { mode = m } in
    let changed : I18n = record chosen {
      locale = locale;
      told = i.told ++ tell locale i.listeners;
    } in
    if same_mode i.mode m
    then (s, i)
    else (write_mode writing m s, if same_locale i.locale locale then chosen else changed)

-- `onChange`, and what it returns.
abbrev pub on_change : ℕ → I18n → I18n
on_change fn i = record i { listeners = i.listeners ++ fn ∷ [] }

abbrev pub remove_first : ℕ → List ℕ → List ℕ
remove_first fn [] = []
remove_first fn (g ∷ gs) = if fn == g then gs else g ∷ remove_first fn gs

abbrev pub off_change : ℕ → I18n → I18n
off_change fn i = record i { listeners = remove_first fn i.listeners }
