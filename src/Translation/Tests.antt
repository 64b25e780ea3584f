-- ===== src/Translation/Tests.antt =====
-- Runs of i18n.ts, and an instance of its theorem.
use pathmemos.Base.{◌≡◌, refl, none, some, List, [], ◌∷◌}
use pathmemos.Translation.{
  Locale, zh, en, zh_hant, auto, fixed, Storage, removal_throws, both_done, I18n, get_system_locale,
  resolve_locale, init, set_mode, on_change, off_change,
}
use pathmemos.Translation.Texts.{one_text, node, Fields, no_fields, field, t}
use pathmemos.Translation.Restart.{Choice, choose, init-choose}

runs : Unit {0}
unfolding get_system_locale resolve_locale init set_mode t
runs = tt

-- A storage of an older version.
abbrev older : Storage
older = record { mode_key = none; legacy_locale_key = some "en" }

abbrev fresh : I18n
fresh = record { mode = auto; locale = zh; listeners = 4 ∷ []; told = [] }

-- On a Chinese platform: back to the platform's language, and then to Chinese, which changes no locale.
abbrev choices : List Choice
choices =
    record { writing = removal_throws; chosen = auto }
    ∷ record { writing = both_done; chosen = fixed zh }
    ∷ []

-- A text that the English table misses is the Chinese one.
abbrev tables : Locale → Fields
tables zh = field "common" (node (field "tip" (one_text "Ti shi") no_fields)) no_fields
tables en = field "error" (one_text "Error") no_fields
tables zh_hant = no_fields

text_tests :
    (t tables ("common" ∷ "tip" ∷ []) (record fresh { locale = en }) ≡ some "Ti shi")
    × (t tables ("error" ∷ []) (record fresh { locale = en }) ≡ some "Error")
    × (t tables ("common" ∷ []) fresh ≡ none)
unfolding runs
text_tests = (refl, refl, refl)

translation_tests :
    ((init older (some "zh_CN") fresh).locale ≡ en)
    × ((choose (some "zh_CN") choices (older, init older (some "zh_CN") fresh)).1.told
        ≡ (4, zh) ∷ [])
    × ((choose (some "zh_CN") choices (older, init older (some "zh_CN") fresh)).0.mode_key
        ≡ some "zh")
    × (get_system_locale (some "zh-TW") ≡ zh_hant)
    × (get_system_locale (some "fr") ≡ zh)
    × ((off_change 4 (on_change 5 fresh)).listeners ≡ 5 ∷ [])
unfolding runs
translation_tests = (refl, refl, refl, refl, refl, refl)

init-choose_example :
    let (t, j) = choose (some "zh_CN") choices (older, init older (some "zh_CN") fresh) in
    init t (some "zh_CN") j ≡ j
init-choose_example = init-choose (some "zh_CN") choices older fresh refl
