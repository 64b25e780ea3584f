-- ===== src/Translation/Texts.antt =====
-- i18n.ts: `getNestedValue` and `t`. The tables of texts are parameters, and `args` are left out.
use Prim.Native.String.{String}
use text.Mathlib.Text.{◌==◌ as str_eq}
use pathmemos.Base.{Option, none, some, List, [], ◌∷◌, if◌then◌else◌}
use pathmemos.Translation.{Locale, zh, I18n}

mutual
  -- `MessageValue`
  pub data Value : Type 0 where
    one_text : String → Value
    texts : List String → Value
    node : Fields → Value

  pub data Fields : Type 0 where
    no_fields : Fields
    field : String → Value → Fields → Fields

abbrev pub field_of : String → Fields → Option Value
field_of k no_fields = none
field_of k (field j v inner) = let rest = field_of k inner in if str_eq j k then some v else rest

abbrev pub child : String → Option Value → Option Value
child k none = none
child k (some (one_text s)) = none
child k (some (texts ss)) = none
child k (some (node inner)) = field_of k inner

-- `getNestedValue`
abbrev pub get_nested_value : Option Value → List String → Option Value
get_nested_value v [] = v
get_nested_value v (k ∷ ks) = get_nested_value (child k v) ks

-- A text, or none, where `t` gives the key.
abbrev pub text_or_key : Option Value → Option String
text_or_key none = none
text_or_key (some (one_text s)) = some s
text_or_key (some (texts ss)) = none
text_or_key (some (node inner)) = none

-- `t`
unfoldable pub t : (tables : Locale → Fields) → List String → I18n → Option String
t tables key i = elim (get_nested_value (some (node (tables i.locale))) key) [
  | none ↦ text_or_key (get_nested_value (some (node (tables zh))) key)
  | some v ↦ text_or_key (some v)
]
