-- ===== src/AiDrawer/Text.antt =====
-- AIDrawer.ts: the texts of prompts and answers.
use pathmemos.Base.{
  ℕ, zero, suc, Bool, true, ◌&&◌, ◌||◌, Option, none, some, List, [], ◌∷◌, leb, ◌==◌, if◌then◌else◌,
  length,
}

abbrev pub dollar : ℕ
dollar = 36

-- A text behind `$$`: what follows the next `$$` if no other `$` stands before it.
abbrev pub tag_end : List ℕ → Option (List ℕ)
tag_end [] = none
tag_end (c ∷ cs) =
    let later = tag_end cs in
    let at_dollar : Option (List ℕ) = elim cs [
      | [] ↦ none
      | d ∷ ds ↦ if d == dollar then some ds else none
    ] in
    if c == dollar then at_dollar else later

-- What follows a tag that the text begins with.
abbrev pub after_tag : List ℕ → Option (List ℕ)
after_tag [] = none
after_tag (c ∷ []) = none
after_tag (c ∷ d ∷ cs) = if c == dollar && d == dollar then tag_end cs else none

-- `replace(/\$\$[^$]*\$\$/g, '')`, on fuel.
abbrev pub without_tags_on : (fuel : ℕ) → List ℕ → List ℕ
without_tags_on zero cs = cs
without_tags_on (suc n) [] = []
without_tags_on (suc n) (c ∷ cs) =
    let kept : List ℕ = c ∷ without_tags_on n cs in
    elim (after_tag (c ∷ cs)) [ none ↦ kept | some rest ↦ without_tags_on n rest ]

abbrev pub clean_text : List ℕ → List ℕ
clean_text cs = without_tags_on (length cs) cs

-- The code points that `trim` takes off.
abbrev pub is_blank_char : ℕ → Bool
is_blank_char c =
    (leb 9 c && leb c 13)
    || (c == 32
        || (c == 160
            || (c == 5760
                || ((leb 8192 c && leb c 8202)
                    || (c == 8232
                        || (c == 8233
                            || (c == 8239 || (c == 8287 || (c == 12288 || c == 65279)))))))))

-- `!prompt?.trim()`
abbrev pub is_blank : List ℕ → Bool
is_blank [] = true
is_blank (c ∷ cs) = is_blank_char c && is_blank cs

abbrev pub max_prompt : ℕ
max_prompt = 2500
