-- ===== src/Share/Tests.antt =====
-- Runs of shareCanvas.ts, and instances of its theorems.
use pathmemos.Base.{
  ℕ, ◌≡◌, refl, Bool, Option, none, some, List, [], ◌∷◌, map, ltb, ◌==◌, if◌then◌else◌, length,
  take, min, All,
}
use pathmemos.Share.{
  wrap_text, limited, concat, load_all_images, max_total_images, max_record_count,
}
use pathmemos.Share.Lines.{Fits, Full, wrap_text-lines}
use pathmemos.Share.Images.{load_all_images-limited}

runs : Unit {0}
unfolding wrap_text limited load_all_images
runs = tt

-- A line of three characters.
abbrev wide : List ℕ → Bool
wide line = ltb 3 (length line)

abbrev word : List ℕ
word = 65 ∷ 66 ∷ 67 ∷ 68 ∷ []

abbrev records : List (List ℕ)
records = (1 ∷ 2 ∷ []) ∷ [] ∷ (3 ∷ []) ∷ []

abbrev load : ℕ → Option ℕ
load i = if i == 2 then none else some i

share_tests :
    (wrap_text wide word ≡ (65 ∷ 66 ∷ 67 ∷ []) ∷ (68 ∷ []) ∷ [])
    × (wrap_text wide [] ≡ [])
    × (load_all_images load (limited records) ≡ (some 1 ∷ none ∷ []) ∷ [] ∷ (some 3 ∷ []) ∷ [])
unfolding runs
share_tests = (refl, refl, refl)

wrap_text-lines_example :
    let lines = wrap_text wide word in
    (concat lines ≡ word) × All (Fits wide) lines × Full wide lines
wrap_text-lines_example = wrap_text-lines wide word

load_all_images-limited_example :
    let kept = limited records in
    (load_all_images load kept ≡ map (map load) kept)
    × (concat kept ≡ take max_total_images (concat (take max_record_count records)))
    × (length kept ≡ min max_record_count (length records))
load_all_images-limited_example = load_all_images-limited load records
