-- ===== src/Share.antt =====
-- frontend/miniapp/miniprogram/pages/NoteDetail/shareCanvas.ts: the lines of a text and the images of
-- a shared picture. A text is the list of its code units; whether a text is wider than a line is what
-- the canvas measures.
pub mod Lines
pub mod Images
mod Tests
use pathmemos.Base.{
  ℕ, zero, suc, ◌+◌, ◌-◌, Bool, true, false, not, ◌&&◌, Option, none, some, List, [], ◌∷◌, ◌++◌,
  map, ltb, leb, if◌then◌else◌, is_empty, length, take, drop,
}

abbrev pub max_text_len : ℕ
max_text_len = 3000

abbrev pub max_record_count : ℕ
max_record_count = 50

abbrev pub max_total_images : ℕ
max_total_images = 150

-- `...`
abbrev pub dots : List ℕ
dots = 46 ∷ 46 ∷ 46 ∷ []

abbrev pub safe_text : List ℕ → List ℕ
safe_text text = if ltb max_text_len (length text) then take max_text_len text ++ dots else text

-- The loop over the characters, with the line that it is at.
abbrev pub wrap : (too_wide : List ℕ → Bool) → (line chars : List ℕ) → List (List ℕ)
wrap too_wide line [] = if is_empty line then [] else line ∷ []
wrap too_wide line (ch ∷ chars) =
    let test : List ℕ = line ++ ch ∷ [] in
    let broken : List (List ℕ) = line ∷ wrap too_wide (ch ∷ []) chars in
    let longer : List (List ℕ) = wrap too_wide test chars in
    if too_wide test && not (is_empty line) then broken else longer

-- `wrapText`
unfoldable pub wrap_text : (too_wide : List ℕ → Bool) → List ℕ → List (List ℕ)
wrap_text too_wide text =
    let lines = wrap too_wide [] (safe_text text) in
    if is_empty text then [] else if is_empty lines then [] ∷ [] else lines

module _ {A : Type 0} where
  -- The images of the records, as far as the budget goes.
  abbrev pub limit : (image_budget : ℕ) → List (List A) → List (List A)
  limit budget [] = []
  limit budget (images ∷ records) =
      let kept = take budget images in
      let none_left : List (List A) = [] ∷ limit budget records in
      let some_left : List (List A) = kept ∷ limit (budget - length kept) records in
      if leb budget 0 then none_left else some_left

  -- The images of `limitedData`.
  unfoldable pub limited : List (List A) → List (List A)
  limited records = limit max_total_images (take max_record_count records)

  -- `recordImageUrls`
  abbrev pub concat : List (List A) → List A
  concat [] = []
  concat (images ∷ records) = images ++ concat records

  -- `slice(offset, offset + count)` for each record.
  abbrev pub slices : {B : Type 0} → (offset : ℕ) → List (List A) → List B → List (List B)
  slices offset [] loaded = []
  slices offset (images ∷ records) loaded =
      take (length images) (drop offset loaded) ∷ slices (offset + length images) records loaded

-- `loadAllImages` on the records: what each image loads to, an image that fails being none.
unfoldable pub load_all_images :
    {A B : Type 0} → (load : A → Option B) → List (List A) → List (List (Option B))
load_all_images load records = slices 0 records (map load (concat records))
