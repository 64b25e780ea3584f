-- ===== src/NoteEdit.antt =====
-- NoteEdit.ts: the images of a record when it is submitted.
pub mod Images
pub mod Retry
mod Tests
use Prim.Native.String.{String}
use text.Mathlib.Text.{◌==◌ as str_eq}
use pathmemos.Base.{
  ℕ, Bool, true, false, not, ◌&&◌, ◌||◌, Option, none, some, List, [], ◌∷◌, ◌++◌, ◌==◌, Result, ok,
  err, length, drop, if◌then◌else◌,
}
use pathmemos.Http.Toast.{Client}
use pathmemos.Http.Upload.{Failure}
use pathmemos.Http.Upload.Single.{is_truthy}
use pathmemos.Http.Upload.Batch.{
  File, kind_uploaded, kind_delete, is_waiting, ids_of, Uploaded, upload_settled,
}

-- `hasUpload || hasDelete`
abbrev pub has_changes : List File → Bool
has_changes [] = false
has_changes (f ∷ fs) = is_waiting f || (f.kind == kind_delete || has_changes fs)

-- `existingUploadedIds`
abbrev pub existing_uploaded_ids : List File → List String
existing_uploaded_ids [] = []
existing_uploaded_ids (f ∷ fs) = ids_of f ++ existing_uploaded_ids fs

-- The loop that gives each new image the next of the new ids; there is none once they are used up.
abbrev pub with_new_ids : (new_ids : List String) → List File → List File
with_new_ids ids [] = []
with_new_ids ids (f ∷ fs) =
    let next : Option String = elim ids [ [] ↦ none | i ∷ is ↦ some i ] in
    let taken : List File = with_new_ids (drop 1 ids) fs in
    let kept : List File = with_new_ids ids fs in
    if is_waiting f then (record f { kind = kind_uploaded; id = next }) ∷ taken else f ∷ kept

abbrev pub not_deleted : List File → List File
not_deleted [] = []
not_deleted (f ∷ fs) = let rest = not_deleted fs in if f.kind == kind_delete then rest else f ∷ rest

-- An image that was stored before the upload failed.
abbrev pub patch : (item snap : File) → File
patch item snap =
    if is_waiting item && is_truthy snap.uploaded_id
    then record item { kind = kind_uploaded; id = snap.uploaded_id }
    else item

-- `catch`: the images by the snapshot, if there are as many.
abbrev pub patched : (images snapshot : List File) → List File
patched [] snapshot = []
patched (f ∷ fs) [] = f ∷ fs
patched (f ∷ fs) (s ∷ ss) = patch f s ∷ patched fs ss

pub record Submitted : Type 0 where
  pub image_ids : Result Failure (List String)
  pub images : List File
  pub client : Client

-- The images of `submit`, the component being there all along. The snapshot is a copy.
unfoldable pub submit_images : List File → (upload : ℕ → Result Failure String) → Client → Submitted
submit_images images upload c =
    let u = upload_settled images none upload c in
    if has_changes images
    then elim u.result [
      | ok ids ↦
          let new_ids = drop (length (existing_uploaded_ids u.files)) ids in
          record {
            image_ids = ok ids;
            images = not_deleted (with_new_ids new_ids u.files);
            client = u.client;
          }
      | err e ↦ record {
        image_ids = err e;
        images = if length images == length u.files then patched images u.files else images;
        client = u.client;
      }
    ]
    else record { image_ids = ok (existing_uploaded_ids images); images = images; client = c }
