-- ===== src/NoteEdit/Tests.antt =====
-- A submission that is retried, and instances of the theorems on NoteEdit.ts.
use Prim.Native.String.{String}
use pathmemos.Base.{
  ℕ, ◌≡◌, refl, true, false, Option, none, some, List, [], ◌∷◌, ◌==◌, Result, ok, if◌then◌else◌,
}
use pathmemos.Http.Toast.{Client, hide_loading}
use pathmemos.Http.Upload.{Failure, request_abort}
use pathmemos.Http.Upload.Single.{fails_with}
use pathmemos.Http.Upload.Batch.{File, count, conclude, modals_of, upload_settled}
use pathmemos.NoteEdit.{existing_uploaded_ids, not_deleted, submit_images}
use pathmemos.NoteEdit.Images.{owned, submit_images_own}

runs : Unit {0}
unfolding count conclude modals_of upload_settled submit_images hide_loading
runs = tt

abbrev client : Client
client = record {
  session = true;
  session_toast_at = 0;
  error_toast_at = 0;
  page_destroyed = false;
  page_hidden = false;
  private_backend = false;
  loading_count = 1;
  loading_shown = true;
  toasts = [];
}

abbrev image : (path : String) → (kind : ℕ) → Option String → File
image path kind id = record { path = path; kind = kind; id = id; uploaded_id = none }

abbrev images : List File
images = image "p" 1 none ∷ image "" 2 (some "gone") ∷ image "q" 1 none ∷ []

abbrev upload : ℕ → Result Failure String
upload i = if i == 0 then ok "a" else ok "b"

abbrev first_fails : ℕ → Result Failure String
first_fails i = if i == 0 then fails_with request_abort else ok "b"

-- After a failure of the first image and a retry the ids are not in the order of the images.
retry_tests :
    let s = submit_images images first_fails client in
    let t = submit_images s.images upload client in
    ((submit_images images upload client).image_ids ≡ ok ("a" ∷ "b" ∷ []))
    × (existing_uploaded_ids s.images ≡ "b" ∷ [])
    × (t.image_ids ≡ ok ("b" ∷ "a" ∷ []))
    × (existing_uploaded_ids t.images ≡ "a" ∷ "b" ∷ [])
unfolding runs
retry_tests = (refl, refl, refl, refl)

submit_images_own_example :
    let s = submit_images images upload client in
    (s.image_ids ≡ ok ("a" ∷ "b" ∷ [])) × (s.images ≡ not_deleted (owned 0 upload images))
submit_images_own_example = submit_images_own images upload client refl
