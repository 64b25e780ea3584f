-- ===== src/Http/UploadTests.antt =====
-- Runs of the uploads of http.ts.
use Prim.Native.String.{String}
use pathmemos.Base.{
  ℕ, ◌≡◌, refl, true, false, none, some, List, [], ◌∷◌, ◌==◌, Result, ok, err, if◌then◌else◌,
}
use pathmemos.Http.Toast.{Client, hide_loading}
use pathmemos.Http.Upload.{
  Failure, request_abort, images_fail, said, upload_fail, parse_fail, read_fail, image_size_limit,
}
use pathmemos.Http.Upload.Single.{
  Body, succeeds, fails_with, quality, compress_image, upload_reply, upload_one,
}
use pathmemos.Http.Upload.Verdict.{upload_settled-verdict}
use pathmemos.Http.Upload.Batch.{
  File, count, thrown, storage_limit, conclude, modals_of, upload_settled,
}

runs : Unit {0}
unfolding quality compress_image upload_reply upload_one count conclude modals_of upload_settled
    hide_loading
runs = tt

abbrev full : Body
full = record {
  code = some "4001";
  biz_code = some "USER_IMAGE_STORAGE_LIMIT_EXCEEDED";
  old_biz_code = none;
  message = some "";
  msg = some "full";
  files = [];
}

abbrev stored : Body
stored = record {
  code = some "0000";
  biz_code = none;
  old_biz_code = none;
  message = none;
  msg = none;
  files = record { file_id = some "f1"; url = none } ∷ [];
}

abbrev full_failure : Failure
full_failure = record { code = some "USER_IMAGE_STORAGE_LIMIT_EXCEEDED"; message = said "full" }

single_tests :
    (upload_reply (succeeds 200 (some stored)) ≡ ok ("f1", ""))
    × (upload_reply (succeeds 200 (some full)) ≡ err full_failure)
    × (upload_reply (succeeds 200 none) ≡ fails_with parse_fail)
    × (upload_reply (succeeds 502 none) ≡ fails_with upload_fail)
    × (compress_image none (λ q. some "t") none ≡ fails_with read_fail)
    × (compress_image (some 20000000) (λ q. some "t") none ≡ fails_with image_size_limit)
    × (upload_one (ok "t") (λ p. succeeds 200 (some stored)) ≡ ok "f1")
    × (quality 300000 ≡ 65)
unfolding runs
single_tests = (refl, refl, refl, refl, refl, refl, refl, refl)

abbrev client : Client
client = record {
  session = true;
  session_toast_at = 0;
  error_toast_at = 0;
  page_destroyed = false;
  page_hidden = false;
  private_backend = false;
  loading_count = 1;
  loading_shown = true;
  toasts = [];
}

abbrev new_file : File
new_file = record { path = "p"; kind = 1; id = none; uploaded_id = none }

abbrev old_file : File
old_file = record { path = ""; kind = 0; id = some "old"; uploaded_id = none }

abbrev files : List File
files = new_file ∷ old_file ∷ new_file ∷ []

abbrev all_stored : ℕ → Result Failure String
all_stored i = if i == 0 then ok "a" else ok "b"

abbrev second_fails : ℕ → Result Failure String
second_fails i = if i == 0 then ok "a" else fails_with request_abort

batch_tests :
    ((upload_settled files none all_stored client).result ≡ ok ("old" ∷ "a" ∷ "b" ∷ []))
    × ((upload_settled files none all_stored client).client.loading_shown ≡ false)
    × ((upload_settled files none second_fails client).result ≡ err (thrown (images_fail 1)))
    × ((upload_settled files none second_fails client).modals ≡ images_fail 1 ∷ [])
    × ((upload_settled files none (λ i. fails_with request_abort) client).result
        ≡ err (thrown request_abort))
    × ((upload_settled files none (λ i. err full_failure) client).result ≡ err storage_limit)
unfolding runs
batch_tests = (refl, refl, refl, refl, refl, refl)

upload_settled-verdict_example :
    let u = upload_settled files (some "pid") second_fails client in
    (u.result ≡ err (thrown (images_fail 1)))
    × (u.files ≡ record new_file { uploaded_id = some "a" } ∷ old_file ∷ new_file ∷ [])
    × (u.client ≡ hide_loading client)
    × (u.modals ≡ images_fail 1 ∷ [])
unfolding runs
upload_settled-verdict_example = upload_settled-verdict files (some "pid") second_fails client
