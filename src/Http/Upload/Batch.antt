-- ===== src/Http/Upload/Batch.antt =====
-- http.ts: `uploadFile`. A file stands in the list at its index, and `upload` gives what the upload of
-- the file at an index comes to: the limiter gives the results in the order of its tasks.
use Prim.Native.String.{String}
use pathmemos.Base.{
  ℕ, zero, suc, Bool, true, false, ◌&&◌, ◌||◌, Option, none, some, List, [], ◌∷◌, ◌++◌, ◌==◌,
  Result, ok, err, if◌then◌else◌,
}
use pathmemos.Http.Toast.{Client, show_loading, hide_loading}
use pathmemos.Http.Upload.{
  Message, Failure, request_abort, image_storage_limit, images_fail, is_abort, is_storage_limit,
}
use pathmemos.Http.Upload.Single.{is_truthy}

pub record File : Type 0 where
  pub path : String
  pub kind : ℕ
  pub id : Option String
  pub uploaded_id : Option String

-- `FILE_TYPE`
abbrev pub kind_uploaded : ℕ
kind_uploaded = 0

abbrev pub kind_to_be_uploaded : ℕ
kind_to_be_uploaded = 1

abbrev pub kind_delete : ℕ
kind_delete = 2

abbrev pub is_waiting : File → Bool
is_waiting f = f.kind == kind_to_be_uploaded

abbrev pub ids_of : File → List String
ids_of f =
    if f.kind == kind_uploaded && is_truthy f.id
    then elim f.id [ none ↦ [] | some i ↦ i ∷ [] ]
    else []

-- The indices of the files to be uploaded, and the ids of those that are.
abbrev pub targets : (index : ℕ) → List File → List ℕ
targets i [] = []
targets i (f ∷ fs) = let rest = targets (suc i) fs in if is_waiting f then i ∷ rest else rest

abbrev pub existing : List File → List String
existing [] = []
existing (f ∷ fs) = if is_waiting f then existing fs else ids_of f ++ existing fs

-- `fileLists[index].uploadedId = r`
abbrev pub set_uploaded : (index : ℕ) → String → List File → List File
set_uploaded i r [] = []
set_uploaded zero r (f ∷ fs) = record f { uploaded_id = some r } ∷ fs
set_uploaded (suc i) r (f ∷ fs) = f ∷ set_uploaded i r fs

pub record Tally : Type 0 where
  pub success_ids : List String
  pub failed_paths : ℕ
  pub storage_limit_error : Bool
  pub all_aborted : Bool
  pub file_lists : List File

unfoldable pub count : (index : ℕ) → Result Failure String → Tally → Tally
count i (err e) t = record t {
  failed_paths = suc t.failed_paths;
  storage_limit_error = if is_storage_limit e then true else t.storage_limit_error;
  all_aborted = if is_abort e.message then t.all_aborted else false;
}
count i (ok r) t = record t {
  success_ids = t.success_ids ++ r ∷ [];
  file_lists = set_uploaded i r t.file_lists;
  all_aborted = false;
}

-- The uploads with their indices, in the order of the list.
abbrev pub settlings :
    (upload : ℕ → Result Failure String) → List ℕ → List (ℕ × Result Failure String)
settlings upload [] = []
settlings upload (i ∷ is) = (i, upload i) ∷ settlings upload is

abbrev pub count_all : List (ℕ × Result Failure String) → Tally → Tally
count_all [] t = t
count_all ((i, r) ∷ rs) t = count_all rs (count i r t)

abbrev pub thrown : Message → Failure
thrown m = record { code = none; message = m }

abbrev pub storage_limit : Failure
storage_limit = record {
  code = some "USER_IMAGE_STORAGE_LIMIT_EXCEEDED";
  message = image_storage_limit;
}

-- The throws of the loop's end, as the `catch` passes them on.
unfoldable pub conclude : List String → Tally → Result Failure (List String)
conclude image_ids t =
    if t.failed_paths == 0
    then ok (image_ids ++ t.success_ids)
    else if t.all_aborted
    then err (thrown request_abort)
    else if t.storage_limit_error
    then err storage_limit
    else err (thrown (images_fail t.failed_paths))

-- The result, the files as the caller sees them, the module's state and the texts of modal windows.
pub record Uploaded : Type 0 where
  pub result : Result Failure (List String)
  pub files : List File
  pub client : Client
  pub modals : List Message

-- `catch`
unfoldable pub modals_of : Client → Result Failure (List String) → List Message
modals_of c (ok ids) = []
modals_of c (err e) =
    if is_storage_limit e || (is_abort e.message || (c.page_destroyed || c.page_hidden))
    then []
    else e.message ∷ []

abbrev pub upload_begin : Client → Client
upload_begin c = show_loading c

-- The id of the parent, if there is one.
abbrev pub pid_ids : Option String → List String
pid_ids none = []
pid_ids (some i) = if is_truthy (some i) then i ∷ [] else []

-- What is left to do when all uploads are settled.
unfoldable pub upload_settled :
    List File → (pid : Option String) → (upload : ℕ → Result Failure String) → Client → Uploaded
unfolding conclude modals_of
upload_settled fs pid upload c =
    let t = count_all (settlings upload (targets 0 fs)) (record {
      success_ids = [];
      failed_paths = 0;
      storage_limit_error = false;
      all_aborted = true;
      file_lists = fs;
    }) in
    let result = conclude (pid_ids pid ++ existing fs) t in
    record {
      result = result;
      files = t.file_lists;
      client = hide_loading c;
      modals = modals_of c result;
    }
