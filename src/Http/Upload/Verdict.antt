-- ===== src/Http/Upload/Verdict.antt =====
-- http.ts: what `uploadFile` comes to, by the results of its uploads.
use Prim.Native.String.{String}
use pathmemos.Base.{
  ℕ, suc, ◌+◌, ◌≡◌, refl, sym, ◌∙◌, ap, subst, Bool, true, false, ◌&&◌, ◌||◌, Option, some, List,
  [], ◌∷◌, ◌++◌, append_assoc, append-nil, Result, ok, err, length, is_empty, arith, if◌then◌else◌,
}
use pathmemos.Http.Toast.{Client, hide_loading}
use pathmemos.Http.Upload.{Message, Failure, request_abort, images_fail, is_abort, is_storage_limit}
use pathmemos.Http.Upload.Batch.{
  File, is_waiting, targets, existing, set_uploaded, Tally, count, settlings, count_all, pid_ids,
  thrown, storage_limit, conclude, modals_of, upload_settled,
}

abbrev pub ids_stored : List (ℕ × Result Failure String) → List String
ids_stored [] = []
ids_stored ((i, ok r) ∷ rs) = r ∷ ids_stored rs
ids_stored ((i, err e) ∷ rs) = ids_stored rs

abbrev pub failures : List (ℕ × Result Failure String) → List Failure
failures [] = []
failures ((i, ok r) ∷ rs) = failures rs
failures ((i, err e) ∷ rs) = e ∷ failures rs

abbrev pub all_abort : List Failure → Bool
all_abort [] = true
all_abort (e ∷ es) = is_abort e.message && all_abort es

abbrev pub any_limit : List Failure → Bool
any_limit [] = false
any_limit (e ∷ es) = is_storage_limit e || any_limit es

-- By the ids stored and the failures.
abbrev pub verdict : List String → List String → List Failure → Result Failure (List String)
verdict before stored [] = ok (before ++ stored)
verdict before stored (e ∷ es) =
    if is_empty stored && all_abort (e ∷ es)
    then err (thrown request_abort)
    else if any_limit (e ∷ es)
    then err storage_limit
    else err (thrown (images_fail (length (e ∷ es))))

count_all-failed_paths :
    (rs : List (ℕ × Result Failure String)) (t : Tally)
    → (count_all rs t).failed_paths ≡ length (failures rs) + t.failed_paths
unfolding count
count_all-failed_paths [] t = omega arith
count_all-failed_paths ((i, ok r) ∷ rs) t = count_all-failed_paths rs (count i (ok r) t)
count_all-failed_paths ((i, err e) ∷ rs) t =
    let ih = count_all-failed_paths rs (count i (err e) t) in ground (arith, ih)

count_all-success_ids :
    (rs : List (ℕ × Result Failure String)) (t : Tally)
    → (count_all rs t).success_ids ≡ t.success_ids ++ ids_stored rs
unfolding count
count_all-success_ids [] t = sym (append-nil t.success_ids)
count_all-success_ids ((i, ok r) ∷ rs) t =
    count_all-success_ids rs (count i (ok r) t)
    ∙ append_assoc t.success_ids (r ∷ []) (ids_stored rs)
count_all-success_ids ((i, err e) ∷ rs) t = count_all-success_ids rs (count i (err e) t)

count_all-limit :
    (rs : List (ℕ × Result Failure String)) (t : Tally)
    → (count_all rs t).storage_limit_error ≡ (t.storage_limit_error || any_limit (failures rs))
unfolding count
count_all-limit [] t = ground arith
count_all-limit ((i, ok r) ∷ rs) t = count_all-limit rs (count i (ok r) t)
count_all-limit ((i, err e) ∷ rs) t =
    let ih = count_all-limit rs (count i (err e) t) in ground (arith, ih)

count_all-aborted :
    (rs : List (ℕ × Result Failure String)) (t : Tally)
    → (count_all rs t).all_aborted
      ≡ (t.all_aborted && (is_empty (ids_stored rs) && all_abort (failures rs)))
unfolding count
count_all-aborted [] t = ground arith
count_all-aborted ((i, ok r) ∷ rs) t =
    let ih = count_all-aborted rs (count i (ok r) t) in ground (arith, ih)
count_all-aborted ((i, err e) ∷ rs) t =
    let ih = count_all-aborted rs (count i (err e) t) in ground (arith, ih)

conclude-verdict :
    (before stored : List String) (es : List Failure) (t : Tally)
    → t.failed_paths ≡ length es
    → t.success_ids ≡ stored
    → t.storage_limit_error ≡ any_limit es
    → t.all_aborted ≡ (is_empty stored && all_abort es)
    → conclude before t ≡ verdict before stored es
unfolding conclude
conclude-verdict before stored [] t n s l a = ground (arith, n, s, l, a)
conclude-verdict before stored (e ∷ es) t n s l a = ground (arith, n, s, l, a)

-- A file with the id that its upload gave.
abbrev pub mark : Result Failure String → File → File
mark (ok r) f = record f { uploaded_id = some r }
mark (err e) f = f

abbrev pub marked : (index : ℕ) → (upload : ℕ → Result Failure String) → List File → List File
marked i upload [] = []
marked i upload (f ∷ fs) =
    (if is_waiting f then mark (upload i) f else f) ∷ marked (suc i) upload fs

set_uploaded-append :
    (before : List File) (r : String) (f : File) (fs : List File)
    → set_uploaded (length before) r (before ++ f ∷ fs)
      ≡ before ++ (record f { uploaded_id = some r }) ∷ fs
set_uploaded-append [] r f fs = refl
set_uploaded-append (b ∷ before) r f fs = ap (λ l. b ∷ l) (set_uploaded-append before r f fs)

length-snoc : (before : List File) (f : File) → length (before ++ f ∷ []) ≡ suc (length before)
length-snoc [] f = refl
length-snoc (b ∷ before) f = ap suc (length-snoc before f)

count-file_lists :
    (before : List File) (x : Result Failure String) (f : File) (fs : List File) (t : Tally)
    → t.file_lists ≡ before ++ f ∷ fs
    → (count (length before) x t).file_lists ≡ before ++ mark x f ∷ fs
unfolding count
count-file_lists before (ok r) f fs t h =
    ap (λ l. set_uploaded (length before) r l) h ∙ set_uploaded-append before r f fs
count-file_lists before (err e) f fs t h = h

-- The loop over the files `fs` leaves those before them as they are.
abbrev Marks : (upload : ℕ → Result Failure String) → List File → Type 0
Marks upload fs =
    (before : List File) (t : Tally)
    → t.file_lists ≡ before ++ fs
    → (count_all (settlings upload (targets (length before) fs)) t).file_lists
      ≡ before ++ marked (length before) upload fs

module _ (upload : ℕ → Result Failure String) where
  Marks-after :
      (fs : List File)
      → Marks upload fs
      → (before : List File) (g : File) (t : Tally) → t.file_lists ≡ before ++ g ∷ fs
      → (count_all (settlings upload (targets (suc (length before)) fs)) t).file_lists
        ≡ before ++ g ∷ marked (suc (length before)) upload fs
  Marks-after fs rest before g t h =
      subst
        (λ n.
          (count_all (settlings upload (targets n fs)) t).file_lists
          ≡ before ++ g ∷ marked n upload fs)
        (length-snoc before g)
        (rest (before ++ g ∷ []) t (h ∙ sym (append_assoc before (g ∷ []) fs))
          ∙ append_assoc before (g ∷ []) (marked (length (before ++ g ∷ [])) upload fs))

  Marks-cons :
      (f : File) (fs : List File)
      → Marks upload fs
      → (waiting : Bool) (before : List File) (t : Tally) → t.file_lists ≡ before ++ f ∷ fs
      → let i = length before in
        let is = targets (suc i) fs in
        (count_all (settlings upload (if waiting then i ∷ is else is)) t).file_lists
        ≡ before ++ (if waiting then mark (upload i) f else f) ∷ marked (suc i) upload fs
  Marks-cons f fs rest true before t h =
      let x = upload (length before) in
      Marks-after fs rest before (mark x f) (count (length before) x t)
        (count-file_lists before x f fs t h)
  Marks-cons f fs rest false before t h = Marks-after fs rest before f t h

  count_all-Marks : (fs : List File) → Marks upload fs
  count_all-Marks [] before t h = h
  count_all-Marks (f ∷ fs) before t h =
      Marks-cons f fs (count_all-Marks fs) (is_waiting f) before t h

-- The texts of windows, on a page that is there and shown.
abbrev pub texts : List String → List Failure → List Message
texts stored [] = []
texts stored (e ∷ es) =
    if is_empty stored && all_abort (e ∷ es)
    then []
    else if any_limit (e ∷ es)
    then []
    else images_fail (length (e ∷ es)) ∷ []

modals_of-verdict :
    (before stored : List String) (es : List Failure) (c : Client)
    → modals_of c (verdict before stored es)
      ≡ (if c.page_destroyed || c.page_hidden then [] else texts stored es)
unfolding modals_of
modals_of-verdict before stored [] c = ground arith
modals_of-verdict before stored (e ∷ es) c = ground arith

-- An upload of files gives the id of the parent, those of the files already there and those just
-- stored, each in the order of the files, just if no upload failed. Otherwise it throws an abort if
-- nothing was stored and all failures are aborts, else that the storage is full if a failure says
-- so, else the number of failures. In every case each file that was stored has its own id, so that a
-- retry can leave it out, the other files are as they were, the mask has one reason less, and a
-- modal window shows just the last of these errors, on a page that is there and shown.
pub upload_settled-verdict :
    (fs : List File) (pid : Option String) (upload : ℕ → Result Failure String) (c : Client)
    → let u = upload_settled fs pid upload c in
      let rs = settlings upload (targets 0 fs) in
      (u.result ≡ verdict (pid_ids pid ++ existing fs) (ids_stored rs) (failures rs))
      × (u.files ≡ marked 0 upload fs)
      × (u.client ≡ hide_loading c)
      × (u.modals
          ≡ (if c.page_destroyed || c.page_hidden then [] else texts (ids_stored rs) (failures rs)))
unfolding upload_settled
upload_settled-verdict fs pid upload c =
    let rs = settlings upload (targets 0 fs) in
    let t0 : Tally = record {
      success_ids = [];
      failed_paths = 0;
      storage_limit_error = false;
      all_aborted = true;
      file_lists = fs;
    } in
    let before = pid_ids pid ++ existing fs in
    let result =
      conclude-verdict before (ids_stored rs) (failures rs) (count_all rs t0)
        (let n = count_all-failed_paths rs t0 in omega arith) (count_all-success_ids rs t0)
        (count_all-limit rs t0) (count_all-aborted rs t0) in
    (
      result,
      count_all-Marks upload fs [] t0 refl,
      refl,
      ap (modals_of c) result ∙ modals_of-verdict before (ids_stored rs) (failures rs) c,
    )
