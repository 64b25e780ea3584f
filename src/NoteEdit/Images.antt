-- ===== src/NoteEdit/Images.antt =====
-- NoteEdit.ts: the images after a submission, and what is left for the next one.
use Prim.Native.String.{String}
use pathmemos.Base.{
  ℕ, suc, ◌≡◌, refl, sym, ◌∙◌, ap, inl, inr, Bool, true, false, none, some, List, [], ◌∷◌, ◌++◌,
  append-nil, Result, ok, err, length, drop, arith, if◌then◌else◌, Bool-cases,
}
use pathmemos.Http.Toast.{Client}
use pathmemos.Http.Upload.{Failure}
use pathmemos.Http.Upload.Batch.{
  File, kind_uploaded, is_waiting, ids_of, targets, existing, settlings, upload_settled,
}
use pathmemos.Http.Upload.Verdict.{
  ids_stored, failures, mark, marked, verdict, upload_settled-verdict,
}
use pathmemos.NoteEdit.{
  has_changes, existing_uploaded_ids, with_new_ids, not_deleted, Submitted, submit_images,
}

-- An image with the id of its own upload.
abbrev pub own : Result Failure String → File → File
own (ok r) f = record f { kind = kind_uploaded; id = some r; uploaded_id = some r }
own (err e) f = f

abbrev pub owned : (index : ℕ) → (upload : ℕ → Result Failure String) → List File → List File
owned i upload [] = []
owned i upload (f ∷ fs) = (if is_waiting f then own (upload i) f else f) ∷ owned (suc i) upload fs

mark-is_waiting : (x : Result Failure String) (f : File) → is_waiting (mark x f) ≡ is_waiting f
mark-is_waiting (ok r) f = refl
mark-is_waiting (err e) f = refl

with_new_ids-waiting :
    (ids : List String) (r : String) (f : File) (fs : List File)
    → is_waiting f ≡ true
    → with_new_ids (r ∷ ids) (mark (ok r) f ∷ fs) ≡ own (ok r) f ∷ with_new_ids ids fs
with_new_ids-waiting ids r f fs w = ground (arith, w)

with_new_ids-kept :
    (ids : List String) (f : File) (fs : List File)
    → is_waiting f ≡ false
    → with_new_ids ids (f ∷ fs) ≡ f ∷ with_new_ids ids fs
with_new_ids-kept ids f fs w = ground (arith, w)

module _ (upload : ℕ → Result Failure String) where
  abbrev TakesIds : List File → Type 0
  TakesIds fs =
      (i : ℕ)
      → failures (settlings upload (targets i fs)) ≡ []
      → with_new_ids (ids_stored (settlings upload (targets i fs))) (marked i upload fs)
        ≡ owned i upload fs

  TakesIds-result :
      (x : Result Failure String) (i : ℕ) (f : File) (fs : List File)
      → is_waiting f ≡ true
      → TakesIds fs
      → let rs = (i, x) ∷ settlings upload (targets (suc i) fs) in
        failures rs ≡ []
        → with_new_ids (ids_stored rs) (mark x f ∷ marked (suc i) upload fs)
          ≡ own x f ∷ owned (suc i) upload fs
  TakesIds-result (ok r) i f fs w rest h =
      with_new_ids-waiting (ids_stored (settlings upload (targets (suc i) fs))) r f
        (marked (suc i) upload fs) w
      ∙ ap (λ l. own (ok r) f ∷ l) (rest (suc i) h)
  TakesIds-result (err e) i f fs w rest h = ground arith

  TakesIds-cons :
      (waiting : Bool) (i : ℕ) (f : File) (fs : List File)
      → is_waiting f ≡ waiting
      → TakesIds fs
      → let is = targets (suc i) fs in
        let rs = settlings upload (if waiting then i ∷ is else is) in
        failures rs ≡ []
        → with_new_ids
            (ids_stored rs)
            ((if waiting then mark (upload i) f else f) ∷ marked (suc i) upload fs)
          ≡ (if waiting then own (upload i) f else f) ∷ owned (suc i) upload fs
  TakesIds-cons true i f fs w rest h = TakesIds-result (upload i) i f fs w rest h
  TakesIds-cons false i f fs w rest h =
      with_new_ids-kept (ids_stored (settlings upload (targets (suc i) fs))) f
        (marked (suc i) upload fs) w
      ∙ ap (λ l. f ∷ l) (rest (suc i) h)

  with_new_ids-marked : (fs : List File) → TakesIds fs
  with_new_ids-marked [] i h = refl
  with_new_ids-marked (f ∷ fs) i h =
      TakesIds-cons (is_waiting f) i f fs refl (with_new_ids-marked fs) h

ids_of-mark :
    (waiting : Bool) (x : Result Failure String) (f : File)
    → ids_of (if waiting then mark x f else f) ≡ ids_of f
ids_of-mark true (ok r) f = refl
ids_of-mark true (err e) f = refl
ids_of-mark false x f = refl

ids_of-waiting : (f : File) → is_waiting f ≡ true → ids_of f ≡ []
ids_of-waiting f w = ground (arith, w)

existing-eq : (fs : List File) → existing fs ≡ existing_uploaded_ids fs
existing-eq [] = refl
existing-eq (f ∷ fs) = elim (Bool-cases (is_waiting f)) [
  | inl w ↦
      let ih = existing-eq fs in
      let e = ids_of-waiting f w in
      ap (λ b. if b then existing fs else ids_of f ++ existing fs) w
      ∙ ih
      ∙ sym (ap (λ l. l ++ existing_uploaded_ids fs) e)
  | inr w ↦
      ap (λ b. if b then existing fs else ids_of f ++ existing fs) w
      ∙ ap (λ l. ids_of f ++ l) (existing-eq fs)
]

existing_uploaded_ids-marked :
    (upload : ℕ → Result Failure String) (i : ℕ) (fs : List File)
    → existing_uploaded_ids (marked i upload fs) ≡ existing_uploaded_ids fs
existing_uploaded_ids-marked upload i [] = refl
existing_uploaded_ids-marked upload i (f ∷ fs) =
    let ih = existing_uploaded_ids-marked upload (suc i) fs in
    let e = ids_of-mark (is_waiting f) (upload i) f in
    ap (λ l. l ++ existing_uploaded_ids (marked (suc i) upload fs)) e ∙ ap (λ l. ids_of f ++ l) ih

-- Nothing to be uploaded and nothing to be deleted.
pub targets-unchanged : (i : ℕ) (fs : List File) → has_changes fs ≡ false → targets i fs ≡ []
targets-unchanged i [] h = refl
targets-unchanged i (f ∷ fs) h =
    let ih = targets-unchanged (suc i) fs (ground (arith, h)) in ground (arith, h, ih)

owned-unchanged :
    (upload : ℕ → Result Failure String) (i : ℕ) (fs : List File)
    → has_changes fs ≡ false
    → owned i upload fs ≡ fs
owned-unchanged upload i [] h = refl
owned-unchanged upload i (f ∷ fs) h =
    let ih = owned-unchanged upload (suc i) fs (ground (arith, h)) in ground (arith, h, ih)

not_deleted-unchanged : (fs : List File) → has_changes fs ≡ false → not_deleted fs ≡ fs
not_deleted-unchanged [] h = refl
not_deleted-unchanged (f ∷ fs) h =
    let ih = not_deleted-unchanged fs (ground (arith, h)) in ground (arith, h, ih)

drop-length : (xs ys : List String) → drop (length xs) (xs ++ ys) ≡ ys
drop-length [] ys = refl
drop-length (x ∷ xs) ys = drop-length xs ys

submit-unchanged :
    (images : List File) (upload : ℕ → Result Failure String) (c : Client)
    → has_changes images ≡ false
    → submit_images images upload c
      ≡ record { image_ids = ok (existing_uploaded_ids images); images = images; client = c }
unfolding submit_images
submit-unchanged images upload c h = ground (arith, h)

submit-ok :
    (images : List File) (upload : ℕ → Result Failure String) (c : Client) (ids : List String)
    → let u = upload_settled images none upload c in
      has_changes images ≡ true
      → u.result ≡ ok ids
      → submit_images images upload c ≡ record {
        image_ids = ok ids;
        images =
            not_deleted (with_new_ids (drop (length (existing_uploaded_ids u.files)) ids) u.files);
        client = u.client;
      }
unfolding submit_images
submit-ok images upload c ids h r = ground (arith, h, r)

-- The new ids are those behind the ones that the files had.
new_ids-marked :
    (images : List File) (upload : ℕ → Result Failure String) (stored : List String)
    → let u = marked 0 upload images in
      drop (length (existing_uploaded_ids u)) (existing_uploaded_ids images ++ stored) ≡ stored
new_ids-marked images upload stored =
    ap (λ l. drop (length l) (existing_uploaded_ids images ++ stored))
      (existing_uploaded_ids-marked upload 0 images)
    ∙ drop-length (existing_uploaded_ids images) stored

abbrev Own : List File → (ℕ → Result Failure String) → Submitted → Type 0
Own images upload s =
    let rs = settlings upload (targets 0 images) in
    (s.image_ids ≡ ok (existing_uploaded_ids images ++ ids_stored rs))
    × (s.images ≡ not_deleted (owned 0 upload images))

verdict-stored :
    (before stored : List String) (es : List Failure)
    → es ≡ []
    → verdict before stored es ≡ ok (before ++ stored)
verdict-stored before stored [] h = refl
verdict-stored before stored (e ∷ es) h = ground arith

Own-changed :
    (images : List File) (upload : ℕ → Result Failure String) (c : Client)
    → failures (settlings upload (targets 0 images)) ≡ []
    → has_changes images ≡ true
    → Own images upload (submit_images images upload c)
Own-changed images upload c h changes =
    let rs = settlings upload (targets 0 images) in
    let (result, files, _, _) = upload_settled-verdict images none upload c in
    let ids = existing_uploaded_ids images ++ ids_stored rs in
    let is_ok =
      result
      ∙ verdict-stored (existing images) (ids_stored rs) (failures rs) h
      ∙ ap (λ l. ok (l ++ ids_stored rs)) (existing-eq images) in
    let e = submit-ok images upload c ids changes is_ok in
    (
      ap (λ s. s.image_ids) e,
      ap (λ s. s.images) e
          ∙ ap (λ fs. not_deleted (with_new_ids (drop (length (existing_uploaded_ids fs)) ids) fs))
              files
          ∙ ap (λ l. not_deleted (with_new_ids l (marked 0 upload images)))
              (new_ids-marked images upload (ids_stored rs))
          ∙ ap not_deleted (with_new_ids-marked upload images 0 h),
    )

Own-unchanged :
    (images : List File) (upload : ℕ → Result Failure String) (c : Client)
    → has_changes images ≡ false
    → Own images upload (submit_images images upload c)
Own-unchanged images upload c h =
    let e = submit-unchanged images upload c h in
    (
      ap (λ s. s.image_ids) e
          ∙ ap ok (sym (append-nil (existing_uploaded_ids images)))
          ∙ ap (λ is. ok (existing_uploaded_ids images ++ ids_stored (settlings upload is)))
              (sym (targets-unchanged 0 images h)),
      ap (λ s. s.images) e
          ∙ sym (not_deleted-unchanged images h)
          ∙ ap not_deleted (sym (owned-unchanged upload 0 images h)),
    )

-- If no upload fails, each new image ends up with the id that its own upload gave, in its place, the
-- images that were already stored are as they were and the deleted ones are gone; the ids sent with
-- the record are those of the old images, then those of the new ones, each in the order of the
-- images.
pub submit_images_own :
    (images : List File) (upload : ℕ → Result Failure String) (c : Client)
    → let rs = settlings upload (targets 0 images) in
      failures rs ≡ []
      → let s = submit_images images upload c in
        (s.image_ids ≡ ok (existing_uploaded_ids images ++ ids_stored rs))
        × (s.images ≡ not_deleted (owned 0 upload images))
submit_images_own images upload c h = elim (Bool-cases (has_changes images)) [
  | inl changes ↦ Own-changed images upload c h changes
  | inr same ↦ Own-unchanged images upload c same
]
