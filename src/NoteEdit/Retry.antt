-- ===== src/NoteEdit/Retry.antt =====
-- NoteEdit.ts: what a submission whose upload failed leaves for the next one.
use Prim.Native.String.{String}
use pathmemos.Base.{
  ℕ, suc, ◌≡◌, Bool, true, not, ◌&&◌, some, List, [], ◌∷◌, Result, ok, err, is_some, if◌then◌else◌,
}
use pathmemos.Http.Upload.{Failure}
use pathmemos.Http.Upload.Single.{is_truthy}
use pathmemos.Http.Upload.Batch.{File, kind_uploaded, is_waiting, targets, settlings}
use pathmemos.Http.Upload.Verdict.{ids_stored, marked, verdict}
use pathmemos.NoteEdit.{patched}

-- An image that the upload stored counts as uploaded, with its id.
abbrev pub renew : Result Failure String → File → File
renew (ok r) f = record f { kind = kind_uploaded; id = some r }
renew (err e) f = f

abbrev pub renewed : (index : ℕ) → (upload : ℕ → Result Failure String) → List File → List File
renewed i upload [] = []
renewed i upload (f ∷ fs) =
    (if is_waiting f then renew (upload i) f else f) ∷ renewed (suc i) upload fs

abbrev pub failed_at : List (ℕ × Result Failure String) → List ℕ
failed_at [] = []
failed_at ((i, ok r) ∷ rs) = failed_at rs
failed_at ((i, err e) ∷ rs) = i ∷ failed_at rs

-- No image that waits has an id of an upload yet.
abbrev pub is_fresh : List File → Bool
is_fresh [] = true
is_fresh (f ∷ fs) = not (is_waiting f && is_some f.uploaded_id) && is_fresh fs

abbrev pub all_truthy : List String → Bool
all_truthy [] = true
all_truthy (s ∷ ss) = is_truthy (some s) && all_truthy ss

module _ (upload : ℕ → Result Failure String) where
  abbrev results : (index : ℕ) → List File → List (ℕ × Result Failure String)
  results i fs = settlings upload (targets i fs)

  Patches : List File → Type 0
  Patches fs =
      (i : ℕ)
      → is_fresh fs ≡ true
      → all_truthy (ids_stored (results i fs)) ≡ true
      → patched fs (marked i upload fs) ≡ renewed i upload fs

-- What a failed upload throws.
abbrev pub thrown_by : List String → Failure → List Failure → Failure
thrown_by stored e es = elim (verdict [] stored (e ∷ es)) [ ok ids ↦ e | err e' ↦ e' ]
