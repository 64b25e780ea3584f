-- ===== src/Http/Upload.antt =====
-- http.ts: uploads of images. The error texts of i18n are constructors.
pub mod Single
pub mod Batch
pub mod Verdict
use Prim.Native.String.{String}
use text.Mathlib.Text.{◌==◌ as str_eq}
use pathmemos.Base.{
  ℕ, ◌*◌, Bool, true, false, not, Option, none, some, List, [], ◌∷◌, ltb, leb, ◌==◌, ◌||◌,
  if◌then◌else◌,
}

pub data Message : Type 0 where
  request_abort upload_fail parse_fail image_size_limit compress_fail read_fail : Message
  network_fail image_storage_limit : Message
  images_fail : (count : ℕ) → Message
  said : String → Message

pub record Failure : Type 0 where
  pub code : Option String
  pub message : Message

abbrev pub is_abort : Message → Bool
is_abort request_abort = true
is_abort (said s) = str_eq s "request:abort"
is_abort upload_fail = false
is_abort parse_fail = false
is_abort image_size_limit = false
is_abort compress_fail = false
is_abort read_fail = false
is_abort network_fail = false
is_abort image_storage_limit = false
is_abort (images_fail count) = false

abbrev pub is_storage_limit : Failure → Bool
is_storage_limit e = elim e.code [
  | none ↦ false
  | some code ↦ str_eq code "USER_IMAGE_STORAGE_LIMIT_EXCEEDED"
]
