-- ===== src/Http/Upload/Single.antt =====
-- http.ts: `_compressImage`, `_uploadWithGuard` and `_uploadOne`.
use Prim.Native.String.{String}
use text.Mathlib.Text.{◌==◌ as str_eq}
use pathmemos.Base.{
  ℕ, ◌*◌, Bool, false, not, Option, none, some, List, [], ◌∷◌, ltb, leb, if◌then◌else◌, Result, ok,
  err, ◌>>=◌,
}
use pathmemos.Http.Upload.{
  Message, Failure, said, upload_fail, parse_fail, request_abort, network_fail, image_size_limit,
  compress_fail, read_fail,
}

-- A file of the answer, and the answer's fields as far as it has them.
pub record Stored : Type 0 where
  pub file_id : Option String
  pub url : Option String

pub record Body : Type 0 where
  pub code : Option String
  pub biz_code : Option String
  pub old_biz_code : Option String
  pub message : Option String
  pub msg : Option String
  pub files : List Stored

pub data Signal : Type 0 where
  succeeds : (status : ℕ) → (parsed : Option Body) → Signal
  fails : (err_msg : Option String) → Signal
  cancels : Signal

abbrev pub max_file_size : ℕ
max_file_size = 10 * 1024 * 1024

abbrev pub fails_with : {A : Type 0} → Message → Result Failure A
fails_with m = err (record { code = none; message = m })

-- A text that is there and is not empty.
abbrev pub is_truthy : Option String → Bool
is_truthy none = false
is_truthy (some s) = not (str_eq s "")

-- `||`
abbrev pub or_text : Option String → Option String → Option String
or_text a b = if is_truthy a then a else b

abbrev pub said_or : Option String → Message → Message
said_or none m = m
said_or (some s) m = if str_eq s "" then m else said s

-- The quality by size.
unfoldable pub quality : (size : ℕ) → ℕ
quality size = if ltb (1024 * 1024) size then 50 else if ltb (200 * 1024) size then 65 else 80

-- `_compressImage`: the size of the file, the compressing at a quality, and the size of what comes out,
-- each as far as the platform answers.
unfoldable pub compress_image :
    (info : Option ℕ)
    → (compress : ℕ → Option String) → (temp_info : Option ℕ) → Result Failure String
unfolding quality
compress_image none compress temp_info = fails_with read_fail
compress_image (some size) compress temp_info =
    if ltb max_file_size size then fails_with image_size_limit else elim (compress (quality size)) [
      | none ↦ fails_with compress_fail
      | some temp ↦ elim temp_info [
        | none ↦ ok temp
        | some new_size ↦
            if ltb max_file_size new_size then fails_with image_size_limit else ok temp
      ]
    ]

has_code : String → Option String → Bool
has_code s none = false
has_code s (some t) = str_eq t s

first_file : List Stored → Result Failure (String × String)
first_file [] = fails_with upload_fail
first_file (f ∷ fs) = elim f.file_id [
  | none ↦ fails_with upload_fail
  | some i ↦
      if str_eq i "" then fails_with upload_fail else ok (i, elim f.url [ none ↦ "" | some u ↦ u ])
]

parsed_reply : (status : ℕ) → Body → Result Failure (String × String)
unfolding has_code first_file
parsed_reply status b =
    let refusal : Failure = record {
      code = or_text (or_text b.biz_code b.old_biz_code) b.code;
      message = said_or (or_text b.message b.msg) upload_fail;
    } in
    if leb 400 status
    then err refusal
    else if has_code "0000" b.code
    then first_file b.files
    else err refusal

-- How the signal that settles `_uploadWithGuard` settles it, a missing status being 0.
unfoldable pub upload_reply : Signal → Result Failure (String × String)
unfolding parsed_reply
upload_reply (succeeds status none) =
    if leb 400 status then fails_with upload_fail else fails_with parse_fail
upload_reply (succeeds status (some b)) = parsed_reply status b
upload_reply (fails err_msg) = fails_with (said_or err_msg network_fail)
upload_reply cancels = fails_with request_abort

-- `_uploadOne`
unfoldable pub upload_one : Result Failure String → (path : String → Signal) → Result Failure String
unfolding upload_reply
upload_one compressed answers = do
  file_path ← compressed
  stored ← upload_reply (answers file_path)
  ok (stored.0)
