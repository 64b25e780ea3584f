-- ===== src/Decoder/Tests.antt =====
-- Runs of textDecoder.ts on concrete bytes, and instances of its theorems.
use pathmemos.Base.{ℕ, ◌≡◌, refl, true, false, List, [], ◌∷◌, ◌++◌, arith, ok, err, ◌>>=◌}
use pathmemos.Decoder.{
  Decoder, DecodeError, decode, loop, scan, step, step_2, step_3, step_4, finish, is_invalid,
  replace, from_code_point, is_continuation_byte, close,
}
use pathmemos.Decoder.Encode.{decode-encode}
use pathmemos.Decoder.Stream.{decode-append}
use pathmemos.Decoder.Fatal.{decode-lenient_total, decode-strict}

runs : Unit {0}
unfolding decode loop scan step step_2 step_3 step_4 finish is_invalid replace from_code_point
    is_continuation_byte close
runs = tt

abbrev lenient : Decoder
lenient = record { pending = []; fatal = false }

abbrev strict : Decoder
strict = record { pending = []; fatal = true }

-- "中" in two chunks, a stray continuation byte, an overlong form and a truncated input.
decode_tests :
    (decode lenient (0xe4 ∷ 0xb8 ∷ []) true
      ≡ ok ([], record lenient { pending = 0xe4 ∷ 0xb8 ∷ [] }))
    × (decode (record lenient { pending = 0xe4 ∷ 0xb8 ∷ [] }) (0xad ∷ 0x41 ∷ []) true
        ≡ ok (0x4e2d ∷ 0x41 ∷ [], lenient))
    × (decode lenient (0x80 ∷ 0x41 ∷ []) true ≡ ok (0xfffd ∷ 0x41 ∷ [], lenient))
    × (decode strict (0xc0 ∷ 0x80 ∷ []) true ≡ err DecodeError.invalid_code_point)
    × (decode lenient (0xf0 ∷ 0x9f ∷ 0x98 ∷ 0x80 ∷ []) false ≡ ok (0xd83d ∷ 0xde00 ∷ [], lenient))
    × (decode lenient (0x41 ∷ 0xe4 ∷ []) false ≡ ok (0x41 ∷ 0xfffd ∷ [], lenient))
unfolding runs
decode_tests = (refl, refl, refl, refl, refl, refl)

decode-append_example : decode lenient (0xe4 ∷ 0xb8 ∷ 0xad ∷ []) false ≡ (
    decode lenient (0xe4 ∷ 0xb8 ∷ []) true
    >>= (λ (out, d'). decode d' (0xad ∷ []) false >>= (λ (out', d''). ok (out ++ out', d''))))
decode-append_example = decode-append lenient (0xe4 ∷ 0xb8 ∷ []) (0xad ∷ []) false

decode-encode_example :
    decode strict (0x41 ∷ 0xe4 ∷ 0xb8 ∷ 0xad ∷ 0xf0 ∷ 0x9f ∷ 0x98 ∷ 0x80 ∷ []) true
    ≡ ok (0x41 ∷ 0x4e2d ∷ 0xd83d ∷ 0xde00 ∷ [], strict)
decode-encode_example = decode-encode true true (0x41 ∷ 0x4e2d ∷ 0x1f600 ∷ []) (omega arith)

decode-lenient_total_example : (r : List ℕ × Decoder) × (decode lenient (0xff ∷ []) true ≡ ok r)
decode-lenient_total_example = decode-lenient_total [] (0xff ∷ []) true

decode-strict_example : decode lenient (0x41 ∷ []) true ≡ ok (0x41 ∷ [], lenient)
unfolding runs
decode-strict_example = decode-strict [] (0x41 ∷ []) (0x41 ∷ []) true strict refl
