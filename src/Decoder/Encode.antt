-- ===== src/Decoder/Encode.antt =====
-- textDecoder.ts against the definition of UTF-8: what an encoder writes is read back.
use pathmemos.Base.{
  ℕ, suc, ◌+◌, ◌-◌, ◌*◌, ◌/◌, ◌%◌, ◌≤◌, ◌<◌, ◌≡◌, refl, Bool-cases, ◌∙◌, ap, ◌⊎◌, inl, inr, Bool,
  true, false, ◌&&◌, not, List, [], ◌∷◌, ◌++◌, arith, length, All, drop, ok, ◌>>=◌, ltb, ◌==◌,
  if◌then◌else◌, bit_and,
}
use pathmemos.Base.Bits.{
  bit_and_low_ten, bit_or_six, bit_or_three, bit_or_four, test_below, test_below_sound,
}
use pathmemos.Decoder.{
  Decoder, emit, is_continuation_byte, from_code_point, is_invalid, finish, step_2, step_3, step_4,
  step, after, scan, close, decode,
}
use pathmemos.Decoder.Scan.{scan-nil, scan-cons}
use pathmemos.Decoder.Stream.{decode-scan}

-- A Unicode scalar value: a code point that is no surrogate.
abbrev pub IsScalar : ℕ → Type 0
IsScalar c = (c < 0x110000) × ((c < 0xd800) ⊎ (0xdfff < c))

-- UTF-8 as the standard defines it, by division.
abbrev pub encode : ℕ → List ℕ
encode c =
    if ltb c 128
    then c ∷ []
    else if ltb c 2048
    then (192 + c / 64) ∷ (128 + c % 64) ∷ []
    else if ltb c 65536
    then (224 + c / 4096) ∷ (128 + c / 64 % 64) ∷ (128 + c % 64) ∷ []
    else (240 + c / 262144) ∷ (128 + c / 4096 % 64) ∷ (128 + c / 64 % 64) ∷ (128 + c % 64) ∷ []

-- UTF-16 likewise.
abbrev pub utf16 : ℕ → List ℕ
utf16 c =
    if ltb c 65536
    then c ∷ []
    else (0xd800 + (c - 65536) / 1024) ∷ (0xdc00 + (c - 65536) % 1024) ∷ []

abbrev pub concat_map : (ℕ → List ℕ) → List ℕ → List ℕ
concat_map f [] = []
concat_map f (c ∷ cs) = f c ++ concat_map f cs

-- The masks, by tables.
continuation_table :
    test_below 64 (λ y. is_continuation_byte (128 + y) && (bit_and (128 + y) 0x3f == y)) ≡ true
unfolding test_below is_continuation_byte
continuation_table = refl

lead_1_table : test_below 128 (λ x. bit_and x 0x80 == 0) ≡ true
unfolding test_below
lead_1_table = refl

lead_2_table :
    test_below 32 (λ x.
      not (bit_and (192 + x) 0x80 == 0)
      && (bit_and (192 + x) 0xe0 == 0xc0)
      && (bit_and (192 + x) 0x1f == x))
    ≡ true
unfolding test_below
lead_2_table = refl

lead_3_table :
    test_below 16 (λ x.
      not (bit_and (224 + x) 0x80 == 0)
      && not (bit_and (224 + x) 0xe0 == 0xc0)
      && (bit_and (224 + x) 0xf0 == 0xe0)
      && (bit_and (224 + x) 0x0f == x))
    ≡ true
unfolding test_below
lead_3_table = refl

lead_4_table :
    test_below 8 (λ x.
      not (bit_and (240 + x) 0x80 == 0)
      && not (bit_and (240 + x) 0xe0 == 0xc0)
      && not (bit_and (240 + x) 0xf0 == 0xe0)
      && (bit_and (240 + x) 0xf8 == 0xf0)
      && (bit_and (240 + x) 0x07 == x))
    ≡ true
unfolding test_below
lead_4_table = refl

continuation :
    (y : ℕ) → y < 64 → (is_continuation_byte (128 + y) ≡ true) × (bit_and (128 + y) 0x3f ≡ y)
continuation y h = ground (arith, test_below_sound 64 _ continuation_table y h)

step-encode_1 :
    (fatal : Bool) (c : ℕ) (more : List ℕ) → c < 128 → step fatal c more ≡ emit (c ∷ []) 1
unfolding step finish is_invalid from_code_point
step-encode_1 fatal c more h = ground (arith, test_below_sound 128 _ lead_1_table c h)

step-encode_2 :
    (fatal : Bool) (x y : ℕ) (more : List ℕ)
    → x < 32
    → y < 64
    → 128 ≤ x * 64 + y
    → step fatal (192 + x) ((128 + y) ∷ more) ≡ emit ((x * 64 + y) ∷ []) 2
unfolding step step_2 finish is_invalid from_code_point
step-encode_2 fatal x y more hx hy h =
    ground (arith, test_below_sound 32 _ lead_2_table x hx, continuation y hy, bit_or_six x y hy)

step-encode_3 :
    (fatal : Bool) (x y z : ℕ) (more : List ℕ)
    → x < 16
    → y < 64
    → z < 64
    → 2048 ≤ x * 4096 + y * 64 + z
    → (x * 4096 + y * 64 + z < 0xd800) ⊎ (0xdfff < x * 4096 + y * 64 + z)
    → step fatal (224 + x) ((128 + y) ∷ (128 + z) ∷ more) ≡ emit ((x * 4096 + y * 64 + z) ∷ []) 3
unfolding step step_3 finish is_invalid from_code_point
step-encode_3 fatal x y z more hx hy hz h s = ground (
  arith,
  test_below_sound 16 _ lead_3_table x hx,
  continuation y hy,
  continuation z hz,
  bit_or_three x y z hy hz,
)

abbrev value_4 : ℕ → ℕ → ℕ → ℕ → ℕ
value_4 x y z w = x * 262144 + y * 4096 + z * 64 + w

step-encode_4 :
    (fatal : Bool) (x y z w : ℕ) (more : List ℕ)
    → x < 8
    → y < 64
    → z < 64
    → w < 64
    → 65536 ≤ value_4 x y z w
    → value_4 x y z w < 0x110000
    → step fatal (240 + x) ((128 + y) ∷ (128 + z) ∷ (128 + w) ∷ more)
      ≡ emit
          ((0xd800 + (value_4 x y z w - 65536) / 1024)
            ∷ (0xdc00 + (value_4 x y z w - 65536) % 1024)
            ∷ [])
          4
unfolding step step_4 finish is_invalid from_code_point
step-encode_4 fatal x y z w more hx hy hz hw h s = ground (
  arith,
  test_below_sound 8 _ lead_4_table x hx,
  continuation y hy,
  continuation z hz,
  continuation w hw,
  bit_or_four x y z w hy hz hw,
  bit_and_low_ten (value_4 x y z w - 65536),
)

module _ (fatal : Bool) (c : ℕ) (more : List ℕ) where
  abbrev Reads : List ℕ → List ℕ → Type 0
  Reads bytes units =
      scan fatal (bytes ++ more) ≡ (scan fatal more >>= (λ (out, left). ok (units ++ out, left)))

  -- A round that emits all of the first bytes.
  reads :
      (b1 : ℕ) (rest units : List ℕ)
      → drop (length rest) (rest ++ more) ≡ more
      → step fatal b1 (rest ++ more) ≡ emit units (suc (length rest))
      → Reads (b1 ∷ rest) units
  reads b1 rest units d e =
      scan-cons fatal b1 (rest ++ more)
      ∙ ap (λ s. after s b1 (rest ++ more) (scan fatal)) e
      ∙ ap (λ bytes. scan fatal bytes >>= (λ (out, left). ok (units ++ out, left))) d

  reads_1 : c < 128 → Reads (c ∷ []) (c ∷ [])
  reads_1 h = reads c [] (c ∷ []) refl (step-encode_1 fatal c more h)

  reads_2 : c < 2048 → 128 ≤ c → Reads ((192 + c / 64) ∷ (128 + c % 64) ∷ []) (c ∷ [])
  reads_2 h l = reads _ ((128 + c % 64) ∷ []) (c ∷ []) refl (
      step-encode_2 fatal (c / 64) (c % 64) more (omega arith) (omega arith) (omega arith)
      ∙ ap (λ (v : ℕ). emit (v ∷ []) 2) (omega arith))

  reads_3 :
      c < 65536
      → 2048 ≤ c
      → (c < 0xd800) ⊎ (0xdfff < c)
      → Reads ((224 + c / 4096) ∷ (128 + c / 64 % 64) ∷ (128 + c % 64) ∷ []) (c ∷ [])
  reads_3 h l s = reads _ ((128 + c / 64 % 64) ∷ (128 + c % 64) ∷ []) (c ∷ []) refl (
      step-encode_3 fatal (c / 4096) (c / 64 % 64) (c % 64) more (omega arith) (omega arith)
        (omega arith) (omega arith) (ground arith)
      ∙ ap (λ (v : ℕ). emit (v ∷ []) 3) (omega arith))

  reads_4 :
      65536 ≤ c
      → c < 0x110000
      → Reads
          ((240 + c / 262144) ∷ (128 + c / 4096 % 64) ∷ (128 + c / 64 % 64) ∷ (128 + c % 64) ∷ [])
          ((0xd800 + (c - 65536) / 1024) ∷ (0xdc00 + (c - 65536) % 1024) ∷ [])
  reads_4 l h = reads _ ((128 + c / 4096 % 64) ∷ (128 + c / 64 % 64) ∷ (128 + c % 64) ∷ []) _ refl (
      step-encode_4 fatal (c / 262144) (c / 4096 % 64) (c / 64 % 64) (c % 64) more (omega arith)
        (omega arith) (omega arith) (omega arith) (omega arith) (omega arith)
      ∙ ap (λ (v : ℕ). emit ((0xd800 + (v - 65536) / 1024) ∷ (0xdc00 + (v - 65536) % 1024) ∷ []) 4)
          (omega arith))

  -- One scalar value, whatever follows it.
  reads-encode : IsScalar c → Reads (encode c) (utf16 c)
  reads-encode (h, s) = elim (Bool-cases (ltb c 128)) [
    | inl e ↦ let e' : ltb c 65536 ≡ true = ground arith in rw (e, e') (reads_1 (ground arith))
    | inr n ↦ elim (Bool-cases (ltb c 2048)) [
      | inl e ↦
          let e' : ltb c 65536 ≡ true = ground arith in
          rw (n, e, e') (reads_2 (ground arith) (ground arith))
      | inr n' ↦ elim (Bool-cases (ltb c 65536)) [
        | inl e ↦ rw (n, n', e) (reads_3 (ground arith) (ground arith) s)
        | inr n'' ↦ rw (n, n', n'') (reads_4 (ground arith) h)
      ]
    ]
  ]

scan-encode :
    (fatal : Bool) (cs : List ℕ)
    → All IsScalar cs
    → scan fatal (concat_map encode cs) ≡ ok (concat_map utf16 cs, [])
scan-encode fatal [] h = scan-nil fatal
scan-encode fatal (c ∷ cs) h =
    rw (reads-encode fatal c (concat_map encode cs) h.0, scan-encode fatal cs h.1)

-- A decoder with nothing pending reads the UTF-8 form of a text as its UTF-16 form, throws nothing
-- in either mode, and is left with nothing pending, whether or not more is to come.
pub decode-encode :
    (fatal stream : Bool) (cs : List ℕ)
    → All IsScalar cs
    → let d : Decoder = record { pending = []; fatal = fatal } in
      decode d (concat_map encode cs) stream ≡ ok (concat_map utf16 cs, d)
unfolding close
decode-encode fatal true cs h = rw (
  decode-scan (record { pending = []; fatal = fatal }) (concat_map encode cs) true,
  scan-encode fatal cs h,
)
decode-encode fatal false cs h = rw (
  decode-scan (record { pending = []; fatal = fatal }) (concat_map encode cs) false,
  scan-encode fatal cs h,
)
