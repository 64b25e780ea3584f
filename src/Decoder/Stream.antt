-- ===== src/Decoder/Stream.antt =====
-- textDecoder.ts: input that arrives in chunks.
use pathmemos.Base.{
  ℕ, zero, suc, ◌≤◌, ◌≡◌, refl, sym, ◌∙◌, ap, ◌⊎◌, inl, inr, Bool, true, false, List, [], ◌∷◌, ◌++◌,
  append_assoc, arith, length, drop, length-drop, drop-append, Result, ok, err, ◌>>=◌, Bool-cases,
}
use pathmemos.Decoder.{
  Decoder, DecodeError, Step, wait, emit, throws, step_2, step_3, step_4, step, after, scan, close,
  decode,
}
use pathmemos.Decoder.Scan.{Advances, step-Advances, scan-nil, scan-cons}

-- A round that does not wait for bytes is the same with more bytes behind.
abbrev Settled : Step → Step → Type 0
Settled s s' = (s ≡ wait) ⊎ (s' ≡ s)

step_2-Settled :
    (fatal : Bool) (b1 : ℕ) (rest more : List ℕ)
    → Settled (step_2 fatal b1 rest) (step_2 fatal b1 (rest ++ more))
unfolding step_2
step_2-Settled fatal b1 [] more = inl refl
step_2-Settled fatal b1 (b2 ∷ rest) more = inr refl

step_3-Settled :
    (fatal : Bool) (b1 : ℕ) (rest more : List ℕ)
    → Settled (step_3 fatal b1 rest) (step_3 fatal b1 (rest ++ more))
unfolding step_3
step_3-Settled fatal b1 [] more = inl refl
step_3-Settled fatal b1 (b2 ∷ []) more = inl refl
step_3-Settled fatal b1 (b2 ∷ b3 ∷ rest) more = inr refl

step_4-Settled :
    (fatal : Bool) (b1 : ℕ) (rest more : List ℕ)
    → Settled (step_4 fatal b1 rest) (step_4 fatal b1 (rest ++ more))
unfolding step_4
step_4-Settled fatal b1 [] more = inl refl
step_4-Settled fatal b1 (b2 ∷ []) more = inl refl
step_4-Settled fatal b1 (b2 ∷ b3 ∷ []) more = inl refl
step_4-Settled fatal b1 (b2 ∷ b3 ∷ b4 ∷ rest) more = inr refl

step-Settled :
    (fatal : Bool) (b1 : ℕ) (rest more : List ℕ)
    → Settled (step fatal b1 rest) (step fatal b1 (rest ++ more))
unfolding step
step-Settled fatal b1 rest more = ground (
  arith,
  step_2-Settled fatal b1 rest more,
  step_3-Settled fatal b1 rest more,
  step_4-Settled fatal b1 rest more,
)

-- What a scan of a first part leaves, with what comes next.
abbrev resume : Bool → List ℕ → List ℕ × List ℕ → Result DecodeError (List ℕ × List ℕ)
resume fatal more (out, left) =
    scan fatal (left ++ more) >>= (λ (out', left'). ok (out ++ out', left'))

abbrev prepend : List ℕ → List ℕ × List ℕ → Result DecodeError (List ℕ × List ℕ)
prepend units (more, left) = ok (units ++ more, left)

prepend-nil : (m : Result DecodeError (List ℕ × List ℕ)) → (m >>= prepend []) ≡ m
prepend-nil (ok (out, left)) = refl
prepend-nil (err e) = refl

prepend-prepend :
    (m : Result DecodeError (List ℕ × List ℕ)) (units out : List ℕ)
    → ((m >>= prepend out) >>= prepend units) ≡ (m >>= prepend (units ++ out))
prepend-prepend (ok (more, left)) units out = rw append_assoc
prepend-prepend (err e) units out = refl

prepend-resume :
    (m : Result DecodeError (List ℕ × List ℕ)) (fatal : Bool) (units more : List ℕ)
    → ((m >>= resume fatal more) >>= prepend units) ≡ ((m >>= prepend units) >>= resume fatal more)
prepend-resume (ok (out, left)) fatal units more =
    prepend-prepend (scan fatal (left ++ more)) units out
prepend-resume (err e) fatal units more = refl

-- One round on the longer input, by the outcome `s` of the round on the shorter one.
round-append :
    (fatal : Bool) (b1 : ℕ) (rest more : List ℕ) (s s' : Step)
    → scan fatal (b1 ∷ (rest ++ more)) ≡ after s' b1 (rest ++ more) (scan fatal)
    → Settled s s'
    → Advances rest s
    → ((bytes : List ℕ)
        → length bytes ≤ length rest
        → scan fatal (bytes ++ more) ≡ (scan fatal bytes >>= resume fatal more))
    → scan fatal (b1 ∷ (rest ++ more)) ≡ (after s b1 rest (scan fatal) >>= resume fatal more)
round-append fatal b1 rest more wait s' e d a ih =
    sym (prepend-nil (scan fatal (b1 ∷ (rest ++ more))))
round-append fatal b1 rest more (emit units size) s' e (inl d) a ih = cc
round-append fatal b1 rest more (emit units size) s' e (inr d) a ih =
    e
    ∙ ap (λ s. after s b1 (rest ++ more) (scan fatal)) d
    ∙ ap (λ bytes. scan fatal bytes >>= prepend units) (drop-append size (b1 ∷ rest) more a.1)
    ∙ ap (λ m. m >>= prepend units)
        (ih (drop size (b1 ∷ rest)) (omega (arith, length-drop size (b1 ∷ rest))))
    ∙ prepend-resume (scan fatal (drop size (b1 ∷ rest))) fatal units more
round-append fatal b1 rest more (throws x) s' e (inl d) a ih = cc
round-append fatal b1 rest more (throws x) s' e (inr d) a ih =
    e ∙ ap (λ s. after s b1 (rest ++ more) (scan fatal)) d

scan-append_fuel :
    (k : ℕ) (fatal : Bool) (bytes more : List ℕ)
    → length bytes ≤ k
    → scan fatal (bytes ++ more) ≡ (scan fatal bytes >>= resume fatal more)
scan-append_fuel k fatal [] more h = rw scan-nil (sym (prepend-nil (scan fatal more)))
scan-append_fuel zero fatal (b1 ∷ rest) more h = absurd (omega arith)
scan-append_fuel (suc k) fatal (b1 ∷ rest) more h = rw (scan-cons fatal b1 rest) (
    round-append fatal b1 rest more (step fatal b1 rest) (step fatal b1 (rest ++ more))
      (scan-cons fatal b1 (rest ++ more)) (step-Settled fatal b1 rest more)
      (step-Advances fatal b1 rest) (λ bytes p. scan-append_fuel k fatal bytes more (omega arith)))

pub scan-append :
    (fatal : Bool) (bytes more : List ℕ)
    → scan fatal (bytes ++ more) ≡ (scan fatal bytes >>= resume fatal more)
scan-append fatal bytes more = scan-append_fuel (length bytes) fatal bytes more (omega arith)

-- The early return of `decode` is the general case on no bytes.
decode-scan_parts :
    (pending : List ℕ) (fatal : Bool) (bytes : List ℕ) (stream : Bool)
    → decode (record { pending = pending; fatal = fatal }) bytes stream ≡ (
        scan fatal (pending ++ bytes)
        >>= (λ (out, left). close stream (record { pending = pending; fatal = fatal }) out left))
unfolding decode close
decode-scan_parts [] fatal [] true = rw scan-nil
decode-scan_parts [] fatal [] false = rw scan-nil
decode-scan_parts [] fatal (b ∷ bytes) stream = refl
decode-scan_parts (b ∷ pending) fatal [] stream = refl
decode-scan_parts (b ∷ pending) fatal (c ∷ bytes) stream = refl

pub decode-scan :
    (d : Decoder) (bytes : List ℕ) (stream : Bool)
    → decode d bytes stream
      ≡ (scan d.fatal (d.pending ++ bytes) >>= (λ (out, left). close stream d out left))
decode-scan d bytes stream = decode-scan_parts d.pending d.fatal bytes stream

-- `close` reads the pending bytes of its decoder never, and what it has appended only to extend it.
close-append :
    (d : Decoder) (p out out' left : List ℕ) (stream : Bool)
    → close stream d (out ++ out') left
      ≡ (close stream (record d { pending = p }) out' left >>= (λ (o, d'). ok (out ++ o, d')))
unfolding close
close-append d p out out' left true = refl
close-append d p out out' [] false = refl
close-append d p out out' (b ∷ left) false = elim (Bool-cases d.fatal) [
  | inl e ↦ rw e
  | inr e ↦ rw e (ground (arith, append_assoc out out' (0xfffd ∷ [])))
]

scan-close-append :
    (d : Decoder) (m : Result DecodeError (List ℕ × List ℕ)) (more : List ℕ) (stream : Bool)
    → ((m >>= resume d.fatal more) >>= (λ (out, left). close stream d out left)) ≡ (
        (m >>= (λ (out, left). close true d out left))
        >>= (λ (out, d'). decode d' more stream >>= (λ (out', d''). ok (out ++ out', d''))))
unfolding close
scan-close-append d (err e) more stream = refl
scan-close-append d (ok (out, left)) more stream =
    rw (decode-scan (record d { pending = left }) more stream) (tail (scan d.fatal (left ++ more)))
  where
    tail :
        (m : Result DecodeError (List ℕ × List ℕ))
        → ((m >>= prepend out) >>= (λ (o, l). close stream d o l)) ≡ (
            (m >>= (λ (o, l). close stream (record d { pending = left }) o l))
            >>= (λ (out', d''). ok (out ++ out', d'')))
    tail (ok (o, l)) = close-append d left out o l stream
    tail (err e) = refl

-- Decoding a chunk in stream mode and then a second one gives what decoding both at once gives:
-- the same units, the same state and the same error, in either mode.
pub decode-append :
    (d : Decoder) (bytes more : List ℕ) (stream : Bool)
    → decode d (bytes ++ more) stream ≡ (
        decode d bytes true
        >>= (λ (out, d'). decode d' more stream >>= (λ (out', d''). ok (out ++ out', d''))))
decode-append d bytes more stream =
    rw (decode-scan d (bytes ++ more) stream, decode-scan d bytes true)
      (rw (← append_assoc d.pending bytes more, scan-append d.fatal (d.pending ++ bytes) more)
        (scan-close-append d (scan d.fatal (d.pending ++ bytes)) more stream))
