-- ===== src/Decoder/Fatal.antt =====
-- textDecoder.ts: the `fatal` option only decides whether a malformed input throws.
use pathmemos.Base.{
  ℕ, zero, suc, ◌≤◌, ◌≡◌, refl, ◌≢◌, ◌∙◌, sym, ap, ◌⊎◌, inl, inr, Bool, true, false, List, [], ◌∷◌,
  ◌++◌, arith, length, drop, length-drop, Result, ok, >>=-eq-ok,
}
use pathmemos.Decoder.{
  Decoder, DecodeError, Step, wait, emit, throws, replace, finish, step_2, step_3, step_4, step,
  after, scan, close, decode,
}
use pathmemos.Decoder.Scan.{Advances, step-Advances, scan-nil, scan-cons}
use pathmemos.Decoder.Stream.{decode-scan}

abbrev is_throw : Step → Bool
is_throw (throws e) = true
is_throw _ = false

-- A round of a strict decoder, unless it throws, is that of a lenient one, which never throws.
abbrev Agrees : Step → Step → Type 0
Agrees strict lenient = ((strict ≡ lenient) ⊎ (is_throw strict ≡ true)) × (is_throw lenient ≡ false)

step_2-Agrees : (b1 : ℕ) (rest : List ℕ) → Agrees (step_2 true b1 rest) (step_2 false b1 rest)
unfolding step_2 replace finish
step_2-Agrees b1 [] = ground arith
step_2-Agrees b1 (b2 ∷ rest) = ground arith

step_3-Agrees : (b1 : ℕ) (rest : List ℕ) → Agrees (step_3 true b1 rest) (step_3 false b1 rest)
unfolding step_3 replace finish
step_3-Agrees b1 [] = ground arith
step_3-Agrees b1 (b2 ∷ []) = ground arith
step_3-Agrees b1 (b2 ∷ b3 ∷ rest) = ground arith

step_4-Agrees : (b1 : ℕ) (rest : List ℕ) → Agrees (step_4 true b1 rest) (step_4 false b1 rest)
unfolding step_4 replace finish
step_4-Agrees b1 [] = ground arith
step_4-Agrees b1 (b2 ∷ []) = ground arith
step_4-Agrees b1 (b2 ∷ b3 ∷ []) = ground arith
step_4-Agrees b1 (b2 ∷ b3 ∷ b4 ∷ rest) = ground arith

step-Agrees : (b1 : ℕ) (rest : List ℕ) → Agrees (step true b1 rest) (step false b1 rest)
unfolding step replace finish
step-Agrees b1 rest =
    ground (arith, step_2-Agrees b1 rest, step_3-Agrees b1 rest, step_4-Agrees b1 rest)

abbrev Total : Result DecodeError (List ℕ × List ℕ) → Type 0
Total m = (r : List ℕ × List ℕ) × (m ≡ ok r)

after-Total :
    (s : Step) (b1 : ℕ) (rest : List ℕ)
    → is_throw s ≡ false
    → Advances rest s
    → ((bytes : List ℕ) → length bytes ≤ length rest → Total (scan false bytes))
    → Total (after s b1 rest (scan false))
after-Total wait b1 rest t a h = (([], b1 ∷ rest), refl)
after-Total (emit units size) b1 rest t a h =
    let (r, e) = h (drop size (b1 ∷ rest)) (omega (arith, length-drop size (b1 ∷ rest))) in
    ((units ++ r.0, r.1), rw e)
after-Total (throws e) b1 rest t a h = cc

scan-Total : (k : ℕ) (bytes : List ℕ) → length bytes ≤ k → Total (scan false bytes)
scan-Total k [] h = (([], []), scan-nil false)
scan-Total zero (b1 ∷ rest) h = absurd (omega arith)
scan-Total (suc k) (b1 ∷ rest) h = rw (scan-cons false b1 rest) (
    after-Total (step false b1 rest) b1 rest (step-Agrees b1 rest).1 (step-Advances false b1 rest)
      (λ bytes p. scan-Total k bytes (omega arith)))

after-strict :
    (s : Step) (b1 : ℕ) (rest : List ℕ) {r : List ℕ × List ℕ}
    → Advances rest s
    → ((bytes : List ℕ) (r : List ℕ × List ℕ)
        → length bytes ≤ length rest
        → scan true bytes ≡ ok r
        → scan false bytes ≡ ok r)
    → after s b1 rest (scan true) ≡ ok r
    → after s b1 rest (scan false) ≡ ok r
after-strict wait b1 rest a h p = p
after-strict (emit units size) b1 rest a h p =
    let (r, e, e') = >>=-eq-ok (scan true (drop size (b1 ∷ rest))) _ p in
    rw (h (drop size (b1 ∷ rest)) r (omega (arith, length-drop size (b1 ∷ rest))) e) e'
after-strict (throws x) b1 rest a h p = p

after-thrown :
    (s : Step) (b1 : ℕ) (rest : List ℕ) {r : List ℕ × List ℕ}
    → is_throw s ≡ true
    → after s b1 rest (scan true) ≢ ok r
after-thrown wait b1 rest t = cc
after-thrown (emit units size) b1 rest t = cc
after-thrown (throws x) b1 rest t = λ p. cc

scan-strict :
    (k : ℕ) (bytes : List ℕ) (r : List ℕ × List ℕ)
    → length bytes ≤ k
    → scan true bytes ≡ ok r
    → scan false bytes ≡ ok r
scan-strict k [] r h p = scan-nil false ∙ sym (scan-nil true) ∙ p
scan-strict zero (b1 ∷ rest) r h p = absurd (omega arith)
scan-strict (suc k) (b1 ∷ rest) r h p = elim (step-Agrees b1 rest).0 [
  | inl same ↦
      scan-cons false b1 rest
      ∙ ap (λ s. after s b1 rest (scan false)) (sym same)
      ∙ after-strict (step true b1 rest) b1 rest (step-Advances true b1 rest)
          (λ bytes r' q. scan-strict k bytes r' (omega arith)) (sym (scan-cons true b1 rest) ∙ p)
  | inr thrown ↦
      absurd (after-thrown (step true b1 rest) b1 rest thrown (sym (scan-cons true b1 rest) ∙ p))
]

-- A lenient decoder throws on no input.
pub decode-lenient_total :
    (pending bytes : List ℕ) (stream : Bool)
    → (r : List ℕ × Decoder) × (decode (record { pending = pending; fatal = false }) bytes stream
        ≡ ok r)
unfolding close
decode-lenient_total pending bytes stream =
    let d : Decoder = record { pending = pending; fatal = false } in
    let (r, e) = scan-Total (length (pending ++ bytes)) (pending ++ bytes) (omega arith) in
    let (r', e') = closed stream d r.0 r.1 refl in (r', rw (decode-scan d bytes stream, e) e')
  where
    closed :
        (stream : Bool) (d : Decoder) (out left : List ℕ)
        → d.fatal ≡ false
        → (r : List ℕ × Decoder) × (close stream d out left ≡ ok r)
    closed true d out left h = (_, refl)
    closed false d out [] h = (_, refl)
    closed false d out (b ∷ left) h = ((out ++ (0xfffd ∷ []), record d { pending = [] }), rw h)

close-strict :
    (stream : Bool) (pending out left : List ℕ) {r : List ℕ × Decoder}
    → close stream (record { pending = pending; fatal = true }) out left ≡ ok r
    → close stream (record { pending = pending; fatal = false }) out left
      ≡ ok (r.0, record (r.1) { fatal = false })
unfolding close
close-strict true pending out left h = ground arith
close-strict false pending out [] h = ground arith
close-strict false pending out (b ∷ left) h = cc

-- Where a strict decoder throws nothing, a lenient one appends the same units and keeps the same
-- bytes for later.
pub decode-strict :
    (pending bytes out : List ℕ) (stream : Bool) (d : Decoder)
    → decode (record { pending = pending; fatal = true }) bytes stream ≡ ok (out, d)
    → decode (record { pending = pending; fatal = false }) bytes stream
      ≡ ok (out, record d { fatal = false })
decode-strict pending bytes out stream d h =
    let strict : Decoder = record { pending = pending; fatal = true } in
    let (r, e, e') =
      >>=-eq-ok (scan true (pending ++ bytes)) _ (sym (decode-scan strict bytes stream) ∙ h) in
    rw
      (
        decode-scan (record { pending = pending; fatal = false }) bytes stream,
        scan-strict (length (pending ++ bytes)) (pending ++ bytes) r (omega arith) e,
      )
      (close-strict stream pending r.0 r.1 e')
