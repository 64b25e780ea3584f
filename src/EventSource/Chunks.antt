-- ===== src/EventSource/Chunks.antt =====
-- eventSource.ts: how the bytes of a stream are cut into chunks makes no difference.
use pathmemos.Base.{
  ℕ, zero, suc, ◌≡◌, refl, sym, ◌∙◌, ap, subst, >>=-eq-ok, inl, inr, ◌≤◌, true, false, List, [],
  ◌∷◌, ◌++◌, append_assoc, Option, none, some, arith, Option-cases, length, length-append, Result,
  ok, ◌>>=◌,
}
use pathmemos.Decoder.{Decoder, DecodeError, decode}
use pathmemos.Decoder.Stream.{decode-append}
use pathmemos.EventSource.{
  ErrorBody, Stream, trim, cut, abort, process_message, process_loop, process_buffer, receive,
  on_chunk_received, max_buffer_size, byte_length,
}
use pathmemos.Decoder.Fatal.{decode-lenient_total}
use pathmemos.EventSource.Separator.{cut-append, length-cut}

-- A stream that holds other bytes.
abbrev holding : List ℕ → Decoder → Stream → Stream
holding text d s = record s { buffer = text; decoder = d }

-- The text of a chunk still fits the buffer.
abbrev pub Fits : List ℕ → Stream → Type 0
Fits bytes s = byte_length (receive bytes true s).buffer ≤ max_buffer_size

lenient-ok :
    (d : Decoder) (bytes : List ℕ)
    → d.fatal ≡ false
    → (r : List ℕ × Decoder) × (decode d bytes true ≡ ok r)
lenient-ok d bytes lenient =
    subst
      (λ f.
        (r : List ℕ × Decoder) × (decode (record { pending = d.pending; fatal = f }) bytes true
          ≡ ok r))
      (sym lenient) (decode-lenient_total d.pending bytes true)

-- The text of two chunks is that of the first and that of the second.
parts :
    (d : Decoder) (bytes more text : List ℕ) (d1 : Decoder) (both : List ℕ) (d2 : Decoder)
    → decode d bytes true ≡ ok (text, d1)
    → decode d (bytes ++ more) true ≡ ok (both, d2)
    → (text' : List ℕ) × (decode d1 more true ≡ ok (text', d2)) × (both ≡ text ++ text')
parts d bytes more text d1 both d2 first all =
    let after : Result DecodeError (List ℕ × Decoder) → Result DecodeError (List ℕ × Decoder) =
      λ m. m >>= (λ (out, d'). decode d' more true >>= (λ (out', d''). ok (out ++ out', d''))) in
    let chain : after (ok (text, d1)) ≡ ok (both, d2) =
      ap after (sym first) ∙ sym (decode-append d bytes more true) ∙ all in
    let ((text', d'), e, e') = >>=-eq-ok (decode d1 more true) _ chain in (text', cc, cc)

module _ (parse : List ℕ → Option ErrorBody) (default_message : List ℕ) where
  process_message-holding :
      (raw text : List ℕ) (d : Decoder) (s : Stream)
      → process_message parse default_message raw (holding text d s)
        ≡ holding text d (process_message parse default_message raw s)
  unfolding process_message abort
  process_message-holding [] text d s = refl
  process_message-holding (c ∷ raw) text d s = ground arith

  process_message-holds :
      (raw : List ℕ) (s : Stream)
      → ((process_message parse default_message raw s).buffer ≡ s.buffer)
        × ((process_message parse default_message raw s).decoder ≡ s.decoder)
  unfolding process_message abort
  process_message-holds [] s = (refl, refl)
  process_message-holds (c ∷ raw) s = ground arith

  process_loop-stop :
      (n : ℕ) (s : Stream) → cut s.buffer ≡ none → process_loop parse default_message n s ≡ s
  unfolding process_loop
  process_loop-stop zero s e = refl
  process_loop-stop (suc n) s e = ground arith

  abbrev next : List ℕ → List ℕ → Stream → Stream
  next raw rest s = process_message parse default_message (trim raw) (record s { buffer = rest })

  next-holds : (raw rest : List ℕ) (s : Stream) → (next raw rest s).buffer ≡ rest
  next-holds raw rest s = (process_message-holds (trim raw) (record s { buffer = rest })).0

  process_loop-next :
      (n : ℕ) (s : Stream) (raw rest : List ℕ)
      → cut s.buffer ≡ some (raw, rest)
      → process_loop parse default_message (suc n) s
        ≡ process_loop parse default_message n (next raw rest s)
  unfolding process_loop
  process_loop-next n s raw rest e = ground arith

  -- A round needs fuel, and leaves a shorter buffer.
  next-shorter :
      (n : ℕ) (s : Stream) (raw rest : List ℕ)
      → cut s.buffer ≡ some (raw, rest)
      → length s.buffer ≤ suc n
      → length (next raw rest s).buffer ≤ n
  next-shorter n s raw rest e p =
      ground (arith, next-holds raw rest s, length-cut s.buffer raw rest e)

  cut-empty : (text : List ℕ) → length text ≤ 0 → cut text ≡ none
  cut-empty text p = elim (Option-cases (cut text)) [
    | inl e ↦ e
    | inr ((raw, rest), e) ↦ absurd (omega (arith, length-cut text raw rest e))
  ]

  process_loop-zero : (s : Stream) → process_loop parse default_message 0 s ≡ s
  unfolding process_loop
  process_loop-zero s = refl

  -- Enough fuel is as good as more.
  process_loop-fuel :
      (n m : ℕ) (s : Stream)
      → length s.buffer ≤ n
      → length s.buffer ≤ m
      → process_loop parse default_message n s ≡ process_loop parse default_message m s
  process_loop-fuel zero m s p q =
      process_loop-zero s ∙ sym (process_loop-stop m s (cut-empty s.buffer p))
  process_loop-fuel (suc n) zero s p q =
      process_loop-stop (suc n) s (cut-empty s.buffer q) ∙ sym (process_loop-zero s)
  process_loop-fuel (suc n) (suc m) s p q = elim (Option-cases (cut s.buffer)) [
    | inl e ↦ process_loop-stop (suc n) s e ∙ sym (process_loop-stop (suc m) s e)
    | inr ((raw, rest), e) ↦
        process_loop-next n s raw rest e
        ∙ process_loop-fuel n m (next raw rest s) (next-shorter n s raw rest e p)
            (next-shorter m s raw rest e q)
        ∙ sym (process_loop-next m s raw rest e)
  ]

  abbrev feed : List ℕ → Decoder → Stream → Stream
  feed more d s = process_buffer parse default_message (holding (s.buffer ++ more) d s)

  feed-next :
      (more : List ℕ) (d : Decoder) (s : Stream) (raw rest : List ℕ)
      → cut s.buffer ≡ some (raw, rest)
      → feed more d s ≡ feed more d (next raw rest s)
  unfolding process_buffer
  feed-next more d s raw rest e =
      let s0 : Stream = holding (s.buffer ++ more) d s in
      let n : ℕ = length (s.buffer ++ more) in
      let moved : next raw (rest ++ more) s0 ≡ holding (rest ++ more) d (next raw rest s) =
        process_message-holding (trim raw) (rest ++ more) d (record s { buffer = rest }) in
      let fits : length (rest ++ more) ≤ n = ground (
        arith,
        length-append rest more,
        length-append s.buffer more,
        length-cut s.buffer raw rest e,
      ) in
      process_loop-fuel n (suc n) s0 (omega arith) (omega arith)
      ∙ process_loop-next n s0 raw (rest ++ more) (cut-append s.buffer more raw rest e)
      ∙ ap (process_loop parse default_message n) moved
      ∙ process_loop-fuel n (length (rest ++ more)) (holding (rest ++ more) d (next raw rest s))
          fits (omega arith)
      ∙ ap
          (λ b.
            process_loop parse default_message (length (b ++ more))
              (holding (b ++ more) d (next raw rest s)))
          (sym (next-holds raw rest s))

  -- Messages taken off first, or after more has come.
  process_loop-feed :
      (n : ℕ) (more : List ℕ) (d : Decoder) (s : Stream)
      → length s.buffer ≤ n
      → feed more d s ≡ feed more d (process_loop parse default_message n s)
  process_loop-feed zero more d s p =
      ap (feed more d) (sym (process_loop-stop 0 s (cut-empty s.buffer p)))
  process_loop-feed (suc n) more d s p = elim (Option-cases (cut s.buffer)) [
    | inl e ↦ ap (feed more d) (sym (process_loop-stop (suc n) s e))
    | inr ((raw, rest), e) ↦
        feed-next more d s raw rest e
        ∙ process_loop-feed n more d (next raw rest s) (next-shorter n s raw rest e p)
        ∙ ap (feed more d) (sym (process_loop-next n s raw rest e))
  ]

  process_loop-decoder :
      (n : ℕ) (s : Stream) → (process_loop parse default_message n s).decoder ≡ s.decoder
  process_loop-decoder zero s = ap (λ t. t.decoder) (process_loop-zero s)
  process_loop-decoder (suc n) s = elim (Option-cases (cut s.buffer)) [
    | inl e ↦ ap (λ t. t.decoder) (process_loop-stop (suc n) s e)
    | inr ((raw, rest), e) ↦
        ap (λ t. t.decoder) (process_loop-next n s raw rest e)
        ∙ process_loop-decoder n (next raw rest s)
        ∙ (process_message-holds (trim raw) (record s { buffer = rest })).1
  ]

  on_chunk_received-feed :
      (s : Stream) (bytes text : List ℕ) (d : Decoder)
      → s.aborted ≡ false
      → decode s.decoder bytes true ≡ ok (text, d)
      → Fits bytes s
      → on_chunk_received parse default_message bytes s ≡ feed text d s
  unfolding on_chunk_received receive
  on_chunk_received-feed s bytes text d live e fits = ground arith

  -- A chunk that comes in two parts has the effect that it has in one: the same calls and the same
  -- state after them. No buffer is over the limit, and the first part has not ended the stream.
  pub on_chunk_received-append :
      (s : Stream) (bytes more : List ℕ)
      → s.decoder.fatal ≡ false
      → s.aborted ≡ false
      → (on_chunk_received parse default_message bytes s).aborted ≡ false
      → Fits bytes s
      → Fits (bytes ++ more) s
      → Fits more (on_chunk_received parse default_message bytes s)
      → on_chunk_received parse default_message (bytes ++ more) s
        ≡ on_chunk_received parse default_message more
            (on_chunk_received parse default_message bytes s)
  unfolding process_buffer
  on_chunk_received-append s bytes more lenient live on fits fits_both fits_more =
      let ((text, d1), first) = lenient-ok s.decoder bytes lenient in
      let ((both, d2), all) = lenient-ok s.decoder (bytes ++ more) lenient in
      let s1 : Stream = holding (s.buffer ++ text) d1 s in
      let t : Stream = process_loop parse default_message (length s1.buffer) s1 in
      let (text', second, joined) = parts s.decoder bytes more text d1 both d2 first all in
      let reached : on_chunk_received parse default_message bytes s ≡ t =
        on_chunk_received-feed s bytes text d1 live first fits in
      let second' : decode t.decoder more true ≡ ok (text', d2) =
        subst (λ d. decode d more true ≡ ok (text', d2))
          (sym (process_loop-decoder (length s1.buffer) s1)) second in
      on_chunk_received-feed s (bytes ++ more) both d2 live all fits_both
      ∙ ap (λ b. feed b d2 s) joined
      ∙ ap (λ b. process_loop parse default_message (length b) (holding b d2 s))
          (sym (append_assoc s.buffer text text'))
      ∙ process_loop-feed (length s1.buffer) text' d2 s1 (omega arith)
      ∙ sym (
          on_chunk_received-feed t more text' d2 (ap (λ u. u.aborted) (sym reached) ∙ on) second'
            (subst (Fits more) reached fits_more))
      ∙ ap (on_chunk_received parse default_message more) (sym reached)
