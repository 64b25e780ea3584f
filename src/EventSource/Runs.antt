-- ===== src/EventSource/Runs.antt =====
-- eventSource.ts: runs of a stream, as sequences of what its request reports.
use pathmemos.Base.{
  ℕ, zero, suc, ◌≡◌, refl, ◌∙◌, ap, ◌⊎◌, inl, inr, ◌≤◌, Bool, true, false, List, [], ◌∷◌, Option,
  arith, Option-cases, length,
}
use pathmemos.EventSource.{
  ErrorBody, Stream, failed, network, cut, trim, abort, process_message, process_loop,
  process_buffer, receive, start_request, event_source, on_headers_received, on_chunk_received,
  on_success, on_fail,
}

-- What a request reports, or the caller asks for.
pub data Report : Type 0 where
  headers : (status : ℕ) → Report
  chunk : (bytes : List ℕ) → Report
  success fail aborts : Report

-- The requests made: one, and one more when the stream has reconnected, which leaves the listeners
-- of the first where they are. Once the stream is aborted those of its current request are off.
pub record IsBounded (s : Stream) : Type 0 where
  pub requests :
      ((s.reconnect_attempted ≡ false) × (s.requests ≡ 1) × (s.left_listening ≡ 0))
      ⊎ ((s.reconnect_attempted ≡ true) × (s.requests ≡ 2) × (s.left_listening ≡ 1))
  pub listeners : s.aborted ≡ true → s.listening ≡ false
  pub heard : s.aborted ≡ false → s.ended ≡ false → s.listening ≡ true

abort-IsBounded : (s : Stream) → IsBounded s → IsBounded (abort s)
unfolding abort
abort-IsBounded s h = ground arith

on_fail-IsBounded : (s : Stream) → IsBounded s → IsBounded (on_fail s)
unfolding on_fail start_request
on_fail-IsBounded s h =
    ground (arith, abort-IsBounded (record s { error_fired = true; log = failed network ∷ s.log }))

on_headers-IsBounded :
    (status : ℕ) (s : Stream) → IsBounded s → IsBounded (on_headers_received status s)
unfolding on_headers_received
on_headers-IsBounded status s h = ground (arith, abort-IsBounded (record s { error_fired = true }))

module _ (parse : List ℕ → Option ErrorBody) (default_message : List ℕ) where
  process_message-IsBounded :
      (raw : List ℕ) (s : Stream)
      → IsBounded s
      → IsBounded (process_message parse default_message raw s)
  unfolding process_message abort
  process_message-IsBounded [] s h = h
  process_message-IsBounded (c ∷ raw) s h = ground arith

  process_loop-IsBounded :
      (n : ℕ) (s : Stream) → IsBounded s → IsBounded (process_loop parse default_message n s)
  unfolding process_loop
  process_loop-IsBounded zero s h = h
  process_loop-IsBounded (suc n) s h = elim (Option-cases (cut s.buffer)) [
    | inl e ↦ ground arith
    | inr ((raw, rest), e) ↦
        let t : Stream = record s { buffer = rest } in
        let u : Stream = process_message parse default_message (trim raw) t in
        ground
          (arith, process_loop-IsBounded n u (process_message-IsBounded (trim raw) t (bounded h)))
  ]
    where
      bounded : {rest : List ℕ} → IsBounded s → IsBounded (record s { buffer = rest })
      bounded h = record { requests = h.requests; listeners = h.listeners; heard = h.heard }

  receive-IsBounded :
      (bytes : List ℕ) (stream : Bool) (s : Stream)
      → IsBounded s
      → IsBounded (receive bytes stream s)
  unfolding receive
  receive-IsBounded bytes stream s h = ground arith

  on_chunk-IsBounded :
      (bytes : List ℕ) (s : Stream)
      → IsBounded s
      → IsBounded (on_chunk_received parse default_message bytes s)
  unfolding on_chunk_received process_buffer
  on_chunk-IsBounded bytes s h =
      let t : Stream = receive bytes true s in
      let h' = receive-IsBounded bytes true s h in
      ground (
        arith,
        h',
        abort-IsBounded (record t { error_fired = true }),
        process_loop-IsBounded (length t.buffer) t h',
      )

  abbrev pub react : Report → Stream → Stream
  react (headers status) s = on_headers_received status s
  react (chunk bytes) s = on_chunk_received parse default_message bytes s
  react success s = on_success parse default_message s
  react fail s = on_fail s
  react aborts s = abort s

  abbrev pub run_reports : Stream → List Report → Stream
  run_reports s [] = s
  run_reports s (r ∷ reports) = run_reports (react r s) reports

  process_buffer-IsBounded :
      (s : Stream) → IsBounded s → IsBounded (process_buffer parse default_message s)
  unfolding process_buffer
  process_buffer-IsBounded s h = process_loop-IsBounded (length s.buffer) s h

  -- `success` up to the rest of the buffer, and from there.
  abbrev last_text : Stream → Stream
  last_text s = receive [] false (record s { ended = true })

  last_message-IsBounded :
      (s : Stream)
      → IsBounded s
      → IsBounded (process_message parse default_message (trim s.buffer) (record s { buffer = [] }))
  last_message-IsBounded s h =
      process_message-IsBounded (trim s.buffer) (record s { buffer = [] })
        (record { requests = h.requests; listeners = h.listeners; heard = h.heard })

  -- No message ends the stream or takes the end back.
  process_message_ended :
      (raw : List ℕ) (s : Stream) → (process_message parse default_message raw s).ended ≡ s.ended
  unfolding process_message abort
  process_message_ended [] s = refl
  process_message_ended (c ∷ raw) s = ground arith

  process_loop_ended :
      (n : ℕ) (s : Stream) → (process_loop parse default_message n s).ended ≡ s.ended
  unfolding process_loop
  process_loop_ended zero s = refl
  process_loop_ended (suc n) s = elim (Option-cases (cut s.buffer)) [
    | inl e ↦ ground arith
    | inr ((raw, rest), e) ↦
        let t : Stream = record s { buffer = rest } in
        let u : Stream = process_message parse default_message (trim raw) t in
        ground (arith, process_loop_ended n u, process_message_ended (trim raw) t)
  ]

  receive_ended :
      (bytes : List ℕ) (stream : Bool) (s : Stream) → (receive bytes stream s).ended ≡ s.ended
  unfolding receive
  receive_ended bytes stream s = ground arith

  on_success_ended :
      (s : Stream) → s.aborted ≡ false → (on_success parse default_message s).ended ≡ true
  unfolding on_success process_buffer
  on_success_ended s h =
      let s1 : Stream = last_text s in
      let s2 : Stream = process_loop parse default_message (length s1.buffer) s1 in
      ground (
        arith,
        h,
        receive_ended [] false (record s { ended = true }),
        process_loop_ended (length s1.buffer) s1,
        process_message_ended (trim s1.buffer) (record s1 { buffer = [] }),
        process_message_ended (trim s2.buffer) (record s2 { buffer = [] }),
      )

  on_success-IsBounded : (s : Stream) → IsBounded s → IsBounded (on_success parse default_message s)
  unfolding on_success
  on_success-IsBounded s h =
      let s1 : Stream = last_text s in
      let h1 : IsBounded s1 =
        receive-IsBounded [] false (record s { ended = true })
          (record {
            requests = h.requests;
            listeners = h.listeners;
            heard = λ _ e. absurd (ground (arith, e));
          }) in
      let s2 : Stream = process_buffer parse default_message s1 in
      let h2 : IsBounded s2 = process_buffer-IsBounded s1 h1 in
      ground
        (arith, h, on_success_ended s, last_message-IsBounded s1 h1, last_message-IsBounded s2 h2)

  react-IsBounded : (r : Report) (s : Stream) → IsBounded s → IsBounded (react r s)
  react-IsBounded (headers status) s h = on_headers-IsBounded status s h
  react-IsBounded (chunk bytes) s h = on_chunk-IsBounded bytes s h
  react-IsBounded success s h = on_success-IsBounded s h
  react-IsBounded fail s h = on_fail-IsBounded s h
  react-IsBounded aborts s h = abort-IsBounded s h

  run-IsBounded :
      (reports : List Report) (s : Stream) → IsBounded s → IsBounded (run_reports s reports)
  run-IsBounded [] s h = h
  run-IsBounded (r ∷ reports) s h = run-IsBounded reports (react r s) (react-IsBounded r s h)

  react-silent : (r : Report) (s : Stream) → s.aborted ≡ true → react r s ≡ s
  unfolding on_headers_received on_chunk_received on_success on_fail abort
  react-silent (headers status) s h = ground arith
  react-silent (chunk bytes) s h = ground arith
  react-silent success s h = ground arith
  react-silent fail s h = ground arith
  react-silent aborts s h = ground arith

  run-silent : (reports : List Report) (s : Stream) → s.aborted ≡ true → run_reports s reports ≡ s
  run-silent [] s h = refl
  run-silent (r ∷ reports) s h =
      ap (λ t. run_reports t reports) (react-silent r s h) ∙ run-silent reports s h

  -- Whatever a stream's requests report, and whenever the caller aborts between two reports, it makes
  -- at most two requests, and each but the current one keeps its listeners for good. Once it is
  -- aborted, the listeners of the current request are off, and no report after the one in which it
  -- was aborted changes it or calls back; the rest of a chunk that is being read is not such a report.
  pub run_reports_bounded :
      (reports later : List Report)
      → let t = run_reports event_source reports in
        (t.requests ≤ 2)
        × (t.requests ≡ suc t.left_listening)
        × (t.aborted ≡ true → (t.listening ≡ false) × (run_reports t later ≡ t))
  unfolding event_source start_request
  run_reports_bounded reports later =
      let t : Stream = run_reports event_source reports in
      let bounded : IsBounded t = run-IsBounded reports event_source (record {
        requests = inl (refl, refl, refl);
        listeners = λ e. absurd (ground arith);
        heard = λ _ _. refl;
      }) in
      (
        ground (arith, bounded.requests),
        ground (arith, bounded.requests),
        λ e. (bounded.listeners e, run-silent later t e),
      )
