-- ===== src/AutoRecord/Lifecycle/Closing.antt =====
-- autoRecord.ts: closing switches the recorder off, uploads what is stored first, and aborts an
-- opening that is under way.
use pathmemos.Base.{
  ◌≡◌, refl, sym, ◌∙◌, ap, inl, inr, Bool, true, false, none, some, List, [], ◌∷◌, ◌++◌, append-nil,
  drop-nil, arith, Bool-cases, is_empty,
}
use pathmemos.AutoRecord.Floats.{StayPoint}
use pathmemos.AutoRecord.State.{State, Env, moving, is_recording_enabled}
use pathmemos.AutoRecord.Timers.{reset_state}
use pathmemos.AutoRecord.Reports.{
  Answers, accepted, serial_flush_and_report, flush_to_storage, flush_rest, try_report_storage,
  report_batch, report_settled, clear_after_report, clear_reported_storage,
}
use pathmemos.AutoRecord.Reports.Flush.{unsent, IsStored}
use pathmemos.AutoRecord.Reports.Once.{HasRoom, Sends, serial-Sends}
use pathmemos.AutoRecord.Lifecycle.{close_cancel, close_begin, close_auto_record_run}

module _ {Num : Type 0} where
  -- Off: for the user, for the app and, where the storage takes a write, for the next start; with
  -- no listener, no handler, no timer and no stay under way.
  pub record IsOff (env : Env) (t : State Num) : Type 0 where
    pub enabled : t.enabled_in_memory ≡ some false
    pub shown : t.open_auto_recorded ≡ false
    pub stored : env.storage_writable ≡ true → t.stored_enabled ≡ false
    pub listener : t.listener_registered ≡ false
    pub handler : t.location_handler ≡ false
    pub fallback : t.fallback_timer ≡ none
    pub state : t.state ≡ moving

  pub reset_state-IsOff : (env : Env) (s : State Num) → IsOff env (reset_state env false s)
  unfolding reset_state
  reset_state-IsOff env s = record {
    enabled = ground arith;
    shown = ground arith;
    stored = λ w. ground arith;
    listener = ground arith;
    handler = ground arith;
    fallback = ground arith;
    state = ground arith;
  }

  close_begin_stops :
      (env : Env) (s : State Num) → (close_begin env s).1 ≡ false → IsOff env (close_begin env s).0
  unfolding close_begin
  close_begin_stops env s h = elim (Bool-cases (is_recording_enabled env (close_cancel s)).1) [
    | inl on ↦ absurd (ground arith)
    | inr off ↦ rw off (reset_state-IsOff env _)
  ]

  -- Closing ends off, whatever the storage and the server answer.
  pub close_auto_record_run-IsOff :
      (env : Env) (reads writes : Bool) (a : Answers) (s : State Num)
      → IsOff env (close_auto_record_run env reads writes a s).state
  unfolding close_auto_record_run
  close_auto_record_run-IsOff env reads writes a s = elim (Bool-cases (close_begin env s).1) [
    | inl go ↦ rw go (reset_state-IsOff env _)
    | inr stop ↦ rw stop (close_begin_stops env s stop)
  ]

  -- A flush whose storage answers empties the queue.
  flush_empties : (s : State Num) → (flush_to_storage true true s).stay_point_queue ≡ []
  unfolding flush_to_storage flush_rest
  flush_empties s = go s.stay_point_queue refl
    where
      go :
          (q : List (StayPoint Num))
          → s.stay_point_queue ≡ q
          → (flush_to_storage true true s).stay_point_queue ≡ []
      go [] e = ground arith
      go (p ∷ q) e = ground arith

  abbrev Drained : State Num → Type 0
  Drained t = (t.stored_stay_points ≡ []) × (t.stay_point_queue ≡ [])

  report_batch_drains :
      (env : Env) (a : Answers) (points batch : List (StayPoint Num)) (s : State Num)
      → a.response ≡ accepted
      → a.clears ≡ true
      → s.stay_point_queue ≡ []
      → Drained (report_batch env a points batch s).state
  unfolding report_batch report_settled clear_after_report clear_reported_storage
  report_batch_drains env a points [] s p c q = simp c (refl, q)
  report_batch_drains env a points (x ∷ batch) s p c q = simp (p, c) (refl, q)

  -- A report that the server and the storage take leaves nothing in the storage.
  report_drains :
      (env : Env) (a : Answers) (s : State Num)
      → a.reads ≡ true
      → a.response ≡ accepted
      → a.clears ≡ true
      → s.reporting ≡ false
      → s.stay_point_queue ≡ []
      → Drained (try_report_storage env a s).state
  unfolding try_report_storage
  report_drains env a s r p c b q = elim (Bool-cases (is_empty s.stored_stay_points)) [
    | inl n ↦ simp (b, r, n) (ground arith, q)
    | inr n ↦ simp (b, r, n) (report_batch_drains env a s.stored_stay_points _ s p c q)
  ]

  -- The variables that a report reads are the same.
  abbrev SameStore : State Num → State Num → Type 0
  SameStore s t =
      (t.stored_stay_points ≡ s.stored_stay_points)
      × (t.stay_point_queue ≡ s.stay_point_queue)
      × (t.reported_leading_count ≡ s.reported_leading_count)
      × (t.reporting ≡ s.reporting)

  close_begin_goes :
      (env : Env) (s : State Num)
      → (is_recording_enabled env s).1 ≡ true
      → ((close_begin env s).1 ≡ true) × SameStore s (close_begin env s).0
  unfolding close_begin close_cancel is_recording_enabled
  close_begin_goes env s on = ground arith

  reset_state-SameStore :
      (env : Env) (preserve : Bool) (s : State Num) → SameStore s (reset_state env preserve s)
  unfolding reset_state
  reset_state-SameStore env preserve s = ground arith

  flush_reporting :
      (reads writes : Bool) (s : State Num)
      → (flush_to_storage reads writes s).reporting ≡ s.reporting
  unfolding flush_to_storage flush_rest
  flush_reporting reads writes s = ground arith

  unsent-Drained : (t : State Num) → Drained t → unsent t ≡ []
  unsent-Drained t (st, q) = rw (st, q, drop-nil t.reported_leading_count)

  unsent-SameStore : (s t : State Num) → SameStore s t → unsent t ≡ unsent s
  unsent-SameStore s t (st, q, n, _) = rw (st, q, n)

  serial_uploads_all :
      (env : Env) (a : Answers) (s : State Num)
      → IsStored s
      → HasRoom s
      → s.reporting ≡ false
      → a.reads ≡ true
      → a.response ≡ accepted
      → a.clears ≡ true
      → let r = serial_flush_and_report env true true a true s in
        (r.uploaded ≡ unsent s) × (unsent r.state ≡ [])
  unfolding serial_flush_and_report
  serial_uploads_all env a s h room b r p c =
      let s' : State Num = flush_to_storage true true s in
      let nothing_left : unsent (try_report_storage env a s').state ≡ [] =
        unsent-Drained (try_report_storage env a s').state
          (report_drains env a s' r p c (flush_reporting true true s ∙ b) (flush_empties s)) in
      let sent : Sends s (serial_flush_and_report env true true a true s) =
        serial-Sends env true true a true s h room in
      (
        sym (append-nil (try_report_storage env a s').uploaded)
            ∙ ap (λ l. (try_report_storage env a s').uploaded ++ l) (sym nothing_left)
            ∙ sent.0,
        nothing_left,
      )

  -- Closing a recorder that is on, with no report under way, a storage within its limit and room in
  -- it, uploads all that was queued or stored and not uploaded, although a backoff may be running,
  -- when the storage and the server answer; and nothing is left to upload.
  pub close_uploads_all :
      (env : Env) (a : Answers) (s : State Num)
      → IsStored s
      → HasRoom s
      → (is_recording_enabled env s).1 ≡ true
      → s.reporting ≡ false
      → a.reads ≡ true
      → a.response ≡ accepted
      → a.clears ≡ true
      → let r = close_auto_record_run env true true a s in
        (r.uploaded ≡ unsent s) × (unsent r.state ≡ [])
  unfolding close_auto_record_run
  close_uploads_all env a s h room on b r p c =
      let (goes, same) = close_begin_goes env s on in
      let s1 : State Num = (close_begin env s).0 in
      let t : State Num = (serial_flush_and_report env true true a true s1).state in
      let (up, left) =
        serial_uploads_all env a s1
          (record { limit = rw same.0 h.limit; prefix = rw (same.0, same.2) h.prefix })
          (rw (same.0, same.1) room) (same.3 ∙ b) r p c in
      rw goes (
        up ∙ unsent-SameStore s s1 same,
        unsent-SameStore t (reset_state env false t) (reset_state-SameStore env false t) ∙ left,
      )
