-- ===== src/AutoRecord/Reports/Once.antt =====
-- autoRecord.ts: every stay point is uploaded once, in the order in which it was queued.
use pathmemos.Base.{
  ℕ, ◌+◌, ◌≤◌, ◌≡◌, refl, sym, ◌∙◌, ap, inl, inr, Bool, true, false, not, ◌&&◌, Bool-cases, List,
  [], ◌∷◌, ◌++◌, append_assoc, append-nil, arith, min, length, drop, is_empty,
}
use pathmemos.AutoRecord.Floats.{Floats, StayPoint, round_coord}
use pathmemos.AutoRecord.State.{State, Env, storage_max_size}
use pathmemos.AutoRecord.Tracker.{push_stay_point}
use pathmemos.AutoRecord.Reports.{
  Answers, Response, accepted, refused, Reported, report_settled, clear_after_report, report_batch,
  try_report_storage, serial_flush_and_report, should_skip_report_due_to_backoff, flush_to_storage,
}
use pathmemos.AutoRecord.Reports.Flush.{
  unsent, IsStored, flush_to_storage-IsStored, unsent-flush_to_storage,
}

drop-length {ℓ} : {A : Type ℓ} (xs : List A) → drop (length xs) xs ≡ []
drop-length [] = refl
drop-length (x ∷ xs) = drop-length xs

module _ {Num : Type 0} where
  -- The variables that hold stay points are the same.
  abbrev SamePoints : State Num → State Num → Type 0
  SamePoints s t =
      (t.stored_stay_points ≡ s.stored_stay_points)
      × (t.stay_point_queue ≡ s.stay_point_queue)
      × (t.reported_leading_count ≡ s.reported_leading_count)

  report_settled-SamePoints :
      (env : Env) (r : Response) (s : State Num) → SamePoints s (report_settled env r s)
  unfolding report_settled
  report_settled-SamePoints env accepted s = (refl, refl, refl)
  report_settled-SamePoints env (refused e) s = ground arith

  -- What a report does to the stay points: those accepted leave the front of the unsent ones.
  abbrev pub Sends : State Num → Reported Num → Type 0
  Sends s r = (r.uploaded ++ unsent r.state ≡ unsent s) × IsStored r.state

  clear_after_report-Sends :
      (env : Env) (clears : Bool) (to_report : List (StayPoint Num)) (s t : State Num)
      → IsStored s
      → to_report ≡ drop s.reported_leading_count s.stored_stay_points
      → SamePoints s t
      → (to_report ++ unsent (clear_after_report env clears (length s.stored_stay_points) t)
          ≡ unsent s)
        × IsStored (clear_after_report env clears (length s.stored_stay_points) t)
  unfolding clear_after_report
  clear_after_report-Sends env true to_report s t h e (_, q, _) =
      (cc, record { limit = omega arith; prefix = omega arith })
  clear_after_report-Sends env false to_report s t h e (st, q, _) = (
    rw (st, drop-length s.stored_stay_points, q, e),
    record { limit = rw st h.limit; prefix = rw st (omega arith) },
  )

  report_batch-Sends :
      (env : Env) (a : Answers) (response : Response) (to_report : List (StayPoint Num))
      (s : State Num)
      → a.response ≡ response
      → IsStored s
      → to_report ≡ drop s.reported_leading_count s.stored_stay_points
      → Sends s (report_batch env a s.stored_stay_points to_report s)
  unfolding report_batch
  report_batch-Sends env a response [] s r h e = elim (Bool-cases a.clears) [
    | inl c ↦ rw c (cc, record { limit = omega arith; prefix = omega arith })
    | inr c ↦ rw c (refl, h)
  ]
  report_batch-Sends env a accepted (p ∷ to_report) s r h e = rw r (
      clear_after_report-Sends env a.clears (p ∷ to_report) s
        (report_settled env accepted (record s { report_batch_seq = s.report_batch_seq + 1 })) h e
        (report_settled-SamePoints env accepted
          (record s { report_batch_seq = s.report_batch_seq + 1 })))
  report_batch-Sends env a (refused x) (p ∷ to_report) s r h e =
      let s' : State Num = record s { report_batch_seq = s.report_batch_seq + 1 } in
      let (st, q, n) = report_settled-SamePoints env (refused x) s' in
      rw r (rw (st, q, n), record { limit = rw st h.limit; prefix = rw (st, n) h.prefix })

  drop-min :
      (n : ℕ) (xs : List (StayPoint Num)) → n ≤ length xs → drop (min n (length xs)) xs ≡ drop n xs
  drop-min n xs h = ap (λ (k : ℕ). drop k xs) (omega arith)

  try_report_storage-Sends :
      (env : Env) (a : Answers) (s : State Num) → IsStored s → Sends s (try_report_storage env a s)
  unfolding try_report_storage
  try_report_storage-Sends env a s h = elim (Bool-cases s.reporting) [
    | inl b ↦ simp b (refl, h)
    | inr b ↦ elim (Bool-cases a.reads) [
      | inr r ↦ simp (b, r) (refl, h)
      | inl r ↦ elim (Bool-cases (is_empty s.stored_stay_points)) [
        | inl n ↦ simp (b, r, n) (refl, h)
        | inr n ↦
            simp (b, r, n)
              (report_batch-Sends env a a.response _ s refl h
                (drop-min s.reported_leading_count s.stored_stay_points h.prefix))
      ]
    ]
  ]

  abbrev pub HasRoom : State Num → Type 0
  HasRoom s = length s.stored_stay_points + length s.stay_point_queue ≤ storage_max_size

  pub serial-Sends :
      (env : Env) (reads writes : Bool) (a : Answers) (force : Bool) (s : State Num)
      → IsStored s
      → HasRoom s
      → Sends s (serial_flush_and_report env reads writes a force s)
  unfolding serial_flush_and_report
  serial-Sends env reads writes a force s h room =
      let s' : State Num = flush_to_storage reads writes s in
      let same : unsent s' ≡ unsent s = unsent-flush_to_storage reads writes s h room in
      let h' : IsStored s' = flush_to_storage-IsStored reads writes s h in
      let sent : Sends s' (try_report_storage env a s') = try_report_storage-Sends env a s' h' in
      elim (Bool-cases (not force && should_skip_report_due_to_backoff env s')) [
        | inl e ↦ simp e (same, h')
        | inr e ↦ simp e (sent.0 ∙ same, sent.1)
      ]

module _ (f : Floats) where
  open f use {Num}

  -- A stay point is queued, or a flush with its report runs.
  pub data Op : Type 0 where
    push : (lat lon : Num) → (timestamp : ℕ) → Op
    report : Env → (reads writes : Bool) → Answers → (force : Bool) → Op

  abbrev pub after_op : State Num → Op → Reported Num
  after_op s (push lat lon t) = record {
    state = push_stay_point f lat lon t s;
    done = true;
    uploaded = [];
  }
  after_op s (report env reads writes a force) = serial_flush_and_report env reads writes a force s

  pub run_ops : State Num → List Op → State Num
  run_ops s [] = s
  run_ops s (op ∷ ops) = run_ops (after_op s op).state ops

  -- All that the server accepts, in order.
  pub uploads : State Num → List Op → List (StayPoint Num)
  uploads s [] = []
  uploads s (op ∷ ops) = (after_op s op).uploaded ++ uploads (after_op s op).state ops

  -- All that is queued, in order.
  abbrev pub pushed : List Op → List (StayPoint Num)
  pushed [] = []
  pushed (push lat lon t ∷ ops) =
      (record { lat = round_coord f lat; lon = round_coord f lon; recorded_at = t }) ∷ pushed ops
  pushed (report env reads writes a force ∷ ops) = pushed ops

  -- No flush of the history meets the limit of the storage.
  abbrev pub StaysInRoom : State Num → List Op → Type 0
  StaysInRoom s [] = Unit {0}
  StaysInRoom s (op ∷ ops) = HasRoom s × StaysInRoom (after_op s op).state ops

  -- Each stay point is uploaded exactly once or is still to be uploaded, and in order, whatever the
  -- storage, the server and the clock answer, if the storage is within its limit and has room at every
  -- step. The history may have any mix of failures: reads, writes, posts, expired sessions, and
  -- clearings that fail after a post.
  pub uploads_exactly_once :
      (s : State Num) (ops : List Op)
      → IsStored s
      → StaysInRoom s ops
      → uploads s ops ++ unsent (run_ops s ops) ≡ unsent s ++ pushed ops
  unfolding uploads run_ops push_stay_point
  uploads_exactly_once s [] h room = sym (append-nil (unsent s))
  uploads_exactly_once s (push lat lon t ∷ ops) h (_, room) =
      uploads_exactly_once (push_stay_point f lat lon t s) ops
        (record { limit = h.limit; prefix = h.prefix }) room
      ∙ simp append_assoc
  uploads_exactly_once s (report env reads writes a force ∷ ops) h (here, room) =
      let r : Reported Num = serial_flush_and_report env reads writes a force s in
      let (sent, h') = serial-Sends env reads writes a force s h here in
      append_assoc r.uploaded (uploads r.state ops) (unsent (run_ops r.state ops))
      ∙ ap (◌++◌ r.uploaded) (uploads_exactly_once r.state ops h' room)
      ∙ sym (append_assoc r.uploaded (unsent r.state) (pushed ops))
      ∙ ap (λ l. l ++ pushed ops) sent
