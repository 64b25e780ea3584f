-- ===== src/AutoRecord/Reports/Frame.antt =====
-- autoRecord.ts: what a flush and a report leave of the switches and the listener.
use pathmemos.Base.{◌+◌, ◌≡◌, ◌⊎◌, Bool, false, none, List, [], ◌∷◌, arith, min, length, drop}
use pathmemos.AutoRecord.Floats.{StayPoint}
use pathmemos.AutoRecord.State.{State, Env}
use pathmemos.AutoRecord.Reports.{
  Answers, Response, accepted, refused, serial_flush_and_report, report_settled, report_batch,
  try_report_storage, clear_after_report, clear_reported_storage, load_from_storage,
  flush_to_storage, flush_rest,
}

-- The switches and the listener are the same, or an expired session has stopped the listener and
-- forgotten the switch, but not the stored one.
pub record Framed {Num : Type 0} (s t : State Num) : Type 0 where
  pub stored : t.stored_enabled ≡ s.stored_enabled
  pub generation : t.closing_generation ≡ s.closing_generation
  pub opening : t.opening ≡ s.opening
  pub restoring : t.restoring ≡ s.restoring
  pub lifecycle : t.lifecycle_cancel_token ≡ s.lifecycle_cancel_token
  pub switches :
      ((t.listener_registered ≡ s.listener_registered)
        × (t.location_handler ≡ s.location_handler)
        × (t.enabled_in_memory ≡ s.enabled_in_memory))
      ⊎ ((t.listener_registered ≡ false)
          × (t.location_handler ≡ false)
          × (t.enabled_in_memory ≡ none))

module _ {Num : Type 0} where
  report_settled-Framed :
      (env : Env) (r : Response) (s : State Num) → Framed s (report_settled env r s)
  unfolding report_settled
  report_settled-Framed env accepted s = ground arith
  report_settled-Framed env (refused e) s = ground arith

  report_batch-Framed :
      (env : Env) (a : Answers) (points batch : List (StayPoint Num)) (s : State Num)
      → Framed s (report_batch env a points batch s).state
  unfolding report_batch clear_after_report clear_reported_storage
  report_batch-Framed env a points [] s = ground arith
  report_batch-Framed env a points (p ∷ batch) s = ground (
    arith,
    report_settled-Framed env a.response (record s { report_batch_seq = s.report_batch_seq + 1 }),
  )

  try_report_storage-Framed :
      (env : Env) (a : Answers) (s : State Num) → Framed s (try_report_storage env a s).state
  unfolding try_report_storage
  try_report_storage-Framed env a s =
      let points : List (StayPoint Num) = load_from_storage a.reads s in
      ground (
        arith,
        report_batch-Framed env a points
            (drop (min s.reported_leading_count (length points)) points) s,
      )

  flush_to_storage-Framed :
      (reads writes : Bool) (s : State Num) → Framed s (flush_to_storage reads writes s)
  unfolding flush_to_storage flush_rest
  flush_to_storage-Framed reads writes s = ground arith

  pub serial-Framed :
      (env : Env) (reads writes : Bool) (a : Answers) (force : Bool) (s : State Num)
      → Framed s (serial_flush_and_report env reads writes a force s).state
  unfolding serial_flush_and_report
  serial-Framed env reads writes a force s = ground (
    arith,
    flush_to_storage-Framed reads writes s,
    try_report_storage-Framed env a (flush_to_storage reads writes s),
  )
