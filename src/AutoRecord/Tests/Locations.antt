-- ===== src/AutoRecord/Tests/Locations.antt =====
-- autoRecord.ts: runs of locations and the stays that they make, and instances of the theorems.
use pathmemos.Base.{
  ℕ, ◌≡◌, refl, ◌⊎◌, true, false, List, [], ◌∷◌, some, ◌≤◌, ◌+◌, ◌&&◌, if◌then◌else◌, length,
}
use pathmemos.AutoRecord.State.{stationary, moving, is_recording_enabled, is_vip_from_cache, known}
use pathmemos.AutoRecord.Tracker.{on_location_change}
use pathmemos.AutoRecord.Tracker.Coherence.{IsCoherent, on_location_change-IsCoherent}
use pathmemos.AutoRecord.Tracker.Saving.{Queued, on_location_change-Queued}
use pathmemos.AutoRecord.Tracker.Stays.{run, departures, count_true, run_saves_once}
use pathmemos.AutoRecord.Tracker.Gate.{closes, touches, is_denied, is_due, on_location_change_gate}
use pathmemos.AutoRecord.Position.{Signal, locate, timeout, resolved}
use pathmemos.AutoRecord.Position.{success as located}
use pathmemos.AutoRecord.Position.Settled.{run_signals, run_signals_first}
use pathmemos.AutoRecord.Tests.{
  runs, whole, env, recording, resting, resting-IsCoherent, fix, away, later,
}

-- The position comes before the timer runs out.
abbrev signals : List (Signal ℕ)
signals = timeout ∷ []

-- A stay point is queued after eleven minutes; the second location away from the stay ends it.
location_tests :
    ((on_location_change whole env fix resting).stay_point_queue
      ≡ (record { lat = 30; lon = 120; recorded_at = 5_000_000 }) ∷ [])
    × ((on_location_change whole env fix resting).stationary_saved ≡ true)
    × ((on_location_change whole env away resting).state ≡ stationary)
    × ((on_location_change whole later away (on_location_change whole env away resting)).state
        ≡ moving)
unfolding runs
location_tests = (refl, refl, refl, refl)

on_location_change-IsCoherent_example : IsCoherent (on_location_change whole env fix resting)
on_location_change-IsCoherent_example =
    on_location_change-IsCoherent whole env fix resting resting-IsCoherent

on_location_change-Queued_example :
    ((on_location_change whole env fix resting).stay_point_queue ≡ resting.stay_point_queue)
    ⊎ (((is_recording_enabled env resting).1 ≡ true)
        × ((is_vip_from_cache env resting).1 ≡ known true)
        × Queued whole env resting (on_location_change whole env fix resting))
on_location_change-Queued_example =
    on_location_change-Queued whole env fix resting resting-IsCoherent

run_saves_once_example :
    length (run whole resting ((env, fix) ∷ (env, fix) ∷ [])).stay_point_queue
      + count_true resting.stationary_saved
    ≤ length resting.stay_point_queue
      + departures whole resting ((env, fix) ∷ (env, fix) ∷ [])
      + count_true (run whole resting ((env, fix) ∷ (env, fix) ∷ [])).stationary_saved
run_saves_once_example =
    run_saves_once whole resting ((env, fix) ∷ (env, fix) ∷ []) resting-IsCoherent

on_location_change_gate_example :
    let t = on_location_change whole env fix recording in
    let enabled = (is_recording_enabled env recording).1 in
    (closes t.started
      ≡ closes recording.started
        + count_true (enabled && is_denied (is_vip_from_cache env recording).1))
    × (touches t.started ≡ touches recording.started + count_true (enabled && is_due env recording))
    × (t.last_active_touch_time
        ≡ (if enabled && is_due env recording then env.now else recording.last_active_touch_time))
on_location_change_gate_example = on_location_change_gate whole env fix recording

run_signals_first_example :
    let l = run_signals locate (located 7 ∷ signals) in
    (l.outcome ≡ some (resolved 7)) × (l.timer ≡ false)
run_signals_first_example = run_signals_first (located 7) signals
