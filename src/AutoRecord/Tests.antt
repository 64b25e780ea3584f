-- ===== src/AutoRecord/Tests.antt =====
-- autoRecord.ts: the states and answers of its tests, in which coordinates are whole numbers.
mod Locations
mod Storage
mod Switches
use pathmemos.Base.{
  ℕ, ◌≡◌, refl, ◌⊎◌, inl, inr, true, false, List, [], ◌∷◌, ◌++◌, none, some, arith, ◌≤◌, ◌+◌, ◌*◌,
  ◌-◌, ◌/◌, ltb, ◌&&◌, if◌then◌else◌, length, zero, suc, drop, ◌<◌,
}
use pathmemos.AutoRecord.Floats.{
  Floats, StayPoint, LocationPoint, is_near, distance_meters_sq, round_coord, calc_centroid,
}
use pathmemos.AutoRecord.State.{
  State, Env, found, initial, stationary, moving, is_recording_enabled, is_vip_from_cache, known,
  centroid_max_points, centroid_calc_interval, centroid_window_time, centroid_min, centroid_max,
  update_vip_cache, set_recording_state,
}
use pathmemos.AutoRecord.Timers.{
  touch_active, start_fallback_timer, stop_location_update_background, reset_state,
  clear_restore_retry, schedule_restore_retry,
}
use pathmemos.AutoRecord.Tracker.{
  RawLocation, millis, on_location_change, point_timestamp, drop_old, drop_excess, push_window,
  push_stay_point, check_exit, save_if_mature, stay, leave, calculate, track, accept, with_vip,
  heartbeat,
}
use pathmemos.AutoRecord.Tracker.Coherence.{IsCoherent, on_location_change-IsCoherent}
use pathmemos.AutoRecord.Tracker.Window.{on_location_change_bound}
use pathmemos.AutoRecord.Tracker.Saving.{Queued, on_location_change-Queued}
use pathmemos.AutoRecord.Tracker.Stays.{
  run, departures, count_true, run_saves_once, on_location_change_rests,
}
use pathmemos.AutoRecord.Tracker.Gate.{closes, is_denied, is_due, on_location_change_gate}
use pathmemos.AutoRecord.Reports.{
  Answers, accepted, flush_to_storage, should_skip_report_due_to_backoff, backoff_ms, flush_take,
  flush_combine, flush_store, flush_rest, put_back, report_settled, clear_after_report,
  clear_reported_storage, report_batch, try_report_storage, serial_flush_and_report,
  is_token_expired_error,
}
use pathmemos.AutoRecord.Reports.Flush.{
  IsStored, unsent, flush_to_storage-IsStored, unsent-flush_to_storage,
}
use pathmemos.AutoRecord.Reports.Backoff.{backoff_ms-suc}
use pathmemos.AutoRecord.Reports.Overflow.{unsent-flush_excess, unsent-flush_excess_failed}
use pathmemos.AutoRecord.Reports.Once.{
  Op, push, report, uploads, run_ops, pushed, uploads_exactly_once,
}
use pathmemos.AutoRecord.Lifecycle.{
  close_auto_record_run, close_begin, open_timeout, open_located, open_synced, is_current,
  forget_token,
}
use pathmemos.AutoRecord.Lifecycle.Closing.{IsOff, close_auto_record_run-IsOff, close_uploads_all}
use pathmemos.AutoRecord.Lifecycle.Failing.{Fails}
use pathmemos.AutoRecord.Position.{
  Locating, Signal, locate, timeout, resolved, Saved, save_first_record,
}
use pathmemos.AutoRecord.Position.{success as located}
use pathmemos.AutoRecord.Position.Settled.{run_signals, run_signals_first}
use pathmemos.AutoRecord.Restore.{
  RestoreAnswers, try_restore_auto_record, restore_begin, restore_token, restore_started,
  restore_listener, restore_later, restore_confirmed, restore_config, restore_vip, restore_finally,
  restore_run,
}
use pathmemos.AutoRecord.Restore.Outcome.{IsWired, try_restore-IsWired}
use pathmemos.AutoRecord.Restore.Retry.{
  vip_unanswered, IsRetried, try_restore-IsRetried, try_restore_without_start,
}

pub runs : Unit {0}
unfolding round_coord distance_meters_sq calc_centroid is_near should_skip_report_due_to_backoff
    backoff_ms flush_take flush_combine flush_store flush_rest flush_to_storage put_back
    report_settled clear_after_report clear_reported_storage report_batch try_report_storage
    serial_flush_and_report is_token_expired_error restore_begin restore_token restore_started
    restore_listener restore_later restore_confirmed restore_config restore_vip restore_finally
    restore_run try_restore_auto_record forget_token centroid_calc_interval centroid_window_time
    centroid_min centroid_max update_vip_cache is_vip_from_cache is_recording_enabled
    set_recording_state start_fallback_timer stop_location_update_background reset_state
    touch_active clear_restore_retry schedule_restore_retry point_timestamp drop_old drop_excess
    push_window push_stay_point check_exit save_if_mature stay leave calculate track accept with_vip
    heartbeat on_location_change
runs = tt

abbrev pub whole : Floats
whole = record {
  Num = ℕ;
  num = λ n. n;
  half = 1;
  pi = 3;
  add = λ a b. a + b;
  sub = λ a b. a - b;
  mul = λ a b. a * b;
  div = λ a b. a / b;
  cos = λ a. 1;
  round = λ a. a;
  lt = ltb;
}

abbrev pub env : Env
env = record {
  now = 5_000_000;
  ios = false;
  storage_readable = true;
  storage_writable = true;
  vip = found 1;
}

abbrev pub point : StayPoint ℕ
point = record { lat = 1; lon = 2; recorded_at = 3 }

abbrev pub recording : State ℕ
recording = record (initial true (point ∷ [])) {
  enabled_in_memory = some true;
  listener_registered = true;
  location_handler = true;
}

abbrev pub spot : LocationPoint ℕ
spot = record { latitude = 30; longitude = 120; accuracy = 20; timestamp = 4_999_000 }

-- A stay since 11 minutes, not saved, in the foreground.
abbrev pub resting : State ℕ
resting = record recording {
  state = stationary;
  stationary_start_time = some 4_300_000;
  stable_centroid = some (record { lat = 30; lon = 120 });
  window = spot ∷ spot ∷ [];
}

pub recording-IsCoherent : IsCoherent recording
recording-IsCoherent = record { shape = inl (refl, refl, refl); count = omega arith }

pub resting-IsCoherent : IsCoherent resting
resting-IsCoherent = record { shape = inr (refl, refl, refl); count = omega arith }

pub recording-IsStored : IsStored recording
recording-IsStored = record { limit = ground arith; prefix = omega arith }

abbrev pub fix : RawLocation ℕ
fix = record {
  from_platform_fallback = false;
  accuracy = some 20;
  latitude = some 30;
  longitude = some 120;
  timestamp = millis 5_000_000;
}

abbrev pub away : RawLocation ℕ
away = record fix { latitude = some 0 }

abbrev pub later : Env
later = record env { now = 5_200_000 }

abbrev pub answered : Answers
answered = record { reads = true; response = accepted; clears = true }
