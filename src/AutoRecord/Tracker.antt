-- ===== src/AutoRecord/Tracker.antt =====
-- autoRecord.ts: `onLocationChange`, the handler of a location. Each `return` of the source is a
-- branch here. The calls that it makes in tail position, or whose effect on its own variables is
-- none, are listed in `started`.

pub mod Cases
pub mod Coherence
pub mod Window
pub mod Saving
pub mod Stays
pub mod Gate
use pathmemos.Base.{
  ℕ, suc, ◌+◌, ◌*◌, ◌<◌, Bool, true, false, Option, none, some, List, [], ◌∷◌, ◌++◌, ltb, leb, ◌&&◌,
  not, if◌then◌else◌, is_some, length,
}
use pathmemos.AutoRecord.Floats.{
  Floats, LocationPoint, Centroid, StayPoint, round_coord, calc_centroid, is_near,
}
use pathmemos.AutoRecord.State.{
  State, Env, fetch_vip, close_auto_record, flush_and_report, start, is_background,
  is_recording_enabled, moving, stationary, is_stationary, known, unknown, throws, VipState,
  is_vip_from_cache, centroid_window_time, centroid_max, centroid_min, centroid_calc_interval,
  active_touch_interval_ms, vip_check_interval_ms, background_stationary_check_interval_ms,
  stationary_exit_confirm_count, stay_point_mature_ms, accuracy_filter,
}
use pathmemos.AutoRecord.Timers.{touch_active}

-- `res.timestamp`: a number of milliseconds, another value with what `new Date` makes of it
-- (`none` is not finite), or nothing.
pub data RawTime : Type 0 where
  millis : ℕ → RawTime
  text : Option ℕ → RawTime
  missing : RawTime

pub record RawLocation (Num : Type 0) : Type 0 where
  pub from_platform_fallback : Bool
  pub accuracy : Option Num
  pub latitude : Option Num
  pub longitude : Option Num
  pub timestamp : RawTime

unfoldable pub point_timestamp : ℕ → RawTime → ℕ
point_timestamp now (millis t) = if ltb 0 t then t else now
point_timestamp now (text (some t)) = t
point_timestamp now (text none) = now
point_timestamp now missing = now

module _ {Num : Type 0} where
  -- `while (_window.length > 0 && _window[0].timestamp < cutoff) _window.shift()`
  unfoldable pub drop_old : ℕ → ℕ → List (LocationPoint Num) → List (LocationPoint Num)
  drop_old window_time timestamp [] = []
  drop_old window_time timestamp (p ∷ ps) =
      if ltb (p.timestamp + window_time) timestamp
      then drop_old window_time timestamp ps
      else p ∷ ps

  -- `while (_window.length > maxPoints) _window.shift()`
  unfoldable pub drop_excess : ℕ → List (LocationPoint Num) → List (LocationPoint Num)
  drop_excess max_points [] = []
  drop_excess max_points (p ∷ ps) =
      if ltb max_points (length (p ∷ ps)) then drop_excess max_points ps else p ∷ ps

  unfoldable pub push_window : LocationPoint Num → State Num → State Num
  unfolding drop_old drop_excess centroid_window_time centroid_max
  push_window p s =
      let kept = drop_old (centroid_window_time s) p.timestamp (s.window ++ p ∷ []) in
      record s { window = drop_excess (centroid_max s) kept }

  abbrev pub is_background_stationary_saved : State Num → Bool
  is_background_stationary_saved s =
      is_background s
      && (is_stationary s.state && (s.stationary_saved && is_some s.stable_centroid))

module _ (f : Floats) where
  open f use {Num, num, lt}

  -- `_pushStayPoint`
  unfoldable pub push_stay_point : Num → Num → ℕ → State Num → State Num
  push_stay_point lat lon timestamp s =
      let point : StayPoint Num = record {
        lat = round_coord f lat;
        lon = round_coord f lon;
        recorded_at = timestamp;
      } in
      start flush_and_report (record s { stay_point_queue = s.stay_point_queue ++ point ∷ [] })

  -- In the background after a stay was saved: only the check whether the user has left.
  unfoldable pub check_exit : Env → LocationPoint Num → Centroid Num → State Num → State Num
  check_exit env p stable s =
      if ltb env.now (s.last_stationary_check_time + background_stationary_check_interval_ms)
      then s
      else let s = record s { last_stationary_check_time = env.now } in
        if is_near f p.latitude p.longitude stable
        then record s { exit_confirm_count = 0 }
        else let s = record s { exit_confirm_count = s.exit_confirm_count + 1 } in
          if ltb s.exit_confirm_count stationary_exit_confirm_count then s else record s {
            state = moving;
            stationary_start_time = none;
            stationary_saved = false;
            stable_centroid = some (record { lat = p.latitude; lon = p.longitude });
            exit_confirm_count = 0;
            window = p ∷ [];
            last_centroid_calc_time = env.now;
          }

  -- `if (!_stationarySaved && stationaryDuration >= STAY_POINT_MATURE_MS)`
  unfoldable pub save_if_mature : Env → ℕ → Centroid Num → State Num → State Num
  save_if_mature env start_time stable s =
      if not s.stationary_saved && leb (start_time + stay_point_mature_ms) env.now
      then record (push_stay_point stable.lat stable.lon env.now s) { stationary_saved = true }
      else s

  -- `_stationaryStartTime ?? now` and `_stableCentroid ?? centroid`, stored.
  unfoldable pub stay : Env → Centroid Num → State Num → State Num
  stay env centroid s =
      let s = record s { exit_confirm_count = 0 } in
      let s = if is_stationary s.state then s else record s {
        state = stationary;
        stationary_start_time = some env.now;
        stationary_saved = false;
        stable_centroid = some centroid;
      } in
      let start_time : ℕ = elim s.stationary_start_time [ none ↦ env.now | some t ↦ t ] in
      let stable = elim s.stable_centroid as (λ _. Centroid Num) [ none ↦ centroid | some c ↦ c ] in
      save_if_mature env start_time stable
        (record s { stationary_start_time = some start_time; stable_centroid = some stable })

  unfoldable pub leave : Centroid Num → State Num → State Num
  leave centroid s =
      let counted = record s { exit_confirm_count = s.exit_confirm_count + 1 } in
      if not (is_stationary s.state)
      then record s { stable_centroid = some centroid }
      else if ltb counted.exit_confirm_count stationary_exit_confirm_count
      then counted
      else record counted {
        state = moving;
        stationary_start_time = none;
        stationary_saved = false;
        stable_centroid = some centroid;
        exit_confirm_count = 0;
      }

  unfoldable pub calculate : Env → State Num → State Num
  calculate env s =
      if ltb env.now (s.last_centroid_calc_time + centroid_calc_interval s)
      then s
      else if ltb (length s.window) (centroid_min s)
      then s
      else let s = record s { last_centroid_calc_time = env.now } in
        let centroid = calc_centroid f s.window in
        let stable = elim s.stable_centroid as (λ _. Centroid Num) [
          | none ↦ centroid
          | some c ↦ c
        ] in
        if is_near f centroid.lat centroid.lon stable then stay env centroid s else leave centroid s

  -- From `isBackgroundStationarySaved` on: the point has passed the filters.
  unfoldable pub track : Env → LocationPoint Num → State Num → State Num
  track env p s =
      if is_background_stationary_saved s
      then elim s.stable_centroid [
        | none ↦ calculate env s
        | some stable ↦ check_exit env p stable s
      ]
      else calculate env (push_window p s)

  abbrev pub accuracy_of : RawLocation Num → Num
  accuracy_of res = elim res.accuracy as (λ _. Num) [ none ↦ num 0 | some a ↦ a ]

  abbrev pub point_of : Env → RawLocation Num → Num → Num → LocationPoint Num
  point_of env res lat lon = record {
    latitude = lat;
    longitude = lon;
    accuracy = accuracy_of res;
    timestamp = point_timestamp env.now res.timestamp;
  }

  -- The filters: accuracy, coordinates, timestamp.
  unfoldable pub accept : Env → RawLocation Num → State Num → State Num
  accept env res s =
      if lt (num (accuracy_filter env.ios)) (accuracy_of res) then s else elim res.latitude [
        | none ↦ s
        | some lat ↦ elim res.longitude [
          | none ↦ s
          | some lon ↦ track env (point_of env res lat lon) s
        ]
      ]

  -- The answer of `_isVipFromCache`: unknown asks the server now and then and closes nothing.
  unfoldable pub with_vip : Env → RawLocation Num → State Num → VipState → State Num
  with_vip env res s (known true) = accept env res s
  with_vip env res s (known false) = start close_auto_record s
  with_vip env res s unknown =
      if leb (s.last_vip_fetch_at + vip_check_interval_ms) env.now
      then start fetch_vip (record s { last_vip_fetch_at = env.now })
      else s
  with_vip env res s throws = s

  -- The heartbeat stands before the VIP check.
  unfoldable pub heartbeat : Env → State Num → State Num
  unfolding touch_active
  heartbeat env s =
      if leb (s.last_active_touch_time + active_touch_interval_ms) env.now
      then touch_active (record s { last_active_touch_time = env.now })
      else s

  abbrev pub note_callback : Env → RawLocation Num → State Num → State Num
  note_callback env res s =
      if res.from_platform_fallback then s else record s { last_system_callback_at = env.now }

  unfoldable pub on_location_change : Env → RawLocation Num → State Num → State Num
  on_location_change env res s =
      let (s, enabled) = is_recording_enabled env (note_callback env res s) in
      if not enabled
      then s
      else let s = heartbeat env s in
        let (s, vip_state) = is_vip_from_cache env s in with_vip env res s vip_state

  -- The answer to the `fetchVipInfo()` that an unknown state started; `none` is a failure.
  unfoldable pub vip_fetched : Env → Option ℕ → State Num → State Num
  vip_fetched env none s = s
  vip_fetched env (some is_vip) s =
      let s = record s { last_vip_result = some (ltb 0 is_vip); last_vip_check_time = env.now } in
      if ltb 0 is_vip then s else start close_auto_record s
