-- ===== src/AutoRecord/State.antt =====
-- autoRecord.ts: the module's state, its constants and its small operations. A time is in
-- milliseconds, and `a - b < c` is written `a < b + c`. A timer is the delay that it was set with.
use pathmemos.Base.{
  ℕ, ◌+◌, ◌*◌, Bool, true, false, Option, none, some, List, [], ◌∷◌, ltb, ◌&&◌, if◌then◌else◌,
}
use pathmemos.AutoRecord.Floats.{LocationPoint, Centroid, StayPoint}

abbrev pub centroid_calc_interval_ms : ℕ
centroid_calc_interval_ms = 30_000

abbrev pub background_centroid_calc_interval_ms : ℕ
background_centroid_calc_interval_ms = 120_000

abbrev pub centroid_window_time_ms : ℕ
centroid_window_time_ms = 60_000

abbrev pub background_centroid_window_time_ms : ℕ
background_centroid_window_time_ms = 600_000

abbrev pub centroid_min_points : ℕ
centroid_min_points = 3

abbrev pub background_centroid_min_points : ℕ
background_centroid_min_points = 2

abbrev pub centroid_max_points : ℕ
centroid_max_points = 200

abbrev pub background_centroid_max_points : ℕ
background_centroid_max_points = 50

abbrev pub stationary_exit_confirm_count : ℕ
stationary_exit_confirm_count = 2

abbrev pub background_stationary_check_interval_ms : ℕ
background_stationary_check_interval_ms = 60_000

abbrev pub stay_point_mature_ms : ℕ
stay_point_mature_ms = 10 * 60 * 1000

abbrev pub storage_max_size : ℕ
storage_max_size = 50

abbrev pub vip_check_interval_ms : ℕ
vip_check_interval_ms = 5 * 60 * 1000

abbrev pub ios_resume_get_location_delay_ms : ℕ
ios_resume_get_location_delay_ms = 300

abbrev pub fallback_interval_ms : ℕ
fallback_interval_ms = 300_000

abbrev pub active_touch_interval_ms : ℕ
active_touch_interval_ms = 30 * 60 * 1000

abbrev pub restore_retry_max_delay : ℕ
restore_retry_max_delay = 5 * 60 * 1000

pub data Motion : Type 0 where
  stationary moving : Motion

abbrev pub is_stationary : Motion → Bool
is_stationary stationary = true
is_stationary moving = false

-- Asynchronous work that a function starts and does not wait for.
pub data Effect : Type 0 where
  put_active : (token : ℕ) → Effect
  fetch_vip : Effect
  close_auto_record : Effect
  flush_and_report : Effect
  restore_auto_record : Effect
  get_location : Effect
  save_first_record : Effect

pub record State (Num : Type 0) : Type 0 where
  pub window : List (LocationPoint Num)
  pub last_centroid_calc_time : ℕ
  pub state : Motion
  pub stationary_start_time : Option ℕ
  pub stationary_saved : Bool
  pub stable_centroid : Option (Centroid Num)
  pub exit_confirm_count : ℕ
  pub last_stationary_check_time : ℕ
  pub stay_point_queue : List (StayPoint Num)
  pub enabled_in_memory : Option Bool
  pub last_vip_check_time : ℕ
  pub last_vip_result : Option Bool
  pub last_vip_fetch_at : ℕ
  pub opening : Bool
  pub restoring : Bool
  pub closing_generation : ℕ
  pub lifecycle_cancel_token : Option ℕ
  pub active_cancel_token : Option ℕ
  pub just_from_settings : Bool
  pub app_backgrounded_at : ℕ
  pub report_batch_seq : ℕ
  pub last_system_callback_at : ℕ
  pub report_failure_count : ℕ
  pub last_report_failure_time : ℕ
  pub last_active_touch_time : ℕ
  pub fallback_timer : Option ℕ
  pub fallback_pending : Bool
  pub ios_resume_timer : Option ℕ
  pub listener_registered : Bool
  pub reporting : Bool
  pub reported_leading_count : ℕ
  pub restore_retry_timer : Option ℕ
  pub restore_retry_delay : ℕ
  -- The storage of the device, the app's `globalData`, and whether `onLocationChange` is registered.
  pub stored_enabled : Bool
  pub stored_stay_points : List (StayPoint Num)
  pub open_auto_recorded : Bool
  pub location_handler : Bool
  -- The cancel tokens made so far, those cancelled, and the work started, newest first.
  pub next_token : ℕ
  pub cancelled : List ℕ
  pub started : List Effect

-- `getVipInfo()`: the `isVip` of the cached record, nothing cached, or a storage that throws.
pub data VipLookup : Type 0 where
  found : ℕ → VipLookup
  absent : VipLookup
  failed : VipLookup

-- What a run to the next `await` reads from its surroundings.
pub record Env : Type 0 where
  pub now : ℕ
  pub ios : Bool
  pub storage_readable : Bool
  pub storage_writable : Bool
  pub vip : VipLookup

-- The three states of `_isVipFromCache`, or a throw of `getVipInfo`.
pub data VipState : Type 0 where
  known : Bool → VipState
  unknown throws : VipState

-- `getAccuracyFilter`
abbrev pub accuracy_filter : Bool → ℕ
accuracy_filter ios = if ios then 3000 else 500

module _ {Num : Type 0} where
  -- The values that the declarations give.
  abbrev pub initial : Bool → List (StayPoint Num) → State Num
  initial stored points = record {
    window = [];
    last_centroid_calc_time = 0;
    state = moving;
    stationary_start_time = none;
    stationary_saved = false;
    stable_centroid = none;
    exit_confirm_count = 0;
    last_stationary_check_time = 0;
    stay_point_queue = [];
    enabled_in_memory = none;
    last_vip_check_time = 0;
    last_vip_result = none;
    last_vip_fetch_at = 0;
    opening = false;
    restoring = false;
    closing_generation = 0;
    lifecycle_cancel_token = none;
    active_cancel_token = none;
    just_from_settings = false;
    app_backgrounded_at = 0;
    report_batch_seq = 0;
    last_system_callback_at = 0;
    report_failure_count = 0;
    last_report_failure_time = 0;
    last_active_touch_time = 0;
    fallback_timer = none;
    fallback_pending = false;
    ios_resume_timer = none;
    listener_registered = false;
    reporting = false;
    reported_leading_count = 0;
    restore_retry_timer = none;
    restore_retry_delay = 60_000;
    stored_enabled = stored;
    stored_stay_points = points;
    open_auto_recorded = false;
    location_handler = false;
    next_token = 0;
    cancelled = [];
    started = [];
  }

  abbrev pub start : Effect → State Num → State Num
  start e s = record s { started = e ∷ s.started }

  abbrev pub is_background : State Num → Bool
  is_background s = ltb 0 s.app_backgrounded_at

  unfoldable pub centroid_calc_interval : State Num → ℕ
  centroid_calc_interval s =
      if is_background s then background_centroid_calc_interval_ms else centroid_calc_interval_ms

  unfoldable pub centroid_window_time : State Num → ℕ
  centroid_window_time s =
      if is_background s then background_centroid_window_time_ms else centroid_window_time_ms

  unfoldable pub centroid_min : State Num → ℕ
  centroid_min s = if is_background s then background_centroid_min_points else centroid_min_points

  unfoldable pub centroid_max : State Num → ℕ
  centroid_max s = if is_background s then background_centroid_max_points else centroid_max_points

  unfoldable pub update_vip_cache : Env → Bool → State Num → State Num
  update_vip_cache env is_vip s = record s {
    last_vip_result = some is_vip;
    last_vip_check_time = env.now;
  }

  vip_from_lookup : Env → VipLookup → State Num → State Num × VipState
  vip_from_lookup env (found is_vip) s =
      (update_vip_cache env (ltb 0 is_vip) s, known (ltb 0 is_vip))
  vip_from_lookup env absent s = (s, unknown)
  vip_from_lookup env failed s = (s, throws)

  unfoldable pub is_vip_from_cache : Env → State Num → State Num × VipState
  unfolding vip_from_lookup update_vip_cache
  is_vip_from_cache env s = elim s.last_vip_result [
    | none ↦ vip_from_lookup env env.vip s
    | some result ↦
        if ltb 0 s.last_vip_check_time
          && ltb env.now (s.last_vip_check_time + vip_check_interval_ms)
        then (s, known result)
        else vip_from_lookup env env.vip s
  ]

  -- A storage that cannot be read counts as off, and is not remembered.
  unfoldable pub is_recording_enabled : Env → State Num → State Num × Bool
  is_recording_enabled env s = elim s.enabled_in_memory [
    | some enabled ↦ (s, enabled)
    | none ↦
        if env.storage_readable
        then (record s { enabled_in_memory = some s.stored_enabled }, s.stored_enabled)
        else (s, false)
  ]

  unfoldable pub set_recording_state : Env → Bool → State Num → State Num
  set_recording_state env enabled s = record s {
    enabled_in_memory = some enabled;
    stored_enabled = if env.storage_writable then enabled else s.stored_enabled;
    open_auto_recorded = enabled;
  }
