-- ===== src/TimeLabel.antt =====
-- frontend/miniapp/miniprogram/utils/util.ts: `formatTimeLabel`. The period's text is a key; a number
-- is printed as the language prints it, so the label keeps the numbers and the padding.
pub mod Distinct
mod Tests
use pathmemos.Base.{ℕ, ◌-◌, Bool, true, false, ◌&&◌, ltb, leb, ◌==◌, if◌then◌else◌}

pub data Period : Type 0 where
  midnight early_morning morning forenoon noon afternoon evening : Period

pub record Label : Type 0 where
  pub period : Period
  pub display_hour : ℕ
  pub padded : Bool
  pub minute : ℕ

unfoldable pub period_of : ℕ → Period
period_of hour =
    if hour == 0
    then midnight
    else if leb 1 hour && leb hour 4
    then early_morning
    else if leb 5 hour && leb hour 8
    then morning
    else if leb 9 hour && leb hour 11
    then forenoon
    else if hour == 12
    then noon
    else if leb 13 hour && leb hour 18
    then afternoon
    else evening

unfoldable pub format_time_label : ℕ → ℕ → Label
format_time_label hour minute = record {
  period = period_of hour;
  display_hour = if hour == 0 then 12 else if leb hour 12 then hour else hour - 12;
  padded = ltb minute 10;
  minute = minute;
}
