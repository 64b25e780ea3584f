-- ===== src/TimeLabel/Distinct.antt =====
-- util.ts: a label names one time of the day.
use pathmemos.Base.{ℕ, ◌+◌, ◌≡◌, ◌<◌, ◌≤◌, arith}
use pathmemos.TimeLabel.{
  midnight, early_morning, morning, forenoon, noon, afternoon, evening, Label, period_of,
  format_time_label,
}

-- The hour that a label shows.
abbrev pub hour_of : Label → ℕ
hour_of l = elim l.period [
  | midnight ↦ 0
  | early_morning ↦ l.display_hour
  | morning ↦ l.display_hour
  | forenoon ↦ l.display_hour
  | noon ↦ 12
  | afternoon ↦ l.display_hour + 12
  | evening ↦ l.display_hour + 12
]

-- From the label of a time its hour and its minute can be read off, and the hour shown lies between
-- 1 and 12.
pub format_time_label_readable :
    (hour minute : ℕ)
    → hour < 24
    → (hour_of (format_time_label hour minute) ≡ hour)
      × ((format_time_label hour minute).minute ≡ minute)
      × (1 ≤ (format_time_label hour minute).display_hour)
      × ((format_time_label hour minute).display_hour ≤ 12)
unfolding format_time_label period_of
format_time_label_readable hour minute h = ground arith
