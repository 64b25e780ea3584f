-- ===== src/TimeLabel/Tests.antt =====
-- Runs of `formatTimeLabel`, and an instance of its theorem.
use pathmemos.Base.{◌≡◌, refl, ◌≤◌, true, false, arith}
use pathmemos.TimeLabel.{midnight, afternoon, format_time_label, period_of}
use pathmemos.TimeLabel.Distinct.{hour_of, format_time_label_readable}

label_tests :
    (format_time_label 0 5
      ≡ record { period = midnight; display_hour = 12; padded = true; minute = 5 })
    × (format_time_label 18 30
        ≡ record { period = afternoon; display_hour = 6; padded = false; minute = 30 })
unfolding format_time_label period_of
label_tests = (refl, refl)

format_time_label_readable_example :
    (hour_of (format_time_label 18 30) ≡ 18)
    × ((format_time_label 18 30).minute ≡ 30)
    × (1 ≤ (format_time_label 18 30).display_hour)
    × ((format_time_label 18 30).display_hour ≤ 12)
format_time_label_readable_example = format_time_label_readable 18 30 (omega arith)
