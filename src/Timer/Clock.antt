-- ===== src/Timer/Clock.antt =====
-- ParseSeconds.
use chud_os.Base.{ℕ, ◌+◌, ◌*◌, ◌/◌, ◌%◌, ◌<◌, ◌≡◌, ◌↔◌, arith}
use chud_os.Timer.{DateData, parse_seconds}

-- The time that a date spells.
abbrev pub spelled_seconds : DateData → ℕ
spelled_seconds d = d.second + 60 * d.minute + 3600 * d.hour + 86400 * d.day

-- Within 65536 days, ParseSeconds spells the time that it was given exactly if the hours that have
-- passed, taken modulo 60, are the hour of the day. The second and the minute are always below 60.
pub parse_seconds-spelled :
    (time : ℕ)
    → time < 65536 * 86400
    → ((parse_seconds time).second < 60)
      × ((parse_seconds time).minute < 60)
      × ((parse_seconds time).hour < 60)
      × ((spelled_seconds (parse_seconds time) ≡ time) ↔ (time / 3600 % 60 ≡ time / 3600 % 24))
unfolding parse_seconds
parse_seconds-spelled time h = (omega arith, omega arith, omega arith, ground arith)
