-- ===== src/Clock.antt =====
-- `std::chrono`: a time point is a number of nanoseconds, the tick of both clocks of libstdc++.
use natt.Prelude.{ℕ, ◌-◌, ◌/◌, leb, if◌then◌else◌}
use natt.Prelude.Int.{ℤ, pos, sub_ℕ}

abbrev pub second : ℕ
second = 1_000_000_000

-- `duration_cast<seconds>(now - seen).count()`, which cuts towards zero. A system clock may have gone
-- backwards.
abbrev pub elapsed_seconds : ℕ → ℕ → ℤ
elapsed_seconds now seen =
    if leb seen now then pos ((now - seen) / second) else sub_ℕ 0 ((seen - now) / second)
