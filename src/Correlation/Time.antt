-- ===== src/Correlation/Time.antt =====
-- The time that a chain is judged on: backend/app/correlation/engine.py, `effective_time`.
use lunatic92i.Common.{ℕ, ◌*◌, ◌≤◌, ◌≡◌, arith, leb, if◌then◌else◌}
use lunatic92i.Common.Int.{ℤ, ◌-ℤ◌, abs}
use lunatic92i.Correlation.Schema.{TimeSource, event_time, ingestion_time}

-- `DEFAULT_MAX_CLOCK_SKEW_SECONDS`
abbrev pub default_max_clock_skew_seconds : ℕ
default_max_clock_skew_seconds = 900

unfoldable pub effective_time : ℤ → ℤ → ℕ → ℤ × TimeSource
effective_time claimed ingested max_skew_seconds =
    if leb (abs (claimed -ℤ ingested)) (max_skew_seconds * 1000)
    then (claimed, event_time)
    else (ingested, ingestion_time)

-- However a source stamps an event, the time that the event is judged on lies within the tolerance of
-- its ingestion time; and a source that stays within the tolerance is believed.
pub effective_time_bounds :
    (claimed ingested : ℤ) (skew : ℕ)
    → let t = (effective_time claimed ingested skew).0 in
      (abs (t -ℤ ingested) ≤ skew * 1000)
      × (abs (claimed -ℤ ingested) ≤ skew * 1000 → t ≡ claimed)
      × ((effective_time claimed ingested skew).1 ≡ ingestion_time → t ≡ ingested)
unfolding effective_time
effective_time_bounds claimed ingested skew =
    (unfold abs ◌-ℤ◌ in ground arith, λ h. ground arith, λ h. ground arith)
