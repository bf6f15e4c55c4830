-- ===== src/Driver.antt =====
-- The stress driver, tests/stress/driver/main.go. Its requests over HTTP and WebSocket are the
-- environment's.
pub mod Control
pub mod Ops
pub mod Recorder
pub mod Report
pub mod Rest
pub mod Shard
pub mod Setup
pub mod Summary
use hallmaster_proxy.Base.{ℕ, ◌+◌, ◌*◌, Bool, true, false, List, [], ◌∷◌, ltb, if◌then◌else◌}
use hallmaster_proxy.Text.{Bytes}

-- The fields of Scenario, scenarios.go, that decide what is run; `seconds` is
-- int(Duration.Seconds()). The numbers are small and not negative in all scenarios there.
pub record Scenario : Type 0 where
  pub rate_per_sec : ℕ
  pub seconds : ℕ
  pub total : ℕ
  pub concurrency : ℕ

unfoldable pub compute_target : Scenario → ℕ
compute_target scn =
    if ltb 0 scn.total
    then scn.total
    else if ltb 0 scn.rate_per_sec
    then scn.rate_per_sec * scn.seconds
    else 0

-- max(scn.Concurrency, 1)
abbrev pub workers : Scenario → ℕ
workers scn = if ltb 0 scn.concurrency then scn.concurrency else 1
