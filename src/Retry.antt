-- ===== src/Retry.antt =====
-- internal/retry/policy.go. The parts: why a workload failed (`Reason`), the classifier of error
-- texts (`Classify`), the tracker of attempts (`Tracker`), and what is proved of them.
pub mod Reason
pub mod Classify
pub mod Tracker
