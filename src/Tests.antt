-- ===== src/Tests.antt =====
-- Tests: runs of the model on concrete data, and the theorems at concrete inputs.
mod Data
mod FsmTests
mod SlotTests
mod SchedulerTests
mod OvpnTests
mod PolicyTests
mod SwitchTests
mod StandbyTests
mod SupportTests
mod XrayTests
mod LifecycleTests
mod ReputationTests
mod ApiTests
mod HealthTests
mod CandidateTests
mod PrefixTests
mod ScoringTests
