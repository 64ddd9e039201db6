-- ===== src/Policy/Laws.antt =====
-- What the verdicts of Policy v2 rest on.
pub mod Claims
pub mod Failures
pub mod FixedLogic
pub mod Item
pub mod Terms
pub mod Order
pub mod Lookups
pub mod Facts
pub mod Outcome
pub mod Findings
