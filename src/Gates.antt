-- ===== src/Gates.antt =====
-- The authorization gates of apps/contracts/src/return_agent_contracts: the monetary gate
-- (review_gates.py) and the user-risk gate (user_risk.py). A pydantic model's `_consistent_...`
-- validator is a Boolean test on the record that it guards.
pub mod Money
pub mod Risk
pub mod Tests
