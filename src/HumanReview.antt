-- ===== src/HumanReview.antt =====
-- Human review: Messages has the messages of apps/contracts/src/return_agent_contracts/models.py that it
-- reads, Rules has the rules of validation.py on who may ask for a review and what a human may decide,
-- and Provider is apps/api/src/return_agent/capabilities/human_review.py.
pub mod Messages
pub mod Rules
pub mod Provider
pub mod Entry
pub mod Submit
pub mod Final
pub mod Tests
