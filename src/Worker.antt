-- ===== src/Worker.antt =====
-- The Agent Service worker: its command journal and its consumption of one broker message
-- (apps/agent_service/src/return_agent_service/{journal,worker}.py).
pub mod Journal
pub mod Memory
pub mod Consume
pub mod Tests
