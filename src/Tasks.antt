-- ===== src/Tasks.antt =====
-- wcp_coordinator/tasks_service.py: the life of a task, from post to a terminal state.
pub mod Common
pub mod Post
pub mod Claim
pub mod Execute
pub mod Attest
pub mod Supervise
pub mod Observe
