-- ===== src/Usecase.antt =====
-- internal/usecase: the business processes on the store.
pub mod Discussion
pub mod Files
pub mod Dispatch
pub mod Grants
pub mod Tickets
pub mod Admin
