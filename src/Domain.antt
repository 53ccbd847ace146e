-- ===== src/Domain.antt =====
-- internal/domain: the entities, their validation and the policies.
pub mod Common
pub mod Actor
pub mod Space
pub mod Thread
pub mod Content
pub mod Comment
pub mod Grant
pub mod Ticket
pub mod Attachment
pub mod Image
pub mod Json
pub mod Outbox
