-- ===== src/MessageFormat/Repair.antt =====
-- The proofs about the diagnosis: of content items, of content, of messages, and of records.
pub mod Items
pub mod Content
pub mod Field
pub mod Message
pub mod History
pub mod Tool
pub mod User
pub mod Payload
pub mod ResponsePayload
pub mod UserMessage
pub mod Record
pub mod Records
