-- ===== src/MessageFormat.antt =====
-- src/message_format.rs: the diagnosis and lossless repair of message records. One child for each
-- group of functions; `Shape` states what a well-formed record is, and the modules below `Repair`
-- prove that the diagnosis finds exactly the others and that its repairs are well formed.
pub mod Issue
pub mod Content
pub mod Message
pub mod Record
pub mod Shape
pub mod Repair
pub mod Tests
