-- ===== src/Serializer.antt =====
-- The binary protocol of src/serializer: `DefaultProtocolWriter`, `DefaultProtocolReader`, and what the one
-- reads of what the other wrote.
pub mod Protocol
pub mod Writer
pub mod Reader
pub mod Digits
pub mod Numbers
pub mod Wide
pub mod Texts
pub mod Booleans
pub mod Steps
pub mod Values
pub mod Machine
mod Example
mod Witness
