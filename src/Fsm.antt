-- ===== src/Fsm.antt =====
-- The state machine of src/fsm.rs, one child for each group of its types and functions.
pub mod Collections
pub mod Content
pub mod Model
pub mod Tree
pub mod Domain
pub mod Conflict
pub mod Global
pub mod Select
pub mod Entry
pub mod Step
pub mod Environment
pub mod Invoke
pub mod Finish
pub mod Loop
pub mod Example
mod Witness
