-- ===== src/Datamodel.antt =====
-- What the state machine knows of src/datamodel/mod.rs.
pub mod Data
pub mod Value
pub mod Cells
pub mod Text
pub mod Operations
pub mod Equality
mod Witness
