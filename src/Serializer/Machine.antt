-- ===== src/Serializer/Machine.antt =====
-- Whole machines in the binary format: `FsmWriter` and `FsmReader` of src/serializer.
pub mod Write
pub mod Read
pub mod Stored
pub mod Parts
pub mod Contents
pub mod States
pub mod Tables
pub mod RoundTrip
mod Witness
