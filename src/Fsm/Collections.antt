-- ===== src/Fsm/Collections.antt =====
-- The general purpose data types of src/fsm.rs ("Structs and methods are designed to match the
-- signatures in the W3c-Pseudo-code"): `List`, `OrderedSet`, `Queue` and `HashTable`.
pub mod Sequence
pub mod Sorting
pub mod OrderedSet
pub mod Queue
pub mod HashTable
