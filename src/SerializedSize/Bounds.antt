-- ===== src/SerializedSize/Bounds.antt =====
-- The size that is estimated for a message against the room of its type.
pub mod Fields
pub mod Largest
pub mod Exact
pub mod Buffers
pub mod KeySequences
