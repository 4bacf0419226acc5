-- ===== src/Bedrock.antt =====
-- from-ai/minecraft/bedrock_list_non_natural.py: lists the blocks and entities of a world that no
-- world generator places.
pub mod Natural
pub mod Replace
pub mod Nbt
pub mod Words
pub mod Subchunk
pub mod Scan
pub mod Report
pub mod Program
pub mod Lock
mod Tests
