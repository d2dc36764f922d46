-- ===== src/File/Buffered.antt =====
-- src/file/buffered.c: a byte stream above, blocks of a fixed size below. The functions, and what is
-- proved of them, are in the children.
pub mod State
pub mod Buffer
pub mod Writing
pub mod Reading
pub mod Control
pub mod View
pub mod Flush
pub mod Refill
mod CopyOut
pub mod CopyIn
mod DirectReads
pub mod ReadLaws
pub mod Prepare
pub mod WriteLaws
pub mod SeekLaws
pub mod Refinement
pub mod Separate
