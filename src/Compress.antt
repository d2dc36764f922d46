-- ===== src/Compress.antt =====
-- src/compress/lz4/lz4.c: a file of records, each a compressed block, with an index file beside it.
pub mod Library
pub mod State
pub mod Records
pub mod Seeking
pub mod Layout
pub mod Cursor
pub mod Blocks
pub mod WriteLaws
pub mod ReadLaws
pub mod SeekLaws
pub mod RandomAccess
pub mod Interface
pub mod SeekEnd
