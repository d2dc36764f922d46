-- ===== src/Common.antt =====
-- src/common and src/iostack_error.h: errors, packing, the filter interface and its helpers.
pub mod Errors
pub mod Filter
pub mod ByteFile
pub mod TwoFiles
pub mod PassThrough
pub mod Syscall
pub mod Packed
