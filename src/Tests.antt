-- ===== src/Tests.antt =====
-- Kernels with one file and with two, pipelines on them, and the theorems at concrete data.
mod TwoDisks
mod TwoStreams
mod Encryption
mod Compression
mod Disk
mod Examples
