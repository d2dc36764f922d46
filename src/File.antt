-- ===== src/File.antt =====
-- src/file: the front of a pipeline, the buffering filter and the POSIX sink.
pub mod Buffered
pub mod FileSystemBottom
pub mod IoStack
