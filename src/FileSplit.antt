-- ===== src/FileSplit.antt =====
-- src/fileSplit/fileSplit.c: a group of segment files, treated as a single file.
-- `get_path` is the function that names the segments, with its data; `path_too_long` says whether a name
-- fills PATH_MAX bytes. A division by a segment size of 0, and a call on a NULL segment, do not return.
pub mod Segments
pub mod Deletion
pub mod Events
pub mod Opening
