-- ===== src/Lib.antt =====
-- TempFiles: streams of bytes through a pipeline of filters, from the handle that a program holds down
-- to the POSIX file. Each filter calls the next one; an Error travels with each call.
--
-- The parts and their files:
--   Common/Errors        src/iostack_error.h: error values.
--   Common/Filter        src/common/filter.h and filter.c: the interface of a filter as a record of
--                        functions (`Filter`), size helpers (Sizes), the open flags (Flags), and the
--                        cached pointers of filterInit (Links, Dispatch).
--   Common/ByteFile      what a filter promises so that its predecessor may treat it as a plain file
--                        of bytes; the contract that the layers meet.
--   Common/TwoFiles      two objects of a filter that are different files of bytes; the sink and
--                        Buffered fill it in their modules Separate.
--   Common/PassThrough   src/common/passThrough.c: the loops passThroughWriteAll and passThroughReadAll
--                        (Writes, Reads), over any filter that keeps the contract.
--   Common/Syscall       src/common/syscall.c over a kernel that is a parameter (Posix).
--   Common/Packed        src/common/packed.h: integers packed in big-endian order.
--   File/FileSystemBottom  src/file/fileSystemBottom.c: the sink (Refinement, Separate, Errors).
--   File/Buffered        src/file/buffered.c: blocks of a fixed size below, a stream of bytes above.
--   File/IoStack         src/file/ioStack.c: the handle, and integers put into a pipeline;
--                        Sized: the sized blocks of src/common/passThrough.c; Effects: what
--                        becomes of the file and the position.
--   FileSplit            src/fileSplit/fileSplit.c: a file as a group of segments (Segments, Deletion,
--                        Events, Opening).
--   Compress             src/compress/lz4/lz4.c: a file of compressed blocks (Records) and an index of
--                        where they start (Seeking), over liblz4 (Library); what the two files hold
--                        (Layout), where the filter stands in them (Cursor, Blocks), and what each call
--                        does there (WriteLaws, ReadLaws, SeekLaws, SeekEnd, RandomAccess).
--   Encrypt              src/encrypt/libcrypto/aead.c: encrypted blocks (Blocks) behind a header
--                        (Header), over libcrypto (Library); one record (Cipher) and its nonce (Nonce),
--                        what a cipher promises (Aead), and what is proved of both (NonceLaws,
--                        CipherLaws, DecryptSteps, DecryptLaws), and of a block that is written and
--                        read (Quiet, BlockSteps, BlockLaws).
--   Tests                a kernel with one file in memory, another with two, pipelines on them, a
--                        compression and a cipher that are simple, and the theorems at concrete data.
--
-- A C function `fooBar` is the definition `foo_bar`; a long one is cut where its comments cut it. An
-- object and the filters that it points to are one value; each call takes and returns it, with the
-- error and the world that the objects share. Option's `none` says that a call does not return: a
-- failed assertion, abort, or a loop that runs out of fuel. The byte counts that a size_t holds wrap at
-- 2 ^ 64 (`add_size`, `sub_size`), and an off_t is its 64-bit pattern.
--
-- The loops run on fuel: a write loop has one round for each byte and one to stop, and a read loop two
-- for each byte and three more, since a filter may return nothing once before it returns a byte. The
-- theorems on them say that this is enough, over a filter that keeps the contract of ByteFile.
--
-- The kernel and `strerror` are parameters. `RegularFiles` is what POSIX says of read, write and lseek
-- on a regular file while the disk works: they may transfer less than asked for, but not nothing.
-- `IsSeparate` says that a call on one open file leaves another alone. The contract bounds files by
-- 2 ^ 62 bytes. malloc and uninitialised arrays are parameters as well.
--
-- In FileSplit the fuel bounds the segments that a seek to the end or a deletion may try. A division
-- by zero counts as a call that does not return, here and where a block size is negotiated.
--
-- liblz4 and libcrypto are parameters too: `IsLz4Library` and `IsAead` are what their documents say of
-- the calls that the source makes, and `IsQuiet` that libcrypto leaves files alone. Block sizes passed
-- to them as int are taken to be below 2 ^ 31. The scratch buffers of the two filters are values of the
-- calls that fill them.
--
-- Not modelled: filePrintf, formatPath, and debug output. Memory is not modelled as such: freeing an
-- object, and sharing one between two pipelines, do not appear; a read in front of a buffer or a call on
-- a missing cipher counts as a call that does not return. Of the encryption filter's header,
-- partial blocks, seek to the end and close there are the definitions only.
pub mod Base
pub mod Common
pub mod File
pub mod Compress
pub mod Encrypt
pub mod FileSplit
pub mod Tests
