-- ===== src/Tests/Examples.antt =====
-- The theorems at concrete data.
use temp_files.Base.{
  ◌+◌, ◌-◌, ◌%◌, ◌^◌, ◌≡◌, refl, min, true, false, none, some, [], ◌∷◌, ◌++◌, length, take, splice,
  replicate, arith,
}
use temp_files.Common.Errors.{Error, error_ok, error_eof, error_is_ok}
use temp_files.Common.Filter.{Handlers, open_event, read_event, build}
use temp_files.Common.Filter.Dispatch.{IsFirst, build-IsFirst}
use temp_files.Common.Filter.{file_end_position}
use temp_files.Common.ByteFile.{IsByteFile}
use temp_files.Common.PassThrough.{pass_through_write_all, pass_through_read_all}
use temp_files.Common.PassThrough.Reads.{AllRead, pass_through_read_all-AllRead}
use temp_files.Common.PassThrough.Writes.{AllWritten, pass_through_write_all-AllWritten}
use temp_files.Common.Packed.{Cursor, pack2, pack4, pack8, unpack2, unpack4, unpack8, pack_bytes}
use temp_files.Common.Packed.Layout.{be4, be8}
use temp_files.Common.Packed.RoundTrip.{
  unpack8-pack8, unpack4-pack4, unpack2-pack2, low_bytes, pack_bytes_lem,
}
use temp_files.File.FileSystemBottom.{
  FileSystemBottom, error_cant_write, file_system_open, file_system_read, file_system_write,
}
use temp_files.File.FileSystemBottom.Errors.{answered, file_system_open_mode}
use temp_files.File.FileSystemBottom.Separate.{beside-IsByteFile}
use temp_files.Base.Int.{pos}
use temp_files.Common.TwoFiles.{beside}
use temp_files.Common.Syscall.{sys_read}
use temp_files.File.IoStack.Errors.{file_after_error}
use temp_files.Tests.TwoDisks
use temp_files.Tests.TwoStreams
use temp_files.File.Buffered.Separate.{buffered_beside-IsByteFile}
use temp_files.File.FileSystemBottom.Refinement.{file_view, file_system-IsByteFile}
use temp_files.File.Buffered.Buffer.{flush_buffer, fill_buffer}
use temp_files.File.Buffered.Reading.{buffered_read}
use temp_files.File.Buffered.Writing.{buffered_write}
use temp_files.File.Buffered.Control.{buffered_seek}
use temp_files.File.Buffered.View.{contents_of}
use temp_files.File.Buffered.Flush.{Flushed, flush_buffer-Flushed}
use temp_files.File.Buffered.Refill.{Filled, fill_buffer-Filled}
use temp_files.File.Buffered.ReadLaws.{ReadCounted, buffered_read-ReadCounted}
use temp_files.File.Buffered.WriteLaws.{WriteCounted, buffered_write-WriteCounted}
use temp_files.File.Buffered.SeekLaws.{Sought, buffered_seek-Sought, buffered_seek_end-Sought}
use temp_files.File.Buffered.Refinement.{buffered_view, buffered-IsByteFile}
use temp_files.File.IoStack.{
  IoStack, file_read, file_write, file_put8, file_get8, file_put4, file_get4, file_get2,
}
use temp_files.File.IoStack.Laws.{write_and_read_back, file_read-file_write}
use temp_files.File.IoStack.Integers.{put_and_get_back, file_get8-file_put8, file_get4-file_put4}
use temp_files.File.IoStack.TwoBytes.{file_get2_zero}
use temp_files.File.IoStack.Sized.RoundTrip.{write_and_read_sized, read_sized-write_sized}
use temp_files.Common.Filter.{OpenFlags, rdonly, rdwr}
use temp_files.FileSplit.Segments.{FileSplit}
use temp_files.FileSplit.Opening.{file_split_open, file_split_open-none}
use temp_files.Tests.Disk.{
  Disk, disk, disk-RegularFiles, sink, alphabet, at_start, at_block, disk_file,
  disk_file-IsByteFile, zeros, stream, stream-IsByteFile, dirty_stream, new_stream, sink_open,
  dirty_stream-IsBuffered, new_stream-IsBuffered, handle,
}

file_system-IsByteFile_example : IsByteFile disk_file (file_view disk disk-RegularFiles)
file_system-IsByteFile_example = file_system-IsByteFile disk disk-RegularFiles

buffered-IsByteFile_example :
    IsByteFile stream
      (buffered_view disk_file (file_view disk disk-RegularFiles) disk_file-IsByteFile zeros)
buffered-IsByteFile_example =
    buffered-IsByteFile disk_file (file_view disk disk-RegularFiles) disk_file-IsByteFile zeros

pass_through_read_all-AllRead_example :
    AllRead disk_file
      (file_view disk disk-RegularFiles)
      disk_file-IsByteFile
      sink
      at_start
      7
      (pass_through_read_all disk_file sink 7 error_ok at_start)
pass_through_read_all-AllRead_example =
    pass_through_read_all-AllRead disk_file (file_view disk disk-RegularFiles) disk_file-IsByteFile
      sink at_start 7 (sink_open 0 (omega arith)) (omega arith)

pass_through_write_all-AllWritten_example :
    AllWritten disk_file
      (file_view disk disk-RegularFiles)
      disk_file-IsByteFile
      sink
      at_start
      alphabet
      10
      (pass_through_write_all disk_file sink alphabet error_ok at_start)
pass_through_write_all-AllWritten_example =
    pass_through_write_all-AllWritten disk_file (file_view disk disk-RegularFiles)
      disk_file-IsByteFile sink at_start alphabet (sink_open 0 (omega arith)) (omega arith)
      (omega arith)

flush_buffer-Flushed_example :
    Flushed disk_file
      (file_view disk disk-RegularFiles)
      disk_file-IsByteFile
      dirty_stream
      at_block
      (flush_buffer disk_file dirty_stream error_ok at_block)
flush_buffer-Flushed_example =
    flush_buffer-Flushed disk_file (file_view disk disk-RegularFiles) disk_file-IsByteFile
      dirty_stream at_block dirty_stream-IsBuffered

fill_buffer-Filled_example :
    Filled disk_file
      (file_view disk disk-RegularFiles)
      disk_file-IsByteFile
      new_stream
      at_start
      (fill_buffer disk_file new_stream error_ok at_start)
fill_buffer-Filled_example =
    fill_buffer-Filled disk_file (file_view disk disk-RegularFiles) disk_file-IsByteFile new_stream
      at_start new_stream-IsBuffered refl

-- A read over the end of the dirty block.
buffered_read-ReadCounted_example :
    ReadCounted disk_file
      (file_view disk disk-RegularFiles)
      disk_file-IsByteFile
      dirty_stream
      at_block
      3
      (buffered_read disk_file dirty_stream 3 error_ok at_block)
buffered_read-ReadCounted_example =
    buffered_read-ReadCounted disk_file (file_view disk disk-RegularFiles) disk_file-IsByteFile
      dirty_stream at_block 3 dirty_stream-IsBuffered (omega arith) (omega arith)

buffered_write-WriteCounted_example :
    WriteCounted disk_file
      (file_view disk disk-RegularFiles)
      disk_file-IsByteFile
      new_stream
      at_start
      alphabet
      (buffered_write disk_file new_stream alphabet error_ok at_start)
buffered_write-WriteCounted_example =
    buffered_write-WriteCounted disk_file (file_view disk disk-RegularFiles) disk_file-IsByteFile
      new_stream at_start alphabet new_stream-IsBuffered (omega arith) (omega arith)

buffered_seek-Sought_example :
    Sought disk_file
      (file_view disk disk-RegularFiles)
      disk_file-IsByteFile
      dirty_stream
      at_block
      9
      (buffered_seek disk_file dirty_stream 9 error_ok at_block)
buffered_seek-Sought_example =
    buffered_seek-Sought disk_file (file_view disk disk-RegularFiles) disk_file-IsByteFile
      dirty_stream at_block 9 dirty_stream-IsBuffered (omega arith)

buffered_seek_end-Sought_example :
    Sought disk_file
      (file_view disk disk-RegularFiles)
      disk_file-IsByteFile
      dirty_stream
      at_block
      10
      (buffered_seek disk_file dirty_stream file_end_position error_ok at_block)
buffered_seek_end-Sought_example =
    buffered_seek_end-Sought disk_file (file_view disk disk-RegularFiles) disk_file-IsByteFile
      dirty_stream at_block dirty_stream-IsBuffered

file_read-file_write_example :
    (this' : IoStack stream) × (w' : Disk) × (write_and_read_back stream handle 6 alphabet at_block
      ≡ some (alphabet, this', error_ok, w'))
    × (contents_of disk_file (file_view disk disk-RegularFiles) this'.next w'
        ≡ splice 6 alphabet
            (contents_of disk_file (file_view disk disk-RegularFiles) dirty_stream at_block))
file_read-file_write_example =
    file_read-file_write stream
      (buffered_view disk_file (file_view disk disk-RegularFiles) disk_file-IsByteFile zeros)
      stream-IsByteFile handle at_block alphabet dirty_stream-IsBuffered (omega arith) (omega arith)

file_get8-file_put8_example :
    (this' : IoStack stream) × (w' : Disk) × (put_and_get_back stream zeros
        (file_put8 stream zeros)
        (file_get8 stream zeros)
        handle
        6
        (2 ^ 63 + 5)
        at_block
      ≡ some ((2 ^ 63 + 5) % 2 ^ 64, this', error_ok, w'))
    × (contents_of disk_file (file_view disk disk-RegularFiles) this'.next w'
        ≡ splice 6
            (be8 (2 ^ 63 + 5))
            (contents_of disk_file (file_view disk disk-RegularFiles) dirty_stream at_block))
file_get8-file_put8_example =
    file_get8-file_put8 stream zeros
      (buffered_view disk_file (file_view disk disk-RegularFiles) disk_file-IsByteFile zeros)
      stream-IsByteFile handle at_block (2 ^ 63 + 5) dirty_stream-IsBuffered (omega arith) refl

file_get4-file_put4_example :
    (this' : IoStack stream) × (w' : Disk) × (put_and_get_back stream zeros
        (file_put4 stream zeros)
        (file_get4 stream zeros)
        handle
        6
        77777
        at_block
      ≡ some (77777 % 2 ^ 32, this', error_ok, w'))
    × (contents_of disk_file (file_view disk disk-RegularFiles) this'.next w'
        ≡ splice 6
            (be4 77777)
            (contents_of disk_file (file_view disk disk-RegularFiles) dirty_stream at_block))
file_get4-file_put4_example =
    file_get4-file_put4 stream zeros
      (buffered_view disk_file (file_view disk disk-RegularFiles) disk_file-IsByteFile zeros)
      stream-IsByteFile handle at_block 77777 dirty_stream-IsBuffered (omega arith) refl

file_get2_zero_example :
    (this' : IoStack stream) × (w' : Disk) × (file_get2 stream zeros handle error_ok at_block
      ≡ some (0, this', error_ok, w'))
file_get2_zero_example =
    file_get2_zero stream zeros
      (buffered_view disk_file (file_view disk disk-RegularFiles) disk_file-IsByteFile zeros)
      stream-IsByteFile handle at_block dirty_stream-IsBuffered (omega arith)

abbrev memory : Cursor
memory = record { bytes = replicate 12 255; bp = 3 }

unpack8-pack8_example :
    unpack8 (record (pack8 memory 12 (2 ^ 64 - 2)) { bp = 3 }) 12
    ≡ ((2 ^ 64 - 2) % 2 ^ 64, pack8 memory 12 (2 ^ 64 - 2))
unpack8-pack8_example = unpack8-pack8 memory 12 (2 ^ 64 - 2) (omega arith) (omega arith)

unpack4-pack4_example :
    unpack4 (record (pack4 memory 12 70000) { bp = 3 }) 12 ≡ (70000 % 2 ^ 32, pack4 memory 12 70000)
unpack4-pack4_example = unpack4-pack4 memory 12 70000 (omega arith) (omega arith)

unpack2-pack2_example :
    unpack2 (record (pack2 memory 12 70000) { bp = 3 }) 12 ≡ (70000 % 2 ^ 16, pack2 memory 12 70000)
unpack2-pack2_example = unpack2-pack2 memory 12 70000 (omega arith) (omega arith)

-- Two of the ten bytes do not fit.
pack_bytes_lem_example :
    ((pack_bytes memory 11 alphabet).bytes
      ≡ splice 3 (take (11 - 3) (low_bytes alphabet)) memory.bytes)
    × ((pack_bytes memory 11 alphabet).bp ≡ min (3 + length alphabet) (11 + 1))
pack_bytes_lem_example = pack_bytes_lem alphabet memory 11 (omega arith) (omega arith)

error_eof-is_not_ok : error_is_ok error_eof ≡ false
unfolding error_is_ok
error_eof-is_not_ok = refl

-- A read-only sink.
abbrev read_flags : OpenFlags
read_flags = record { acc_mode = rdonly; append = false; creat = false; trunc = false }

file_system_open_mode_example :
    (file : FileSystemBottom) × (error1 : Error) × (w1 : Disk) × (file_system_open disk sink "data"
        read_flags 0 error_ok at_block
      ≡ some (file, error1, w1))
    × (file_system_write disk file alphabet error_ok at_start
        ≡ some (0, file, error_cant_write, at_start))
    × (file_system_read disk file 4 error_ok at_start
        ≡ answered disk file (sys_read disk file.fd 4 error_ok at_start))
file_system_open_mode_example =
    file_system_open_mode disk sink "data" read_flags 0 error_ok alphabet 4 at_block at_start

-- The sink on the first of two files, beside the second one.
beside-IsByteFile_example : IsByteFile TwoDisks.memory (
    beside TwoDisks.memory TwoDisks.memory_view
      (λ a b w. TwoDisks.memory-TwoFiles.Apart a b w)
      (TwoDisks.sink (pos 4))
      alphabet
      0)
beside-IsByteFile_example =
    beside-IsByteFile TwoDisks.two_disks TwoDisks.two_disks-RegularFiles
      TwoDisks.two_disks-IsSeparate (TwoDisks.sink (pos 4)) alphabet 0

-- The stream over the first file, beside that over the second.
buffered_beside-IsByteFile_example : IsByteFile TwoStreams.streams (
    beside TwoStreams.streams TwoStreams.streams_view
      (λ a b w. TwoStreams.streams-TwoFiles.Apart a b w)
      (TwoStreams.stream (pos 4))
      []
      0)
buffered_beside-IsByteFile_example =
    buffered_beside-IsByteFile TwoDisks.memory TwoDisks.memory_view TwoDisks.memory-IsByteFile
      TwoDisks.memory-TwoFiles TwoStreams.zeros (TwoStreams.stream (pos 4)) [] 0

file_after_error_example :
    (file_write stream handle alphabet error_eof at_block ≡ some (0, handle, error_eof, at_block))
    × (file_read stream handle 4 error_eof at_block ≡ some ([], handle, error_eof, at_block))
file_after_error_example =
    file_after_error stream handle alphabet 4 error_eof at_block error_eof-is_not_ok (omega arith)
      (omega arith)

-- A filter for opening only, a pass-through, and a sink that handles all events.
abbrev opener : Handlers
opener open_event = true
opener _ = false

abbrev nothing : Handlers
nothing e = false

abbrev everything : Handlers
everything e = true

build-IsFirst_example :
    IsFirst
      (opener ∷ nothing ∷ everything ∷ [])
      read_event
      ((build (nothing ∷ opener ∷ nothing ∷ []) everything).next_for read_event)
build-IsFirst_example = build-IsFirst nothing (opener ∷ nothing ∷ []) everything read_event

read_sized-write_sized_example :
    (this' : IoStack stream) × (w' : Disk) × (write_and_read_sized stream zeros handle 6 alphabet 16
        at_block
      ≡ some (alphabet, this', error_ok, w'))
    × (contents_of disk_file (file_view disk disk-RegularFiles) this'.next w'
        ≡ splice 6
            (be4 10 ++ alphabet)
            (contents_of disk_file (file_view disk disk-RegularFiles) dirty_stream at_block))
read_sized-write_sized_example =
    read_sized-write_sized stream zeros refl
      (buffered_view disk_file (file_view disk disk-RegularFiles) disk_file-IsByteFile zeros)
      stream-IsByteFile handle at_block alphabet 16 dirty_stream-IsBuffered (omega arith)
      (omega arith) (omega arith) (omega arith)

abbrev new_group : FileSplit stream
new_group = record {
  next = dirty_stream;
  suggested_size = 64;
  segment_size = 0;
  position = 0;
  name = "";
  oflags = record { acc_mode = rdwr; append = false; creat = false; trunc = false };
  perm = 0;
  file = none;
}

file_split_open-none_example :
    file_split_open stream
      (λ name i. name)
      (λ name. false)
      5
      new_group
      "group"
      new_group.oflags
      0
      error_ok
      at_block
    ≡ none
file_split_open-none_example =
    file_split_open-none stream (λ name i. name) (λ name. false) 5 new_group "group"
      new_group.oflags 0 at_block refl refl
