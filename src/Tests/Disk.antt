-- ===== src/Tests/Disk.antt =====
-- A kernel with one file, open for reading and writing, that transfers at most three bytes in a call;
-- and a pipeline on it, whose buffer has blocks of four bytes.
use temp_files.Base.{
  ℕ, ◌+◌, ◌≤◌, ◌<◌, ◌≡◌, ◌⊎◌, inl, inr, refl, ap, min, true, false, List, [], ◌∷◌, length, take,
  drop, splice, replicate, arith,
}
use temp_files.Base.Int.{pos}
use temp_files.Common.ByteFile.{IsByteFile}
use temp_files.Common.Filter.{Filter}
use temp_files.Common.Syscall.Posix.{Kernel, RegularFiles, Answer, done, Whence, seek_set, seek_end}
use temp_files.File.FileSystemBottom.{FileSystemBottom, file_system_interface}
use temp_files.File.FileSystemBottom.Refinement.{IsOpenFile, file_view, file_system-IsByteFile}
use temp_files.File.Buffered.State.{Buffered}
use temp_files.File.Buffered.View.{IsBuffered}
use temp_files.File.Buffered.Control.{buffered_interface}
use temp_files.File.Buffered.Refinement.{buffered_view, buffered-IsByteFile}
use temp_files.File.IoStack.{IoStack}

pub record Disk : Type 0 where
  pub bytes : List ℕ
  pub offset : ℕ

abbrev chunk : Disk → ℕ → List ℕ
chunk w size = take (min 3 size) (drop w.offset w.bytes)

abbrev disk_write : List ℕ → Disk → Disk
disk_write buf w = record {
  bytes = splice w.offset (take (min 3 (length buf)) buf) w.bytes;
  offset = w.offset + min 3 (length buf);
}

abbrev disk_seek : ℕ → Whence → Disk → Answer ℕ × Disk
disk_seek p seek_set w = (done p, record w { offset = p })
disk_seek p seek_end w = (done (p + length w.bytes), record w { offset = p + length w.bytes })

abbrev pub disk : Kernel Disk
disk = record {
  read = λ fd size w. (done (chunk w size), record w { offset = w.offset + length (chunk w size) });
  write = λ fd buf w. (done (min 3 (length buf)), disk_write buf w);
  open_file = λ path flags perm w. (done 3, record w { offset = 0 });
  close = λ fd w. (done tt, w);
  fsync = λ fd w. (done tt, w);
  lseek = λ fd p whence w. disk_seek p whence w;
  unlink = λ path w. (done tt, record { bytes = []; offset = 0 });
  strerror = λ n. "failed";
}

pub min_le : (size : ℕ) → min 3 size ≤ size
min_le size = omega arith

pub min_pos : (size : ℕ) → 0 < size → 0 < min 3 size
min_pos size h = omega arith

pub some_or_none :
    (size : ℕ) (w : Disk) → (0 < min 3 size) ⊎ (length w.bytes ≤ w.offset) ⊎ (size ≡ 0)
some_or_none size w = ground arith

pub at_end :
    (w : Disk)
    → disk.lseek (pos 3) 0 seek_end w
      ≡ (done (length w.bytes), record w { offset = length w.bytes })
at_end w = ap (λ n. (done n, record w { offset = n })) (omega arith)

abbrev pub disk-RegularFiles : RegularFiles disk
disk-RegularFiles = record {
  IsOpenFd = λ fd w. Unit {0};
  bytes = λ fd w. w.bytes;
  offset = λ fd w. w.offset;
  read_lem = λ fd size w o. (
    min 3 size,
    record w { offset = w.offset + length (chunk w size) },
    refl,
    min_le size,
    some_or_none size w,
    tt,
    refl,
    refl,
  );
  write_lem = λ fd buf w o n l. (
    min 3 (length buf),
    disk_write buf w,
    refl,
    min_pos (length buf) n,
    min_le (length buf),
    tt,
    refl,
    refl,
  );
  lseek_set_lem = λ fd p w o l. (record w { offset = p }, refl, tt, refl, refl);
  lseek_end_lem = λ fd w o. (record w { offset = length w.bytes }, at_end w, tt, refl, refl);
}

-- The sink on the disk, opened for reading and writing.
abbrev pub sink : FileSystemBottom
sink = record { fd = pos 3; writable = true; readable = true; eof = false }

abbrev pub alphabet : List ℕ
alphabet = 97 ∷ 98 ∷ 99 ∷ 100 ∷ 101 ∷ 102 ∷ 103 ∷ 104 ∷ 105 ∷ 106 ∷ []

-- The disk when the sink has just been opened, and when the second block has been read.
abbrev pub at_start : Disk
at_start = record { bytes = alphabet; offset = 0 }

abbrev pub behind_block : Disk
behind_block = record { bytes = alphabet; offset = 8 }

abbrev pub disk_file : Filter Disk
disk_file = file_system_interface disk

abbrev pub disk_file-IsByteFile : IsByteFile disk_file (file_view disk disk-RegularFiles)
disk_file-IsByteFile = file_system-IsByteFile disk disk-RegularFiles

abbrev pub zeros : ℕ → List ℕ
zeros n = replicate n 0

abbrev pub stream : Filter Disk
stream = buffered_interface disk_file zeros

abbrev pub stream-IsByteFile :
    IsByteFile stream
      (buffered_view disk_file (file_view disk disk-RegularFiles) disk_file-IsByteFile zeros)
stream-IsByteFile =
    buffered-IsByteFile disk_file (file_view disk disk-RegularFiles) disk_file-IsByteFile zeros

-- The second block is in the buffer, with its second byte changed.
abbrev pub dirty_stream : Buffered disk_file
dirty_stream = record {
  next = sink;
  suggested_size = 4;
  block_size = 4;
  buf = 101 ∷ 88 ∷ 103 ∷ 104 ∷ [];
  dirty = true;
  position = 6;
  buf_position = 4;
  buf_actual = 4;
  file_size = 0;
  size_confirmed = false;
  readable = true;
  writeable = true;
}

-- A stream that stands at its start, with an empty buffer.
abbrev pub new_stream : Buffered disk_file
new_stream = record dirty_stream { dirty = false; position = 0; buf_position = 0; buf_actual = 0 }

-- The disk with the offset at the buffer.
abbrev pub at_block : Disk
at_block = record { bytes = alphabet; offset = 4 }

pub sink_open :
    (p : ℕ)
    → p ≤ 10
    → IsOpenFile disk disk-RegularFiles sink (record { bytes = alphabet; offset = p })
sink_open p h = record {
  fd_open = tt;
  may_read = refl;
  may_write = refl;
  not_eof = refl;
  in_file = h;
  short = omega arith;
}

pub dirty_stream-IsBuffered :
    IsBuffered disk_file (file_view disk disk-RegularFiles) dirty_stream at_block
dirty_stream-IsBuffered = record {
  below = sink_open 4 (omega arith);
  block_pos = omega arith;
  block_le = omega arith;
  buf_size = refl;
  aligned = refl;
  filled = omega arith;
  behind = omega arith;
  in_block = inl (omega arith, omega arith);
  in_file = omega arith;
  short = omega arith;
  whole = inr (inl refl);
  reads_below = refl;
  state = inl (refl, omega arith, refl);
}

pub new_stream-IsBuffered :
    IsBuffered disk_file (file_view disk disk-RegularFiles) new_stream at_start
new_stream-IsBuffered = record {
  below = sink_open 0 (omega arith);
  block_pos = omega arith;
  block_le = omega arith;
  buf_size = refl;
  aligned = refl;
  filled = omega arith;
  behind = omega arith;
  in_block = inr (refl, omega arith);
  in_file = omega arith;
  short = omega arith;
  whole = inl refl;
  reads_below = refl;
  state = inr (refl, refl, refl);
}

-- The handle of the pipeline.
abbrev pub handle : IoStack stream
handle = record { next = dirty_stream; is_open = true }
