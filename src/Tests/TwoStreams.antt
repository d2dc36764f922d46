-- ===== src/Tests/TwoStreams.antt =====
-- Buffered streams, with blocks of four bytes, over the sinks on two files.
use temp_files.Base.{ℕ, ◌≡◌, inl, inr, refl, ap, true, false, List, [], length, replicate, arith}
use temp_files.Base.Int.{ℤ}
use temp_files.Common.Filter.{Filter}
use temp_files.Common.ByteFile.{FileView}
use temp_files.Common.TwoFiles.{TwoFiles}
use temp_files.File.Buffered.State.{Buffered}
use temp_files.File.Buffered.View.{IsBuffered}
use temp_files.File.Buffered.Control.{buffered_interface}
use temp_files.File.Buffered.Refinement.{buffered_view}
use temp_files.File.Buffered.Separate.{buffered-TwoFiles}
use temp_files.Tests.TwoDisks.{
  Disks, get, side, memory, memory_view, memory-IsByteFile, memory-TwoFiles, sink, sink-IsOpenFile,
}

abbrev pub zeros : ℕ → List ℕ
zeros n = replicate n 0

abbrev pub streams : Filter Disks
streams = buffered_interface memory zeros

abbrev pub streams_view : FileView streams
streams_view = buffered_view memory memory_view memory-IsByteFile zeros

abbrev pub streams-TwoFiles : TwoFiles streams streams_view
streams-TwoFiles = buffered-TwoFiles memory memory_view memory-IsByteFile memory-TwoFiles zeros

-- A stream at the start of its file.
abbrev pub stream : ℤ → Buffered memory
stream fd = record {
  next = sink fd;
  suggested_size = 4;
  block_size = 4;
  buf = zeros 4;
  dirty = false;
  position = 0;
  buf_position = 0;
  buf_actual = 0;
  file_size = 0;
  size_confirmed = false;
  readable = true;
  writeable = true;
}

abbrev pub empty : Disks
empty = record {
  first = record { bytes = []; offset = 0 };
  second = record { bytes = []; offset = 0 };
}

pub stream-IsBuffered :
    (fd : ℤ)
    → (get (side fd) empty).offset ≡ 0
    → (get (side fd) empty).bytes ≡ []
    → IsBuffered memory memory_view (stream fd) empty
stream-IsBuffered fd start none_there =
    let size = ap (length {0}) none_there in
    record {
      below = sink-IsOpenFile fd empty (omega arith) (omega arith);
      block_pos = omega arith;
      block_le = omega arith;
      buf_size = refl;
      aligned = refl;
      filled = omega arith;
      behind = omega arith;
      in_block = inr (refl, omega arith);
      in_file = omega arith;
      short = omega arith;
      whole = inl refl;
      reads_below = refl;
      state = inr (refl, start, refl);
    }
