-- ===== src/File/Buffered/Refinement.antt =====
-- The buffering filter over a file of bytes is again a file of bytes.
use temp_files.Base.{ℕ, List, arith}
use temp_files.Common.Errors.{error_ok}
use temp_files.Common.Filter.{Filter}
use temp_files.Common.ByteFile.{FileView, IsByteFile, ReadStep, WriteStep, SeekStep}
use temp_files.File.Buffered.State.{Buffered}
use temp_files.File.Buffered.Control.{buffered_interface}
use temp_files.File.Buffered.View.{contents_of, IsBuffered}
use temp_files.File.Buffered.ReadLaws.{stall_of, ReadCounted, buffered_read-ReadCounted}
use temp_files.File.Buffered.WriteLaws.{WriteCounted, buffered_write-WriteCounted}
use temp_files.File.Buffered.SeekLaws.{Sought, buffered_seek-Sought, buffered_seek_end-Sought}

module _ {World : Type 0} (Next : Filter World) (V : FileView Next) (L : IsByteFile Next V)
    (malloc : ℕ → List ℕ) where
  abbrev pub buffered_view : FileView (buffered_interface Next malloc)
  buffered_view = record {
    IsOpen = IsBuffered Next V;
    contents = contents_of Next V;
    pos = λ this w. this.position;
    stall = λ this w. stall_of Next V L this;
  }

  abbrev F : Filter World
  F = buffered_interface Next malloc

  read_step :
      (this : Buffered Next) (w : World) (size : ℕ)
      → ReadCounted Next V L this w size (F.fn_read this size error_ok w)
      → ReadStep F buffered_view this w size
  read_step this w size x = record {
    count = x.count;
    this' = x.read.this';
    error' = x.read.error';
    w' = x.read.w';
    returns = x.read.returns;
    within = x.read.within;
    in_file = x.read.in_file;
    opened = x.read.holds;
    same = x.read.same;
    moved = x.read.moved;
    outcome = x.outcome;
  }

  write_step :
      (this : Buffered Next) (w : World) (buf : List ℕ)
      → WriteCounted Next V L this w buf (F.fn_write this buf error_ok w)
      → WriteStep F buffered_view this w buf
  write_step this w buf x = record {
    count = x.count;
    this' = x.this';
    w' = x.w';
    returns = x.returns;
    progress = x.progress;
    within = x.within;
    opened = x.holds;
    written = x.written;
    moved = x.moved;
  }

  seek_step :
      (this : Buffered Next) (w : World) (target landing : ℕ)
      → Sought Next V L this w landing (F.fn_seek this target error_ok w)
      → SeekStep F buffered_view this w target landing
  seek_step this w target landing x = record {
    this' = x.this';
    w' = x.w';
    returns = x.returns;
    opened = x.holds;
    same = x.same;
    moved = x.moved;
  }

  -- Over a file of bytes a Buffered object is a file of bytes: while nothing fails, reads, writes and
  -- seeks return, and act on its abstract contents (the file below with dirty data over it) and
  -- position as on a plain file, whatever its block size.
  pub buffered-IsByteFile : IsByteFile F buffered_view
  buffered-IsByteFile = record {
    pos_in = λ this w h. h.in_file;
    bounded = λ this w h. h.short;
    stall_le = λ this w h. ground arith;
    reads = λ this w size h n m.
        read_step this w size (buffered_read-ReadCounted Next V L this w size h n m);
    writes = λ this w buf h n m.
        write_step this w buf (buffered_write-WriteCounted Next V L this w buf h n m);
    seeks = λ this w p h l. seek_step this w p p (buffered_seek-Sought Next V L this w p h l);
    seek_end = λ this w h. seek_step this w _ _ (buffered_seek_end-Sought Next V L this w h);
  }
