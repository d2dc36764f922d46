-- ===== src/File/FileSystemBottom/Refinement.antt =====
-- The sink over a regular file is a file of bytes.
use temp_files.Base.{
  ℕ, ◌+◌, ◌-◌, ◌≤◌, ◌<◌, ◌≡◌, sym, ◌∙◌, ap, min, max, true, false, some, List, length, take, drop,
  ◌==◌, if◌then◌else◌, arith, length-take, length-drop, length-splice, take-length-take,
}
use temp_files.Common.Errors.{error_ok, error_eof}
use temp_files.Common.Filter.{file_end_position}
use temp_files.Common.ByteFile.{FileView, IsByteFile, ReadStep, WriteStep, SeekStep, max_size}
use temp_files.Common.Syscall.{sys_read, sys_write, sys_lseek}
use temp_files.Common.Syscall.Posix.{Kernel, done, RegularFiles, seek_set, seek_end}
use temp_files.File.FileSystemBottom.{
  FileSystemBottom, file_system_read, file_system_write, file_system_seek, file_system_interface,
}

module _ {World : Type 0} (K : Kernel World) (R : RegularFiles K) where
  pub record IsOpenFile (this : FileSystemBottom) (w : World) : Type 0 where
    pub fd_open : R.IsOpenFd this.fd w
    pub may_read : this.readable ≡ true
    pub may_write : this.writable ≡ true
    pub not_eof : this.eof ≡ false
    pub in_file : R.offset this.fd w ≤ length (R.bytes this.fd w)
    pub short : length (R.bytes this.fd w) ≤ max_size

  abbrev pub file_view : FileView (file_system_interface K)
  file_view = record {
    IsOpen = IsOpenFile;
    contents = λ this w. R.bytes this.fd w;
    pos = λ this w. R.offset this.fd w;
    stall = λ this w. 0;
  }

  read_returns :
      (this : FileSystemBottom) (w : World) (size : ℕ) (got : List ℕ) (w' : World)
      → this.readable ≡ true
      → this.eof ≡ false
      → K.read this.fd size w ≡ (done got, w')
      → file_system_read K this size error_ok w
        ≡ some (got, this, if length got == 0 then error_eof else error_ok, w')
  unfolding file_system_read sys_read
  read_returns this w size got w' r f e = ground arith

  write_returns :
      (this : FileSystemBottom) (w : World) (buf : List ℕ) (count : ℕ) (w' : World)
      → this.writable ≡ true
      → K.write this.fd buf w ≡ (done count, w')
      → file_system_write K this buf error_ok w ≡ some (count, this, error_ok, w')
  unfolding file_system_write sys_write
  write_returns this w buf count w' r e = ground arith

  seek_returns :
      (this : FileSystemBottom) (w : World) (p : ℕ) (w' : World)
      → p ≤ max_size
      → K.lseek this.fd p seek_set w ≡ (done p, w')
      → file_system_seek K this p error_ok w ≡ some (p, this, error_ok, w')
  unfolding file_system_seek sys_lseek
  seek_returns this w p w' l e = ground arith

  seek_end_returns :
      (this : FileSystemBottom) (w : World) (p : ℕ) (w' : World)
      → K.lseek this.fd 0 seek_end w ≡ (done p, w')
      → file_system_seek K this file_end_position error_ok w ≡ some (p, this, error_ok, w')
  unfolding file_system_seek sys_lseek
  seek_end_returns this w p w' e = ground arith

  read_step :
      (this : FileSystemBottom) (w : World) (size : ℕ)
      → IsOpenFile this w
      → 0 < size
      → ReadStep (file_system_interface K) file_view this w size
  read_step this w size h n =
      let (count, w', e, le, some_or_end, o, same, moved) = R.read_lem this.fd size w h.fd_open in
      let got = take count (drop (R.offset this.fd w) (R.bytes this.fd w)) in
      let len : length got ≡ min count (length (R.bytes this.fd w) - R.offset this.fd w) = omega (
        arith,
        length-take count (drop (R.offset this.fd w) (R.bytes this.fd w)),
        length-drop (R.offset this.fd w) (R.bytes this.fd w),
      ) in
      let size' = ap (length {0}) same in
      record {
        count = length got;
        this' = this;
        error' = if length got == 0 then error_eof else error_ok;
        w' = w';
        returns =
            read_returns this w size got w' h.may_read h.not_eof e
            ∙ ap (λ b. some (b, this, if length got == 0 then error_eof else error_ok, w'))
                (sym (take-length-take count (drop (R.offset this.fd w) (R.bytes this.fd w))));
        within = omega arith;
        in_file = omega (arith, h.in_file);
        opened = record {
          fd_open = o;
          may_read = h.may_read;
          may_write = h.may_write;
          not_eof = h.not_eof;
          in_file = omega (arith, h.in_file);
          short = omega (arith, h.short);
        };
        same = same;
        moved = moved;
        outcome = ground (arith, h.in_file);
      }

  write_step :
      (this : FileSystemBottom) (w : World) (buf : List ℕ)
      → IsOpenFile this w
      → 0 < length buf
      → R.offset this.fd w + length buf ≤ max_size
      → WriteStep (file_system_interface K) file_view this w buf
  write_step this w buf h n fits =
      let (count, w', e, pos_count, le, o, written, moved) =
        R.write_lem this.fd buf w h.fd_open n h.in_file in
      let len : length (R.bytes this.fd w')
          ≡ max (length (R.bytes this.fd w)) (R.offset this.fd w + count) =
        ap (length {0}) written
        ∙ omega (
          arith,
          length-splice (R.offset this.fd w) (take count buf) (R.bytes this.fd w) h.in_file,
          length-take count buf,
        ) in
      record {
        count = count;
        this' = this;
        w' = w';
        returns = write_returns this w buf count w' h.may_write e;
        progress = pos_count;
        within = le;
        opened = record {
          fd_open = o;
          may_read = h.may_read;
          may_write = h.may_write;
          not_eof = h.not_eof;
          in_file = omega arith;
          short = omega (arith, h.short);
        };
        written = written;
        moved = moved;
      }

  moved_open :
      (this : FileSystemBottom) (w w' : World) (p : ℕ)
      → IsOpenFile this w
      → R.IsOpenFd this.fd w'
      → R.bytes this.fd w' ≡ R.bytes this.fd w
      → R.offset this.fd w' ≡ p
      → p ≤ length (R.bytes this.fd w)
      → IsOpenFile this w'
  moved_open this w w' p h o same moved l =
      let len = ap (length {0}) same in
      record {
        fd_open = o;
        may_read = h.may_read;
        may_write = h.may_write;
        not_eof = h.not_eof;
        in_file = omega arith;
        short = omega (arith, h.short);
      }

  seek_step :
      (this : FileSystemBottom) (w : World) (p : ℕ)
      → IsOpenFile this w
      → p ≤ length (R.bytes this.fd w)
      → SeekStep (file_system_interface K) file_view this w p p
  seek_step this w p h l =
      let (w', e, o, same, moved) = R.lseek_set_lem this.fd p w h.fd_open l in
      record {
        this' = this;
        w' = w';
        returns = seek_returns this w p w' (omega (arith, h.short)) e;
        opened = moved_open this w w' p h o same moved l;
        same = same;
        moved = moved;
      }

  seek_end_step :
      (this : FileSystemBottom) (w : World)
      → IsOpenFile this w
      → SeekStep
          (file_system_interface K)
          file_view
          this
          w
          file_end_position
          (length (R.bytes this.fd w))
  seek_end_step this w h =
      let (w', e, o, same, moved) = R.lseek_end_lem this.fd w h.fd_open in
      record {
        this' = this;
        w' = w';
        returns = seek_end_returns this w (length (R.bytes this.fd w)) w' e;
        opened = moved_open this w w' (length (R.bytes this.fd w)) h o same moved (omega arith);
        same = same;
        moved = moved;
      }

  -- The sink, opened for reading and writing on a regular file that is not longer than the limit, is a
  -- file of bytes: its reads, writes and seeks act on the file's bytes and offset.
  pub file_system-IsByteFile : IsByteFile (file_system_interface K) file_view
  file_system-IsByteFile = record {
    pos_in = λ this w h. h.in_file;
    bounded = λ this w h. h.short;
    stall_le = λ this w h. omega arith;
    reads = λ this w size h n m. read_step this w size h n;
    writes = write_step;
    seeks = seek_step;
    seek_end = seek_end_step;
  }
