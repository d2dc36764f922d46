-- ===== src/File/FileSystemBottom/Separate.antt =====
-- Two sinks whose files have nothing in common are two files of bytes.
use mathlib.Core.Path.{subst}
use temp_files.Base.{ℕ, ◌≡◌, ◌∙◌, sym, ap, List, length, arith}
use temp_files.Base.Int.{ℤ}
use temp_files.Common.ByteFile.{FileView, IsByteFile, SeekStep}
use temp_files.Common.Filter.{file_end_position}
use temp_files.Common.TwoFiles.{TwoFiles, beside}
use temp_files.Common.Syscall.Posix.{Answer, Kernel, RegularFiles, IsSeparate, seek_set, seek_end}
use temp_files.File.FileSystemBottom.{FileSystemBottom, file_system_interface}
use temp_files.File.FileSystemBottom.Refinement.{file_view, file_system-IsByteFile}

module _ {World : Type 0} (K : Kernel World) (R : RegularFiles K) (S : IsSeparate K R) where
  -- What a call on `fd` leaves of another file.
  abbrev Kept : ℤ → ℤ → World → World → Type 0
  Kept fd that w w' =
      S.Apart fd that w'
      × R.IsOpenFd that w'
      × (R.bytes that w' ≡ R.bytes that w)
      × (R.offset that w' ≡ R.offset that w)

  module _ (that : FileSystemBottom) (c : List ℕ) (p : ℕ) where
    abbrev OpenBeside : ℤ → World → Type 0
    OpenBeside fd w =
        R.IsOpenFd fd w
        × S.Apart fd that.fd w
        × R.IsOpenFd that.fd w
        × (R.bytes that.fd w ≡ c)
        × (R.offset that.fd w ≡ p)

    stays :
        (fd : ℤ) (w w' : World)
        → OpenBeside fd w
        → R.IsOpenFd fd w'
        → Kept fd that.fd w w'
        → OpenBeside fd w'
    stays fd w w' o o' k = (o', k.0, k.1, k.2 ∙ o.3, k.3 ∙ o.4)

    -- The regular files, one of them beside another.
    abbrev beside_fd : RegularFiles K
    beside_fd = record {
      IsOpenFd = OpenBeside;
      bytes = R.bytes;
      offset = R.offset;
      read_lem = λ fd size w o.
          let (count, w', e, le, end, o', same, moved) = R.read_lem fd size w o.0 in
          let kept =
            subst (λ (a : Answer (List ℕ) × World). Kept fd that.fd w a.1) e
              (S.read_apart fd that.fd size w o.0 o.1 o.2) in
          (count, w', e, le, end, stays fd w w' o o' kept, same, moved);
      write_lem = λ fd buf w o n l.
          let (count, w', e, progress, le, o', written, moved) = R.write_lem fd buf w o.0 n l in
          let kept =
            subst (λ (a : Answer ℕ × World). Kept fd that.fd w a.1) e
              (S.write_apart fd that.fd buf w o.0 o.1 o.2) in
          (count, w', e, progress, le, stays fd w w' o o' kept, written, moved);
      lseek_set_lem = λ fd q w o l.
          let (w', e, o', same, moved) = R.lseek_set_lem fd q w o.0 l in
          let kept =
            subst (λ (a : Answer ℕ × World). Kept fd that.fd w a.1) e
              (S.lseek_apart fd that.fd q seek_set w o.0 o.1 o.2) in
          (w', e, stays fd w w' o o' kept, same, moved);
      lseek_end_lem = λ fd w o.
          let (w', e, o', same, moved) = R.lseek_end_lem fd w o.0 in
          let kept =
            subst (λ (a : Answer ℕ × World). Kept fd that.fd w a.1) e
              (S.lseek_apart fd that.fd 0 seek_end w o.0 o.1 o.2) in
          (w', e, stays fd w w' o o' kept, same, moved);
    }

    abbrev pub view : FileView (file_system_interface K)
    view = beside (file_system_interface K) (file_view K R) (λ a b w. S.Apart a.fd b.fd w) that c p

    abbrev below : FileView (file_system_interface K)
    below = file_view K beside_fd

    -- The two ways to say that a sink is open beside `that`.
    toward : (this : FileSystemBottom) (w : World) → view.IsOpen this w → below.IsOpen this w
    toward this w o = record {
      fd_open = (o.0.fd_open, o.1, o.2.fd_open, o.3, o.4);
      may_read = o.0.may_read;
      may_write = o.0.may_write;
      not_eof = o.0.not_eof;
      in_file = o.0.in_file;
      short = o.0.short;
    }

    back :
        (this this' : FileSystemBottom) (w w' : World)
        → view.IsOpen this w
        → below.IsOpen this' w'
        → view.IsOpen this' w'
    back this this' w w' o h =
        let same = ap (length {0}) (h.fd_open.3 ∙ sym o.3) in
        let moved = h.fd_open.4 ∙ sym o.4 in
        (
          record {
            fd_open = h.fd_open.0;
            may_read = h.may_read;
            may_write = h.may_write;
            not_eof = h.not_eof;
            in_file = h.in_file;
            short = h.short;
          },
          h.fd_open.1,
          record {
            fd_open = h.fd_open.2;
            may_read = o.2.may_read;
            may_write = o.2.may_write;
            not_eof = o.2.not_eof;
            in_file = omega (arith, o.2.in_file);
            short = omega (arith, o.2.short);
          },
          h.fd_open.3,
          h.fd_open.4,
        )

    sinks : IsByteFile (file_system_interface K) below
    sinks = file_system-IsByteFile K beside_fd

    sought :
        (this : FileSystemBottom) (w : World) (target landing : ℕ)
        → view.IsOpen this w
        → SeekStep (file_system_interface K) below this w target landing
        → SeekStep (file_system_interface K) view this w target landing
    sought this w target landing o s = record {
      this' = s.this';
      w' = s.w';
      returns = s.returns;
      opened = back this s.this' w s.w' o s.opened;
      same = s.same;
      moved = s.moved;
    }

    -- Where the system keeps the file of a sink apart from that of another, and both sinks are open for
    -- reading and writing on regular files that are not longer than the limit, the sink is a file of
    -- bytes, and its reads, writes and seeks leave the other open, apart, and with its contents and
    -- offset.
    pub beside-IsByteFile : IsByteFile (file_system_interface K) view
    beside-IsByteFile = record {
      pos_in = λ this w o. o.0.in_file;
      bounded = λ this w o. o.0.short;
      stall_le = λ this w o. sinks.stall_le this w (toward this w o);
      reads = λ this w size o n l.
          let s = sinks.reads this w size (toward this w o) n l in
          record {
            count = s.count;
            this' = s.this';
            error' = s.error';
            w' = s.w';
            returns = s.returns;
            within = s.within;
            in_file = s.in_file;
            opened = back this s.this' w s.w' o s.opened;
            same = s.same;
            moved = s.moved;
            outcome = s.outcome;
          };
      writes = λ this w buf o n l.
          let s = sinks.writes this w buf (toward this w o) n l in
          record {
            count = s.count;
            this' = s.this';
            w' = s.w';
            returns = s.returns;
            progress = s.progress;
            within = s.within;
            opened = back this s.this' w s.w' o s.opened;
            written = s.written;
            moved = s.moved;
          };
      seeks = λ this w q o l. sought this w q q o (sinks.seeks this w q (toward this w o) l);
      seek_end = λ this w o.
          sought this w file_end_position (length (R.bytes this.fd w)) o
            (sinks.seek_end this w (toward this w o));
    }

  -- The sinks of a system that keeps files apart.
  abbrev pub file_system-TwoFiles : TwoFiles (file_system_interface K) (file_view K R)
  file_system-TwoFiles = record {
    Apart = λ a b w. S.Apart a.fd b.fd w;
    apart_sym = λ a b w. S.apart_sym a.fd b.fd w;
    framed = beside-IsByteFile;
  }
