-- ===== src/File/Buffered/Separate.antt =====
-- Two Buffered objects over different files of bytes are different files of bytes.
use temp_files.Base.{ℕ, ◌≡◌, refl, ◌∙◌, ap, List, length, take, splice, if◌then◌else◌, arith}
use temp_files.Common.Filter.{Filter, file_end_position}
use temp_files.Common.ByteFile.{FileView, IsByteFile, SeekStep}
use temp_files.Common.TwoFiles.{TwoFiles, beside}
use temp_files.File.Buffered.State.{Buffered}
use temp_files.File.Buffered.Control.{buffered_interface}
use temp_files.File.Buffered.View.{contents_of, IsBuffered}
use temp_files.File.Buffered.Refinement.{buffered_view, buffered-IsByteFile}

module _ {World : Type 0} (Next : Filter World) (V : FileView Next) (L : IsByteFile Next V)
    (T : TwoFiles Next V) (malloc : ℕ → List ℕ) where
  abbrev F : Filter World
  F = buffered_interface Next malloc

  -- An object whose file below has not changed.
  still :
      (that : Buffered Next) (w w' : World)
      → IsBuffered Next V that w
      → V.IsOpen that.next w'
      → V.contents that.next w' ≡ V.contents that.next w
      → V.pos that.next w' ≡ V.pos that.next w
      → IsBuffered Next V that w'
  still that w w' h o same moved =
      let all : contents_of Next V that w' ≡ contents_of Next V that w =
        ap
          (λ c.
            if that.dirty then splice that.buf_position (take that.buf_actual that.buf) c else c)
          same in
      let size = ap (length {0}) all in
      record {
        below = o;
        block_pos = h.block_pos;
        block_le = h.block_le;
        buf_size = h.buf_size;
        aligned = h.aligned;
        filled = h.filled;
        behind = h.behind;
        in_block = h.in_block;
        in_file = omega (arith, h.in_file);
        short = omega (arith, h.short);
        whole = rw size h.whole;
        reads_below = h.reads_below;
        state = rw (same, moved) h.state;
      }

  module _ (that : Buffered Next) (c : List ℕ) (p : ℕ) where
    abbrev pub view : FileView F
    view = beside F (buffered_view Next V L malloc) (λ a b w. T.Apart a.next b.next w) that c p

    -- The file below, beside that of `that` as it is in a given world.
    abbrev below : World → FileView Next
    below w = beside Next V T.Apart that.next (V.contents that.next w) (V.pos that.next w)

    abbrev framed : (w : World) → IsByteFile Next (below w)
    framed w = T.framed that.next (V.contents that.next w) (V.pos that.next w)

    streams : (w : World) → IsByteFile F (buffered_view Next (below w) (framed w) malloc)
    streams w = buffered-IsByteFile Next (below w) (framed w) malloc

    toward :
        (this : Buffered Next) (w : World) → view.IsOpen this w → IsBuffered Next (below w) this w
    toward this w o =
        let h = o.0 in
        record {
          below = (h.below, o.1, o.2.below, refl, refl);
          block_pos = h.block_pos;
          block_le = h.block_le;
          buf_size = h.buf_size;
          aligned = h.aligned;
          filled = h.filled;
          behind = h.behind;
          in_block = h.in_block;
          in_file = h.in_file;
          short = h.short;
          whole = h.whole;
          reads_below = h.reads_below;
          state = h.state;
        }

    back :
        (this this' : Buffered Next) (w w' : World)
        → view.IsOpen this w
        → IsBuffered Next (below w) this' w'
        → view.IsOpen this' w'
    back this this' w w' o h =
        let all =
          ap
            (λ c.
              if that.dirty then splice that.buf_position (take that.buf_actual that.buf) c else c)
            h.below.3 in
        (
          record {
            below = h.below.0;
            block_pos = h.block_pos;
            block_le = h.block_le;
            buf_size = h.buf_size;
            aligned = h.aligned;
            filled = h.filled;
            behind = h.behind;
            in_block = h.in_block;
            in_file = h.in_file;
            short = h.short;
            whole = h.whole;
            reads_below = h.reads_below;
            state = h.state;
          },
          h.below.1,
          still that w w' o.2 h.below.2 h.below.3 h.below.4,
          all ∙ o.3,
          o.4,
        )

    sought :
        (this : Buffered Next) (w : World) (target landing : ℕ)
        → view.IsOpen this w
        → SeekStep F (buffered_view Next (below w) (framed w) malloc) this w target landing
        → SeekStep F view this w target landing
    sought this w target landing o s = record {
      this' = s.this';
      w' = s.w';
      returns = s.returns;
      opened = back this s.this' w s.w' o s.opened;
      same = s.same;
      moved = s.moved;
    }

    -- Over a filter whose objects are different files of bytes, a Buffered object beside another one,
    -- over a different file, is a file of bytes: and its reads, writes and seeks leave the other one's
    -- abstract contents and position, and its invariant.
    pub buffered_beside-IsByteFile : IsByteFile F view
    buffered_beside-IsByteFile = record {
      pos_in = λ this w o. o.0.in_file;
      bounded = λ this w o. o.0.short;
      stall_le = λ this w o. (streams w).stall_le this w (toward this w o);
      reads = λ this w size o n l.
          let s = (streams w).reads this w size (toward this w o) n l in
          record {
            count = s.count;
            this' = s.this';
            error' = s.error';
            w' = s.w';
            returns = s.returns;
            within = s.within;
            in_file = s.in_file;
            opened = back this s.this' w s.w' o s.opened;
            same = s.same;
            moved = s.moved;
            outcome = s.outcome;
          };
      writes = λ this w buf o n l.
          let s = (streams w).writes this w buf (toward this w o) n l in
          record {
            count = s.count;
            this' = s.this';
            w' = s.w';
            returns = s.returns;
            progress = s.progress;
            within = s.within;
            opened = back this s.this' w s.w' o s.opened;
            written = s.written;
            moved = s.moved;
          };
      seeks = λ this w q o l. sought this w q q o ((streams w).seeks this w q (toward this w o) l);
      seek_end = λ this w o.
          sought this w file_end_position (length (contents_of Next V this w)) o
            ((streams w).seek_end this w (toward this w o));
    }

  -- Streams over different files.
  abbrev pub buffered-TwoFiles : TwoFiles F (buffered_view Next V L malloc)
  buffered-TwoFiles = record {
    Apart = λ a b w. T.Apart a.next b.next w;
    apart_sym = λ a b w. T.apart_sym a.next b.next w;
    framed = buffered_beside-IsByteFile;
  }
