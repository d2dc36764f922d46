-- ===== src/File/Buffered/Prepare.antt =====
-- bufferedWrite readies a buffer: it is filled, and the file below goes back to its start.
use temp_files.Base.{
  ◌+◌, ◌≤◌, ◌≡◌, ◌⊎◌, inl, inr, refl, ap, Option, some, length, take, splice, ◌==◌, arith,
  splice_self, Bool-cases,
}
use temp_files.Common.Errors.{Error, error_ok}
use temp_files.Common.Filter.{Filter}
use temp_files.Common.ByteFile.{FileView, IsByteFile}
use temp_files.File.Buffered.State.{Buffered}
use temp_files.File.Buffered.Writing.{fill_for_write, seek_for_write}
use temp_files.File.Buffered.View.{contents_of, IsBuffered}
use temp_files.File.Buffered.Refill.{fill_buffer-Filled}

module _ {World : Type 0} (Next : Filter World) (V : FileView Next) (L : IsByteFile Next V) where
  -- The buffer holds all that the file has of its block, up to the position at least.
  pub record Ready (this : Buffered Next) (w : World) (r : Option (Buffered Next × Error × World))
      : Type 0 where
    pub this' : Buffered Next
    pub w' : World
    pub returns : r ≡ some (this', error_ok, w')
    pub holds : IsBuffered Next V this' w'
    pub same : contents_of Next V this' w' ≡ contents_of Next V this w
    pub still : this'.position ≡ this.position
    pub start : this'.buf_position ≡ this.buf_position
    pub block : this'.block_size ≡ this.block_size
    pub covered : this'.position ≤ this'.buf_position + this'.buf_actual
    pub last :
        (this'.buf_actual ≡ this'.block_size)
        ⊎ (length (contents_of Next V this' w') ≤ this'.buf_position + this'.buf_actual)

  pub fill_for_write-Ready :
      (this : Buffered Next) (w : World)
      → IsBuffered Next V this w
      → Ready this w (fill_for_write Next this error_ok w)
  unfolding fill_for_write
  fill_for_write-Ready this w h = elim (Bool-cases (this.buf_actual == 0)) [
    | inl empty ↦
        let f = fill_buffer-Filled Next V L this w h (ground arith) in
        let size = ap (length {0}) f.same in
        record {
          this' = f.this';
          w' = f.w';
          returns = ground (arith, f.returns, f.outcome, h.reads_below);
          holds = f.holds;
          same = f.same;
          still = f.still;
          start = f.start;
          block = f.block;
          covered = ground (arith, f.outcome, f.holds.in_block, h.in_file, f.still, f.start);
          last = ground (arith, f.outcome, f.holds.whole, size, f.start);
        }
    | inr held ↦ record {
      this' = this;
      w' = w;
      returns = ground arith;
      holds = h;
      same = refl;
      still = refl;
      start = refl;
      block = refl;
      covered = ground (arith, h.in_block);
      last = ground (arith, h.whole);
    }
  ]

  -- The file below stands at the start of the buffer; with the buffer over it, it is the abstract file.
  pub record Prepared (this : Buffered Next) (w : World)
      (r : Option (Buffered Next × Error × World)) : Type 0 where
    pub next' : Next.This
    pub w' : World
    pub returns : r ≡ some (record this { next = next' }, error_ok, w')
    pub below : V.IsOpen next' w'
    pub at : V.pos next' w' ≡ this.buf_position
    pub in_below : this.buf_position ≤ length (V.contents next' w')
    pub overlay :
        splice this.buf_position (take this.buf_actual this.buf) (V.contents next' w')
        ≡ contents_of Next V this w

  pub seek_for_write-Prepared :
      (this : Buffered Next) (w : World)
      → IsBuffered Next V this w
      → Prepared this w (seek_for_write Next this error_ok w)
  unfolding seek_for_write
  seek_for_write-Prepared this w h = elim h.state [
    | inl (d, n, p) ↦ record {
      next' = this.next;
      w' = w;
      returns = ground arith;
      below = h.below;
      at = p;
      in_below = omega (arith, L.pos_in this.next w h.below);
      overlay = rw d;
    }
    | inr (d, p, c) ↦
        let inside : this.buf_position + this.buf_actual ≤ length (V.contents this.next w) =
          omega (arith, L.pos_in this.next w h.below) in
        let s = L.seeks this.next w this.buf_position h.below (omega arith) in
        record {
          next' = s.this';
          w' = s.w';
          returns = ground (arith, s.returns);
          below = s.opened;
          at = s.moved;
          in_below = omega (arith, ap (length {0}) s.same);
          overlay =
              rw (s.same, d)
                (splice_self this.buf_position this.buf_actual (take this.buf_actual this.buf)
                  (V.contents this.next w) inside c);
        }
  ]
