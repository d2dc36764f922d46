-- ===== src/File/Buffered/SeekLaws.antt =====
-- bufferedSeek within the file and to its end.
use temp_files.Base.{
  ℕ, ◌-◌, ◌%◌, ◌≤◌, ◌≡◌, inl, inr, refl, ◌∙◌, ap, false, Option, some, length, ◌==◌, add_size,
  arith, mod-sub_mod, Bool-cases,
}
use temp_files.Base.OptionMonad.{◌>>=◌}
use temp_files.Common.Errors.{Error, is_error, error_ok}
use temp_files.Common.Filter.{Filter, file_end_position, size_max}
use temp_files.Common.ByteFile.{FileView, IsByteFile, SeekStep}
use temp_files.File.Buffered.State.{Buffered}
use temp_files.File.Buffered.Buffer.{flush_buffer}
use native.Mathlib.Nat.{mod-lt, mod-le}
use temp_files.File.Buffered.Control.{find_end, move_to_block, buffered_seek}
use temp_files.File.Buffered.View.{contents_of, IsBuffered}
use temp_files.File.Buffered.Flush.{Flushed, flush_buffer-Flushed}

module _ {World : Type 0} (Next : Filter World) (V : FileView Next) (L : IsByteFile Next V) where
  -- A seek that ends at `target`.
  pub record Sought (this : Buffered Next) (w : World) (target : ℕ)
      (r : Option (ℕ × Buffered Next × Error × World)) : Type 0 where
    pub this' : Buffered Next
    pub w' : World
    pub returns : r ≡ some (target, this', error_ok, w')
    pub holds : IsBuffered Next V this' w'
    pub same : contents_of Next V this' w' ≡ contents_of Next V this w
    pub moved : this'.position ≡ target

  -- An empty buffer at the start of the block of `p`.
  abbrev at_block : Buffered Next → Next.This → ℕ → ℕ → ℕ → Buffered Next
  at_block this next' size' start p = record this {
    next = next';
    dirty = false;
    file_size = size';
    buf_position = start;
    buf_actual = 0;
    position = p;
  }

  at_block-IsBuffered :
      (this : Buffered Next) (w w' : World) (next' : Next.This) (size' start p : ℕ)
      → IsBuffered Next V this w
      → V.IsOpen next' w'
      → V.contents next' w' ≡ contents_of Next V this w
      → V.pos next' w' ≡ start
      → start ≡ p - p % this.block_size
      → p ≤ length (contents_of Next V this w)
      → IsBuffered Next V (at_block this next' size' start p) w'
  at_block-IsBuffered this w w' next' size' start p h o same pos e l =
      let len = ap (length {0}) same in
      let lt = mod-lt p h.block_pos in
      let le = mod-le p this.block_size in
      record {
        below = o;
        block_pos = h.block_pos;
        block_le = h.block_le;
        buf_size = h.buf_size;
        aligned = rw e (mod-sub_mod p this.block_size h.block_pos);
        filled = omega arith;
        behind = omega arith;
        in_block = inr (refl, omega arith);
        in_file = omega (arith, len);
        short = omega (arith, len, h.short);
        whole = inl refl;
        reads_below = h.reads_below;
        state = inr (refl, omega arith, refl);
      }

  -- Within the block of the buffer only the position changes.
  same_block :
      (this : Buffered Next) (w : World) (p : ℕ)
      → IsBuffered Next V this w
      → this.buf_position ≡ p - p % this.block_size
      → p ≤ length (contents_of Next V this w)
      → IsBuffered Next V (record this { position = p }) w
  same_block this w p h e l =
      let lt = mod-lt p h.block_pos in
      let le = mod-le p this.block_size in
      record {
        below = h.below;
        block_pos = h.block_pos;
        block_le = h.block_le;
        buf_size = h.buf_size;
        aligned = h.aligned;
        filled = h.filled;
        behind = omega arith;
        in_block = ground (arith, h.whole);
        in_file = l;
        short = h.short;
        whole = h.whole;
        reads_below = h.reads_below;
        state = h.state;
      }

  -- To another block: flush, seek below, and start with an empty buffer.
  moved_block :
      (this : Buffered Next) (w : World) (p : ℕ)
      → IsBuffered Next V this w
      → (f : Flushed Next V L this w (flush_buffer Next this error_ok w))
      → SeekStep Next V f.next' f.w' (p - p % this.block_size) (p - p % this.block_size)
      → p ≤ length (contents_of Next V this w)
      → Sought this w p (do
        (this', error', w') ← move_to_block Next this (p - p % this.block_size) error_ok w
        some (p, record this' { position = p }, error', w'))
  unfolding move_to_block
  moved_block this w p h f s l = record {
    this' = at_block this s.this' f.size' (p - p % this.block_size) p;
    w' = s.w';
    returns = rw (f.returns, s.returns);
    holds =
        at_block-IsBuffered this w s.w' s.this' f.size' (p - p % this.block_size) p h s.opened
          (s.same ∙ f.same) s.moved refl l;
    same = s.same ∙ f.same;
    moved = refl;
  }

  -- bufferedSeek to a position in the abstract file returns it without an error, in the same block or in
  -- another: the object stands there, well-formed, and its contents are unchanged.
  pub buffered_seek-Sought :
      (this : Buffered Next) (w : World) (p : ℕ)
      → IsBuffered Next V this w
      → p ≤ length (contents_of Next V this w)
      → Sought this w p (buffered_seek Next this p error_ok w)
  unfolding buffered_seek
  buffered_seek-Sought this w p h l =
      let not_end : (p == file_end_position) ≡ false = ground (arith, h.short) in
      elim (Bool-cases (p - p % this.block_size == this.buf_position)) [
        | inl same ↦ record {
          this' = record this { position = p };
          w' = w;
          returns = rw (not_end, same);
          holds = same_block this w p h (ground arith) l;
          same = refl;
          moved = refl;
        }
        | inr other ↦
            let f = flush_buffer-Flushed Next V L this w h in
            let s =
              L.seeks f.next' f.w' (p - p % this.block_size) f.below
                (omega (arith, ap (length {0}) f.same)) in
            rw (not_end, other) (moved_block this w p h f s l)
      ]

  -- A clean buffer has nothing to flush.
  flush_clean :
      (this : Buffered Next) (error : Error) (w : World)
      → this.dirty ≡ false
      → flush_buffer Next this error w
        ≡ some (
          is_error error,
          record this {
            dirty = false;
            file_size = size_max this.file_size (add_size this.buf_position this.buf_actual);
          },
          error,
          w,
        )
  unfolding flush_buffer
  flush_clean this error w d = ground arith

  -- What find_end leaves: an invalid buffer position, so that the block is sought anew.
  abbrev lost : Buffered Next → Next.This → ℕ → Buffered Next
  lost this next' size = record this {
    next = next';
    dirty = false;
    file_size = size;
    buf_position = file_end_position;
  }

  end_block :
      (this : Buffered Next) (w : World) (size : ℕ)
      → IsBuffered Next V this w
      → (f : Flushed Next V L this w (flush_buffer Next this error_ok w))
      → size ≡ length (contents_of Next V this w)
      → (s : SeekStep Next V f.next' f.w' file_end_position size)
      → SeekStep Next V s.this' s.w' (size - size % this.block_size) (size - size % this.block_size)
      → Sought this w size (buffered_seek Next this file_end_position error_ok w)
  unfolding buffered_seek find_end move_to_block
  end_block this w size h f e s t =
      let other : (size - size % this.block_size == file_end_position) ≡ false =
        ground (arith, h.short) in
      let size' = size_max size (add_size file_end_position this.buf_actual) in
      let clean = flush_clean (lost this s.this' size) error_ok s.w' refl in
      record {
        this' = at_block this t.this' size' (size - size % this.block_size) size;
        w' = t.w';
        returns = rw (f.returns, s.returns, other, clean, t.returns);
        holds =
            at_block-IsBuffered this w t.w' t.this' size' (size - size % this.block_size) size h
              t.opened (t.same ∙ s.same ∙ f.same) t.moved refl (omega (arith, e));
        same = t.same ∙ s.same ∙ f.same;
        moved = refl;
      }

  -- bufferedSeek to FILE_END_POSITION returns the size of the abstract file without an error: the object
  -- stands at its end, well-formed, and its contents are unchanged.
  pub buffered_seek_end-Sought :
      (this : Buffered Next) (w : World)
      → IsBuffered Next V this w
      → Sought this w
          (length (contents_of Next V this w))
          (buffered_seek Next this file_end_position error_ok w)
  buffered_seek_end-Sought this w h =
      let f = flush_buffer-Flushed Next V L this w h in
      let v = contents_of Next V this w in
      let len = ap (length {0}) f.same in
      let s : SeekStep Next V f.next' f.w' file_end_position (length v) =
        rw len at (L.seek_end f.next' f.w' f.below) in
      let len' = ap (length {0}) s.same in
      end_block this w (length v) h f refl s (
        L.seeks s.this' s.w' (length v - length v % this.block_size) s.opened
          (omega (arith, len, len')))
