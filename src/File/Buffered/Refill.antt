-- ===== src/File/Buffered/Refill.antt =====
-- The buffer moves to the next block, and is filled.
use temp_files.Base.{
  ℕ, ◌+◌, ◌-◌, ◌≤◌, ◌<◌, ◌≡◌, ◌⊎◌, inl, inr, refl, sym, ◌∙◌, ap, min, Bool, false, Option, some,
  List, length, take, drop, splice, add_size, add_size-eq, arith, length-take, length-drop,
  length-splice, take-drop-splice, mod-add_self, take-length-take,
}
use temp_files.Common.Errors.{Error, is_error, error_ok, error_eof}
use temp_files.Common.Filter.{Filter}
use temp_files.Common.ByteFile.{FileView, IsByteFile}
use temp_files.Common.PassThrough.Reads.{pass_through_read_all-AllRead}
use temp_files.File.Buffered.State.{Buffered}
use temp_files.File.Buffered.Buffer.{fill_buffer, next_block}
use temp_files.File.Buffered.View.{contents_of, BufferState, IsBuffered}
use temp_files.File.Buffered.Flush.{flush_buffer-Flushed}

module _ {World : Type 0} (Next : Filter World) (V : FileView Next) (L : IsByteFile Next V) where
  -- The buffer is empty, and the position is at its start.
  pub record Advanced (this : Buffered Next) (w : World)
      (r : Option (Buffered Next × Error × World)) : Type 0 where
    pub this' : Buffered Next
    pub w' : World
    pub returns : r ≡ some (this', error_ok, w')
    pub holds : IsBuffered Next V this' w'
    pub same : contents_of Next V this' w' ≡ contents_of Next V this w
    pub still : this'.position ≡ this.position
    pub block : this'.block_size ≡ this.block_size
    pub empty : this'.buf_actual ≡ 0
    pub at_start : this'.buf_position ≡ this'.position

  pub next_block-Advanced :
      (this : Buffered Next) (w : World)
      → IsBuffered Next V this w
      → this.buf_actual ≡ this.block_size
      → this.position ≡ this.buf_position + this.block_size
      → Advanced this w (next_block Next this error_ok w)
  unfolding next_block
  next_block-Advanced this w h n e =
      let f = flush_buffer-Flushed Next V L this w h in
      let sum = add_size-eq this.buf_position this.block_size (omega (arith, h.in_file, h.short)) in
      let q' = add_size this.buf_position this.block_size in
      record {
        this' = record this {
          next = f.next';
          dirty = false;
          file_size = f.size';
          buf_position = q';
          buf_actual = 0;
        };
        w' = f.w';
        returns = rw f.returns;
        holds = record {
          below = f.below;
          block_pos = h.block_pos;
          block_le = h.block_le;
          buf_size = h.buf_size;
          aligned = rw sum (mod-add_self this.buf_position this.block_size h.block_pos h.aligned);
          filled = omega arith;
          behind = omega (arith, sum);
          in_block = inr (refl, omega (arith, sum, h.block_pos));
          in_file = rw f.same h.in_file;
          short = rw f.same h.short;
          whole = inl refl;
          reads_below = h.reads_below;
          state = inr (refl, omega (arith, f.moved, sum), refl);
        };
        same = f.same;
        still = refl;
        block = refl;
        empty = refl;
        at_start = omega (arith, sum);
      }

  -- An empty buffer is filled: it holds the block at its position, or what there is of it. The
  -- error is EOF exactly if there is nothing.
  pub record Filled (this : Buffered Next) (w : World)
      (r : Option (Bool × Buffered Next × Error × World)) : Type 0 where
    pub this' : Buffered Next
    pub error' : Error
    pub w' : World
    pub returns : r ≡ some (is_error error', this', error', w')
    pub holds : IsBuffered Next V this' w'
    pub same : contents_of Next V this' w' ≡ contents_of Next V this w
    pub still : this'.position ≡ this.position
    pub start : this'.buf_position ≡ this.buf_position
    pub block : this'.block_size ≡ this.block_size
    pub clean : this'.dirty ≡ false
    pub outcome :
        ((error' ≡ error_ok) × (0 < this'.buf_actual))
        ⊎ ((error' ≡ error_eof)
            × (this'.buf_actual ≡ 0)
            × (this.buf_position ≡ length (contents_of Next V this w)))

  -- An empty buffer is clean.
  pub empty_clean :
      {this : Buffered Next} {w : World}
      → IsBuffered Next V this w
      → this.buf_actual ≡ 0
      → (this.dirty ≡ false) × (V.pos this.next w ≡ this.buf_position)
  empty_clean h e = elim h.state [
    | inl (d, p, x) ↦ absurd (omega arith)
    | inr (d, x, c) ↦ (d, omega arith)
  ]

  -- The state after a fill that read `bytes` below.
  module _ (this : Buffered Next) (w : World) (h : IsBuffered Next V this w)
      (n : this.buf_actual ≡ 0) (clean : this.dirty ≡ false) (bytes : List ℕ)
      (e : bytes ≡ take this.block_size (drop this.buf_position (V.contents this.next w))) where
    length-bytes :
        length bytes ≡ min this.block_size (length (V.contents this.next w) - this.buf_position)
    length-bytes = rw e (
        omega (
          arith,
          length-take this.block_size (drop this.buf_position (V.contents this.next w)),
          length-drop this.buf_position (V.contents this.next w),
        ))

    contents-clean : contents_of Next V this w ≡ V.contents this.next w
    contents-clean = rw clean

    start_in_file : this.buf_position ≤ length (V.contents this.next w)
    start_in_file = omega (arith, h.behind, h.in_file, ap (length {0}) contents-clean)

    abbrev filled : Next.This → Buffered Next
    filled next' = record this {
      next = next';
      buf = splice 0 bytes this.buf;
      buf_actual = length bytes;
    }

    filled_same :
        (next' : Next.This) (w' : World)
        → V.contents next' w' ≡ V.contents this.next w
        → contents_of Next V (filled next') w' ≡ contents_of Next V this w
    filled_same next' w' same = rw clean same

    filled_state :
        (next' : Next.This) (w' : World)
        → V.contents next' w' ≡ V.contents this.next w
        → V.pos next' w'
          ≡ min (this.buf_position + this.block_size) (length (V.contents this.next w))
        → BufferState Next V (filled next') w'
    filled_state next' w' same moved = inr (
      clean,
      omega (arith, length-bytes, moved, start_in_file),
      take-drop-splice 0 (length bytes) bytes this.buf (omega arith) refl
          ∙ rw same (
              e
              ∙ sym (
                  take-length-take this.block_size
                    (drop this.buf_position (V.contents this.next w)))
              ∙ ap (λ b. take (length b) (drop this.buf_position (V.contents this.next w)))
                  (sym e)),
    )

    filled-IsBuffered :
        (next' : Next.This) (w' : World)
        → V.IsOpen next' w'
        → V.contents next' w' ≡ V.contents this.next w
        → V.pos next' w'
          ≡ min (this.buf_position + this.block_size) (length (V.contents this.next w))
        → IsBuffered Next V (filled next') w'
    filled-IsBuffered next' w' below same moved =
        let same' = filled_same next' w' same in
        let size = ap (length {0}) contents-clean in
        let size' = ap (length {0}) same' in
        record {
          below = below;
          block_pos = h.block_pos;
          block_le = h.block_le;
          buf_size = omega (arith, length-splice 0 bytes this.buf, h.buf_size, length-bytes);
          aligned = h.aligned;
          filled = omega (arith, length-bytes);
          behind = h.behind;
          in_block = ground (arith, length-bytes, h.in_block, h.in_file, size, start_in_file);
          in_file = omega (arith, h.in_file, size');
          short = omega (arith, h.short, size');
          whole = ground (arith, length-bytes, size, size', start_in_file);
          reads_below = h.reads_below;
          state = filled_state next' w' same moved;
        }

  -- fillBuffer at a well-formed object with an empty buffer returns a well-formed, clean object with the
  -- same abstract contents, position and block. Either there is no error and the buffer holds data, or
  -- the error is EOF, the buffer is empty and the block starts at the end of the file.
  pub fill_buffer-Filled :
      (this : Buffered Next) (w : World)
      → IsBuffered Next V this w
      → this.buf_actual ≡ 0
      → Filled this w (fill_buffer Next this error_ok w)
  unfolding fill_buffer
  fill_buffer-Filled this w h n =
      let (d, at) = empty_clean h n in
      let c = V.contents this.next w in
      let rd =
        pass_through_read_all-AllRead Next V L this.next w this.block_size h.below h.block_le in
      let bytes = take this.block_size (drop (V.pos this.next w) c) in
      let e : bytes ≡ take this.block_size (drop this.buf_position c) =
        ap (λ p. take this.block_size (drop p c)) at in
      let moved : V.pos rd.this' rd.w' ≡ min (this.buf_position + this.block_size) (length c) =
        omega (arith, rd.moved, at) in
      record {
        this' = filled this w h n d bytes e rd.this';
        error' = rd.error';
        w' = rd.w';
        returns = rw (d, rd.returns);
        holds = filled-IsBuffered this w h n d bytes e rd.this' rd.w' rd.opened rd.same moved;
        same = filled_same this w h n d bytes e rd.this' rd.w' rd.same;
        still = refl;
        start = refl;
        block = refl;
        clean = d;
        outcome = ground (
          arith,
          rd.status,
          length-bytes this w h n d bytes e,
          at,
          h.block_pos,
          ap (length {0}) (contents-clean this w h n d bytes e),
          start_in_file this w h n d bytes e,
        );
      }
