-- ===== src/File/Buffered/ReadLaws.antt =====
-- bufferedRead on every branch: it reads from the abstract file.
use temp_files.Base.{
  ℕ, ◌+◌, ◌≤◌, ◌<◌, ◌≡◌, ◌⊎◌, inl, inr, refl, sym, ◌∙◌, ap, ◌&&◌, ◌||◌, Option, some, List, [],
  length, ltb, ◌==◌, if◌then◌else◌, add_size, add_size-eq, arith, Bool-cases,
}
use temp_files.Base.OptionMonad.{◌>>=◌}
use temp_files.Common.Errors.{Error, is_error, error_ok, error_eof, set_error}
use temp_files.Common.Filter.{Filter}
use temp_files.Common.ByteFile.{FileView, IsByteFile, max_size}
use temp_files.File.Buffered.State.{Buffered}
use temp_files.File.Buffered.Buffer.{fill_buffer, next_block}
use mathlib.Core.Path.{subst}
use temp_files.File.Buffered.Reading.{read_on, buffered_read, take_out, direct_read}
use temp_files.File.Buffered.View.{contents_of, IsBuffered, buffer_in_file}
use temp_files.File.Buffered.Refill.{next_block-Advanced, fill_buffer-Filled}
use temp_files.File.Buffered.CopyOut.{ReadAs, taken, take_out-ReadAs}
use temp_files.File.Buffered.DirectReads.{direct_read-ReadAs}

module _ {World : Type 0} (Next : Filter World) (V : FileView Next) (L : IsByteFile Next V) where
  -- A read may return nothing once where the buffer is empty, or will be before the next read.
  abbrev pub stall_of : Buffered Next → ℕ
  stall_of this =
      if this.buf_actual == 0
        || (this.buf_actual == this.block_size
            && this.position == this.buf_position + this.buf_actual)
      then 1
      else 0

  abbrev pub Outcome : Buffered Next → World → ℕ → Buffered Next → Error → Type 0
  Outcome this w count this' error' =
      ((error' ≡ error_ok) × (0 < count))
      ⊎ ((error' ≡ error_ok) × (count ≡ 0) × (stall_of this' < stall_of this))
      ⊎ ((error' ≡ error_eof) × (count ≡ 0) × (this.position ≡ length (contents_of Next V this w)))

  pub record ReadCounted (this : Buffered Next) (w : World) (size : ℕ)
      (r : Option (List ℕ × Buffered Next × Error × World)) : Type 0 where
    pub count : ℕ
    pub read : ReadAs Next V L this w size count r
    pub outcome : Outcome this w count read.this' read.error'

  read_buffer :
      (this : Buffered Next) (w : World) (size : ℕ)
      → IsBuffered Next V this w
      → 0 < this.buf_actual
      → this.position < this.buf_position + this.buf_actual
      → 0 < size
      → ReadCounted this w size (take_out Next this size error_ok w)
  read_buffer this w size h n p s =
      let (r, ok, n', q', b') = take_out-ReadAs Next V L this w size h n (omega arith) in
      record { count = taken this size; read = r; outcome = inl (ok, omega arith) }

  -- What a state that stands for the same file reads, the first one reads.
  transfer :
      {this at : Buffered Next} {w w' : World} (size count : ℕ)
      → contents_of Next V at w' ≡ contents_of Next V this w
      → at.position ≡ this.position
      → {r : Option (List ℕ × Buffered Next × Error × World)} → ReadAs Next V L at w' size count r
      → ReadAs Next V L this w size count r
  transfer {this} {at} {w} {w'} size count same still x = record {
    this' = x.this';
    error' = x.error';
    w' = x.w';
    returns = x.returns ∙ ap (λ b. some (b, x.this', x.error', x.w')) (rw (same, still));
    within = x.within;
    in_file = omega (arith, x.in_file, still, ap (length {0}) same);
    holds = x.holds;
    same = x.same ∙ same;
    moved = x.moved ∙ ap (λ p. p + count) still;
  }

  -- An empty buffer is filled first.
  read_filled : Buffered Next → ℕ → World → Option (List ℕ × Buffered Next × Error × World)
  read_filled this size w = do
    (failed, this', error', w') ← fill_buffer Next this error_ok w
    if failed then some ([], this', error', w') else take_out Next this' size error' w'

  read_filled-ReadCounted :
      (this : Buffered Next) (w : World) (size : ℕ)
      → IsBuffered Next V this w
      → this.buf_actual ≡ 0
      → 0 < size
      → ReadCounted this w size (read_filled this size w)
  unfolding read_filled is_error
  read_filled-ReadCounted this w size h n s =
      let f = fill_buffer-Filled Next V L this w h n in
      elim f.outcome [
        | inl (ok, some_bytes) ↦
            let in_it : f.this'.position ≤ f.this'.buf_position + f.this'.buf_actual =
              ground (arith, f.holds.in_block) in
            let (r, r_ok, n', q', b') =
              take_out-ReadAs Next V L f.this' f.w' size f.holds some_bytes in_it in
            record {
              count = taken f.this' size;
              read =
                  transfer {at = f.this'} {w' = f.w'} size (taken f.this' size) f.same f.still
                    (rw (f.returns, ok) r);
              outcome = ground (
                arith, r_ok, n', q', b', r.moved, f.still, f.start, f.block, h.in_block,
                f.holds.in_block,
              );
            }
        | inr (eof, none_left, at_end) ↦ record {
          count = 0;
          read = record {
            this' = f.this';
            error' = error_eof;
            w' = f.w';
            returns = rw (f.returns, eof);
            within = omega arith;
            in_file = omega (arith, h.in_file);
            holds = f.holds;
            same = f.same;
            moved = omega (arith, f.still);
          };
          outcome = inr (inr (refl, refl, omega (arith, h.in_file, h.behind)));
        }
      ]

  -- bufferedRead from a state that is not at the end of its data.
  read_on-ReadCounted :
      (this : Buffered Next) (w : World) (size : ℕ)
      → IsBuffered Next V this w
      → 0 < size
      → size ≤ max_size
      → (this.buf_actual ≡ 0)
        ⊎ ((0 < this.buf_actual) × (this.position < this.buf_position + this.buf_actual))
      → ReadCounted this w size (read_on Next this size error_ok w)
  unfolding read_on read_filled
  read_on-ReadCounted this w size h s m (inr (n, p)) =
      let e : read_on Next this size error_ok w ≡ take_out Next this size error_ok w =
        ground arith in
      subst (ReadCounted this w size) (sym e) (read_buffer this w size h n p s)
  read_on-ReadCounted this w size h s m (inl n) =
      elim (Bool-cases (this.position == this.buf_position && ltb this.block_size size)) [
        | inl direct ↦
            let e : read_on Next this size error_ok w ≡ direct_read Next this size error_ok w =
              ground arith in
            let (r, o, b', q', n') =
              direct_read-ReadAs Next V L this w size h n (ground arith) (ground arith) m in
            subst (ReadCounted this w size) (sym e)
              (record { count = _; read = r; outcome = ground (arith, o, b', q', n') })
        | inr fill ↦
            let e : read_on Next this size error_ok w ≡ read_filled this size w = ground arith in
            subst (ReadCounted this w size) (sym e) (read_filled-ReadCounted this w size h n s)
      ]

  at_partial_end :
      (this : Buffered Next) (w : World) (size : ℕ)
      → IsBuffered Next V this w
      → 0 < this.buf_actual
      → this.buf_actual < this.block_size
      → this.position ≡ this.buf_position + this.buf_actual
      → ReadCounted this w size (some ([], this, error_eof, w))
  at_partial_end this w size h n b p = record {
    count = 0;
    read = record {
      this' = this;
      error' = error_eof;
      w' = w;
      returns = refl;
      within = omega arith;
      in_file = omega (arith, h.in_file);
      holds = h;
      same = refl;
      moved = omega arith;
    };
    outcome = inr (inr (refl, refl, omega (arith, h.whole, buffer_in_file Next V L h)));
  }

  read_next : Buffered Next → ℕ → World → Option (List ℕ × Buffered Next × Error × World)
  read_next this size w = do
    (at_block, error', w') ← next_block Next this error_ok w
    read_on Next at_block size error' w'

  read_next-ReadCounted :
      (this : Buffered Next) (w : World) (size : ℕ)
      → IsBuffered Next V this w
      → 0 < size
      → size ≤ max_size
      → this.buf_actual ≡ this.block_size
      → this.position ≡ this.buf_position + this.buf_actual
      → ReadCounted this w size (read_next this size w)
  unfolding read_next
  read_next-ReadCounted this w size h s m n p =
      let a = next_block-Advanced Next V L this w h n (omega arith) in
      let x = read_on-ReadCounted a.this' a.w' size a.holds s m (inl a.empty) in
      record {
        count = x.count;
        read =
            transfer {at = a.this'} {w' = a.w'} size x.count a.same a.still (rw a.returns x.read);
        outcome = ground (arith, x.outcome, a.still, a.empty, h.block_pos, ap (length {0}) a.same);
      }

  -- bufferedRead of some bytes returns, on every branch: it hands over the next bytes of the abstract
  -- file, never more than asked for, moves the position by their number, keeps the contents and the
  -- invariant, and says EOF only where there are no more bytes.
  pub buffered_read-ReadCounted :
      (this : Buffered Next) (w : World) (size : ℕ)
      → IsBuffered Next V this w
      → 0 < size
      → size ≤ max_size
      → ReadCounted this w size (buffered_read Next this size error_ok w)
  unfolding buffered_read set_error read_next
  buffered_read-ReadCounted this w size h s m =
      let sum =
        add_size-eq this.buf_position this.buf_actual
          (omega (arith, buffer_in_file Next V L h, h.short)) in
      elim (Bool-cases
        (this.position == add_size this.buf_position this.buf_actual && ltb 0 this.buf_actual)) [
          | inl end ↦ elim (Bool-cases (ltb this.buf_actual this.block_size)) [
            | inl partial ↦
                let e : buffered_read Next this size error_ok w ≡ some ([], this, error_eof, w) =
                  ground arith in
                subst (ReadCounted this w size) (sym e)
                  (at_partial_end this w size h (ground arith) (ground arith) (ground (arith, sum)))
            | inr full ↦
                let e : buffered_read Next this size error_ok w ≡ read_next this size w =
                  ground arith in
                subst (ReadCounted this w size) (sym e) (
                  read_next-ReadCounted this w size h s m (ground (arith, h.filled))
                    (ground (arith, sum)))
          ]
          | inr inside ↦
              let e : buffered_read Next this size error_ok w ≡ read_on Next this size error_ok w =
                ground arith in
              subst (ReadCounted this w size) (sym e)
                (read_on-ReadCounted this w size h s m (ground (arith, sum, h.in_block)))
        ]
