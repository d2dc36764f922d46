-- ===== src/File/Buffered/WriteLaws.antt =====
-- bufferedWrite on every branch: it writes into the abstract file.
use temp_files.Base.{
  ℕ, ◌+◌, ◌-◌, ◌%◌, ◌≤◌, ◌<◌, ◌≡◌, ◌⊎◌, inl, inr, refl, ◌∙◌, ap, max, true, false, ◌&&◌, Option,
  some, List, length, take, splice, ltb, leb, ◌==◌, if◌then◌else◌, add_size, add_size-eq, arith,
  length-take, length-splice, splice-take-splice, lt→ltb, mod-sub_mod, mod-add, sub-mod_ge,
  Bool-cases,
}
use temp_files.Common.Errors.{Error, error_ok}
use temp_files.Common.Filter.{Filter, size_round_down}
use temp_files.Common.ByteFile.{FileView, IsByteFile, max_size}
use temp_files.Common.PassThrough.{pass_through_write_all}
use temp_files.Common.PassThrough.Writes.{AllWritten, pass_through_write_all-AllWritten}
use temp_files.File.Buffered.State.{Buffered}
use temp_files.File.Buffered.Buffer.{copy_in}
use native.Mathlib.Nat.{le_refl}
use temp_files.File.Buffered.Writing.{direct_write, buffer_write, buffered_write}
use temp_files.File.Buffered.View.{contents_of, IsBuffered}
use temp_files.File.Buffered.Refill.{empty_clean, next_block-Advanced}
use temp_files.File.Buffered.CopyIn.{room, copied, copy_in_lem}
use temp_files.File.Buffered.Prepare.{fill_for_write-Ready, Prepared, seek_for_write-Prepared}

module _ {World : Type 0} (Next : Filter World) (V : FileView Next) (L : IsByteFile Next V) where
  pub record WriteCounted (this : Buffered Next) (w : World) (x : List ℕ)
      (r : Option (ℕ × Buffered Next × Error × World)) : Type 0 where
    pub count : ℕ
    pub this' : Buffered Next
    pub w' : World
    pub returns : r ≡ some (count, this', error_ok, w')
    pub progress : 0 < count
    pub within : count ≤ length x
    pub holds : IsBuffered Next V this' w'
    pub written :
        contents_of Next V this' w'
        ≡ splice this.position (take count x) (contents_of Next V this w)
    pub moved : this'.position ≡ this.position + count

  -- What a state that stands for the same file writes, the first one writes.
  transfer :
      {this at : Buffered Next} {w w' : World} (x : List ℕ)
      → contents_of Next V at w' ≡ contents_of Next V this w
      → at.position ≡ this.position
      → {r : Option (ℕ × Buffered Next × Error × World)} → WriteCounted at w' x r
      → WriteCounted this w x r
  transfer {this} {at} {w} {w'} x same still d = record {
    count = d.count;
    this' = d.this';
    w' = d.w';
    returns = d.returns;
    progress = d.progress;
    within = d.within;
    holds = d.holds;
    written = d.written ∙ rw (same, still);
    moved = d.moved ∙ ap (λ i. i + d.count) still;
  }

  -- Through a buffer that is ready.
  module _ (this : Buffered Next) (w : World) (x : List ℕ) (h : IsBuffered Next V this w)
      (some_bytes : 0 < length x) (fits : this.position + length x ≤ max_size)
      (covered : this.position ≤ this.buf_position + this.buf_actual)
      (free : this.position < this.buf_position + this.block_size)
      (last : (this.buf_actual ≡ this.block_size)
        ⊎ (length (contents_of Next V this w) ≤ this.buf_position + this.buf_actual))
      {r : Option (Buffered Next × Error × World)} (p : Prepared Next V L this w r) where
    abbrev k : ℕ
    k = room Next this x

    abbrev done : Buffered Next
    done = record (copied Next this x) {
      next = p.next';
      dirty = true;
      position = this.position + k;
    }

    size_buf' : length done.buf ≡ this.block_size
    size_buf' = omega (
      arith,
      h.buf_size,
      h.behind,
      length-take k x,
      length-splice (this.position - this.buf_position) (take k x) this.buf,
    )

    written' :
        contents_of Next V done p.w' ≡ splice this.position (take k x) (contents_of Next V this w)
    written' =
        splice-take-splice this.buf_position this.position this.buf_actual
          (max this.buf_actual (k + (this.position - this.buf_position))) (take k x) this.buf
          (V.contents p.next' p.w') p.in_below h.behind covered
          (omega (arith, h.filled, h.buf_size))
          (omega (arith, h.buf_size, h.behind, length-take k x)) (omega (arith, length-take k x))
        ∙ ap (splice this.position (take k x)) p.overlay

    length-written :
        length (contents_of Next V done p.w')
        ≡ max (length (contents_of Next V this w)) (this.position + k)
    length-written =
        ap (length {0}) written'
        ∙ omega (
          arith,
          length-splice this.position (take k x) (contents_of Next V this w) h.in_file,
          length-take k x,
        )

    done-IsBuffered : IsBuffered Next V done p.w'
    done-IsBuffered = record {
      below = p.below;
      block_pos = h.block_pos;
      block_le = h.block_le;
      buf_size = size_buf';
      aligned = h.aligned;
      filled = omega (arith, h.filled, h.behind);
      behind = omega (arith, h.behind);
      in_block = inl (omega (arith, h.behind), omega (arith, h.behind));
      in_file = omega (arith, length-written);
      short = omega (arith, length-written, h.short);
      whole = ground (arith, length-written, last, h.filled, h.behind);
      reads_below = h.reads_below;
      state = inl (refl, omega (arith, h.behind), p.at);
    }

    -- What the code computes there.
    copied_in :
        copy_in Next (record this { next = p.next' }) x
        ≡ some (k, copied Next (record this { next = p.next' }) x)
    copied_in =
        copy_in_lem Next (record this { next = p.next' }) x h.behind (omega arith)
          (omega (arith, h.in_file, h.short)) h.block_le h.filled

    position-k : add_size this.position k ≡ this.position + k
    position-k = add_size-eq this.position k (omega arith)

    done-WriteCounted :
        {s : Option (ℕ × Buffered Next × Error × World)}
        → s ≡ some (k, done, error_ok, p.w')
        → WriteCounted this w x s
    done-WriteCounted e = record {
      count = k;
      this' = done;
      w' = p.w';
      returns = e;
      progress = omega (arith, h.behind);
      within = omega arith;
      holds = done-IsBuffered;
      written = written';
      moved = refl;
    }

  buffer_write-returns :
      (this : Buffered Next) (w : World) (x : List ℕ)
      → IsBuffered Next V this w
      → 0 < length x
      → this.position + length x ≤ max_size
      → this.position < this.buf_position + this.block_size
      → WriteCounted this w x (buffer_write Next this x error_ok w)
  unfolding buffer_write
  buffer_write-returns this w x h n fits free =
      let f = fill_for_write-Ready Next V L this w h in
      let p = seek_for_write-Prepared Next V L f.this' f.w' f.holds in
      let free' : f.this'.position < f.this'.buf_position + f.this'.block_size =
        omega (arith, f.still, f.start, f.block) in
      let fits' : f.this'.position + length x ≤ max_size = omega (arith, f.still) in
      let c = copied_in f.this' f.w' x f.holds n fits' f.covered free' f.last p in
      let q = position-k f.this' f.w' x f.holds n fits' f.covered free' f.last p in
      let pos_k : ltb 0 (room Next f.this' x) ≡ true = ground (arith, f.holds.behind) in
      transfer {at = f.this'} {w' = f.w'} x f.same f.still (
        done-WriteCounted f.this' f.w' x f.holds n fits' f.covered free' f.last p
          (rw (f.returns, p.returns, c, q, pos_k)))

  direct_write_step :
      (this : Buffered Next) (w : World) (x : List ℕ)
      → IsBuffered Next V this w
      → this.position + length x ≤ max_size
      → this.buf_actual ≡ 0
      → this.position ≡ this.buf_position
      → this.block_size ≤ length x
      → this.dirty ≡ false
      → V.pos this.next w ≡ this.buf_position
      → AllWritten Next V L this.next w
          (take (size_round_down (length x) this.block_size) x)
          (length (take (size_round_down (length x) this.block_size) x))
          (pass_through_write_all Next this.next
            (take (size_round_down (length x) this.block_size) x)
            error_ok
            w)
      → WriteCounted this w x (direct_write Next this x error_ok w)
  unfolding direct_write size_round_down
  direct_write_step this w x h fits n start big d at wr =
      let b = this.block_size in
      let k : ℕ = length x - length x % b in
      let blocks = mod-sub_mod (length x) b h.block_pos in
      let ge = sub-mod_ge (length x) b h.block_pos big in
      let size : length (take k x) ≡ k = omega (arith, length-take k x) in
      let p' : add_size this.position (length (take k x)) ≡ this.position + k =
        rw size (add_size-eq this.position k (omega arith)) in
      let on_block : (this.position + k) % b ≡ 0 =
        mod-add this.position k b (rw start h.aligned) blocks in
      let q' : this.position + k - (this.position + k) % b ≡ this.position + k =
        omega (arith, on_block) in
      let all : V.contents wr.this' wr.w'
          ≡ splice this.position (take k x) (contents_of Next V this w) =
        rw d (
          wr.written
          ∙ ap (λ i. splice i (take k x) (V.contents this.next w)) (omega (arith, at, start))) in
      let len : length (V.contents wr.this' wr.w')
          ≡ max (length (contents_of Next V this w)) (this.position + k) =
        ap (length {0}) all
        ∙ omega
            (arith, length-splice this.position (take k x) (contents_of Next V this w) h.in_file) in
      let this' = record this {
        next = wr.this';
        position = this.position + k;
        buf_position = this.position + k;
      } in
      let same : contents_of Next V this' wr.w' ≡ V.contents wr.this' wr.w' = rw d in
      let len' = ap (length {0}) same in
      record {
        count = k;
        this' = this';
        w' = wr.w';
        returns = rw (wr.returns, p', q', size);
        progress = omega (arith, h.block_pos);
        within = omega arith;
        holds = record {
          below = wr.opened;
          block_pos = h.block_pos;
          block_le = h.block_le;
          buf_size = h.buf_size;
          aligned = on_block;
          filled = h.filled;
          behind = le_refl _;
          in_block = inr (n, omega (arith, h.block_pos));
          in_file = omega (arith, len, len');
          short = omega (arith, len, len', h.short);
          whole = inl n;
          reads_below = h.reads_below;
          state = inr (d, omega (arith, wr.moved, at, start), rw n);
        };
        written = same ∙ all;
        moved = refl;
      }

  direct_write-WriteCounted :
      (this : Buffered Next) (w : World) (x : List ℕ)
      → IsBuffered Next V this w
      → this.position + length x ≤ max_size
      → this.buf_actual ≡ 0
      → this.position ≡ this.buf_position
      → this.block_size ≤ length x
      → WriteCounted this w x (direct_write Next this x error_ok w)
  unfolding size_round_down
  direct_write-WriteCounted this w x h fits n start big =
      let (d, at) = empty_clean Next V L h n in
      let b = this.block_size in
      let k : ℕ = length x - length x % b in
      let ge = sub-mod_ge (length x) b h.block_pos big in
      let size : length (take k x) ≡ k = omega (arith, length-take k x) in
      direct_write_step this w x h fits n start big d at (
        pass_through_write_all-AllWritten Next V L this.next w (take k x) h.below
          (omega (arith, h.block_pos)) (omega arith))

  -- bufferedWrite where the position is not behind a full buffer.
  write_on : Buffered Next → List ℕ → World → Option (ℕ × Buffered Next × Error × World)
  write_on this x w =
      let on_block = this.buf_actual == 0 && this.position == this.buf_position in
      let is_direct = on_block && leb this.block_size (length x) in
      if is_direct then direct_write Next this x error_ok w else buffer_write Next this x error_ok w

  write_on-WriteCounted :
      (this : Buffered Next) (w : World) (x : List ℕ)
      → IsBuffered Next V this w
      → 0 < length x
      → this.position + length x ≤ max_size
      → this.position < this.buf_position + this.block_size
      → WriteCounted this w x (write_on this x w)
  unfolding write_on
  write_on-WriteCounted this w x h n fits free =
      let on_block = this.buf_actual == 0 && this.position == this.buf_position in
      let is_direct = on_block && leb this.block_size (length x) in
      elim (Bool-cases is_direct) [
        | inl yes_direct ↦
            rw yes_direct (
              direct_write-WriteCounted this w x h fits (ground arith) (ground arith)
                (ground arith))
        | inr no_direct ↦ rw no_direct (buffer_write-returns this w x h n fits free)
      ]

  -- bufferedWrite of some bytes that fit returns without an error, on every branch: it writes one of
  -- them at least, over the abstract file from the position on, moves the position by their number and
  -- keeps the invariant.
  pub buffered_write-WriteCounted :
      (this : Buffered Next) (w : World) (x : List ℕ)
      → IsBuffered Next V this w
      → 0 < length x
      → this.position + length x ≤ max_size
      → WriteCounted this w x (buffered_write Next this x error_ok w)
  unfolding buffered_write write_on
  buffered_write-WriteCounted this w x h n fits =
      let sum =
        add_size-eq this.buf_position this.block_size
          (omega (arith, h.behind, h.in_file, h.short, h.block_le)) in
      elim (Bool-cases (this.position == add_size this.buf_position this.block_size)) [
        | inl end ↦
            let full : this.position ≡ this.buf_position + this.block_size = ground (arith, sum) in
            let a =
              next_block-Advanced Next V L this w h (ground (arith, h.in_block, h.filled)) full in
            rw (lt→ltb 0 (length x) n, end, a.returns)
              (transfer {at = a.this'} {w' = a.w'} x a.same a.still (
                write_on-WriteCounted a.this' a.w' x a.holds n (omega (arith, a.still))
                  (omega (arith, a.at_start, a.holds.block_pos))))
        | inr inside ↦
            rw (lt→ltb 0 (length x) n, inside)
              (write_on-WriteCounted this w x h n fits (ground (arith, sum, h.in_block, h.filled)))
      ]
