-- ===== src/File/Buffered/CopyOut.antt =====
-- bufferedRead takes bytes from a buffer that is not empty.
use temp_files.Base.{
  ℕ, ◌+◌, ◌-◌, ◌≤◌, ◌<◌, ◌≡◌, inl, refl, min, Option, some, List, length, take, drop, add_size,
  add_size-eq, sub_size-eq, arith, length-take, length-drop, take-drop-window,
}
use temp_files.Common.Errors.{Error, error_ok}
use temp_files.Common.Filter.{Filter, size_min}
use temp_files.Common.ByteFile.{FileView, IsByteFile}
use temp_files.File.Buffered.State.{Buffered}
use temp_files.File.Buffered.Buffer.{copy_out}
use temp_files.File.Buffered.Reading.{take_out}
use temp_files.File.Buffered.View.{contents_of, IsBuffered, buffer_in_file, buffer_same}

module _ {World : Type 0} {Next : Filter World} where
  abbrev pub taken : Buffered Next → ℕ → ℕ
  taken this size = min (this.buf_actual - (this.position - this.buf_position)) size

module _ {World : Type 0} (Next : Filter World) (V : FileView Next) (L : IsByteFile Next V) where
  -- A read that returned `count` bytes from the position on, and moved it.
  pub record ReadAs (this : Buffered Next) (w : World) (size count : ℕ)
      (r : Option (List ℕ × Buffered Next × Error × World)) : Type 0 where
    pub this' : Buffered Next
    pub error' : Error
    pub w' : World
    pub returns :
        r ≡ some (take count (drop this.position (contents_of Next V this w)), this', error', w')
    pub within : count ≤ size
    pub in_file : this.position + count ≤ length (contents_of Next V this w)
    pub holds : IsBuffered Next V this' w'
    pub same : contents_of Next V this' w' ≡ contents_of Next V this w
    pub moved : this'.position ≡ this.position + count

  take_out_bytes :
      (this : Buffered Next) (w : World) (size : ℕ)
      → IsBuffered Next V this w
      → 0 < this.buf_actual
      → this.position ≤ this.buf_position + this.buf_actual
      → copy_out Next this size
        ≡ take (taken this size) (drop this.position (contents_of Next V this w))
  unfolding copy_out
  take_out_bytes this w size h n p =
      let lim = buffer_in_file Next V L h in
      let off =
        sub_size-eq this.position this.buf_position (omega (arith, h.in_file, h.short)) h.behind in
      let rest =
        sub_size-eq this.buf_actual (this.position - this.buf_position)
          (omega (arith, h.filled, h.block_le)) (omega arith) in
      let k : size_min (this.buf_actual - (this.position - this.buf_position)) size
          ≡ min (this.buf_actual - (this.position - this.buf_position)) size =
        ground arith in
      rw (off, rest, k)
        (take-drop-window this.buf (contents_of Next V this w) this.buf_position this.buf_actual
          this.position (taken this size) (buffer_same Next V L h) h.behind (omega arith))

  pub take_out-ReadAs :
      (this : Buffered Next) (w : World) (size : ℕ)
      → IsBuffered Next V this w
      → 0 < this.buf_actual
      → this.position ≤ this.buf_position + this.buf_actual
      → (r : ReadAs this w size (taken this size) (take_out Next this size error_ok w)) × (r.error'
          ≡ error_ok)
        × (r.this'.buf_actual ≡ this.buf_actual)
        × (r.this'.buf_position ≡ this.buf_position)
        × (r.this'.block_size ≡ this.block_size)
  unfolding take_out
  take_out-ReadAs this w size h n p =
      let lim = buffer_in_file Next V L h in
      let v = contents_of Next V this w in
      let k = taken this size in
      let bytes = take_out_bytes this w size h n p in
      let len : length (take k (drop this.position v)) ≡ k =
        omega (arith, length-take k (drop this.position v), length-drop this.position v) in
      let position' : add_size this.position k ≡ this.position + k =
        add_size-eq this.position k (omega (arith, h.short)) in
      (
        record {
          this' = record this { position = add_size this.position k };
          error' = error_ok;
          w' = w;
          returns = rw (bytes, len);
          within = omega arith;
          in_file = omega arith;
          holds = record {
            below = h.below;
            block_pos = h.block_pos;
            block_le = h.block_le;
            buf_size = h.buf_size;
            aligned = h.aligned;
            filled = h.filled;
            behind = omega (arith, position', h.behind);
            in_block = inl (n, omega (arith, position', h.behind));
            in_file = omega (arith, position');
            short = h.short;
            whole = h.whole;
            reads_below = h.reads_below;
            state = h.state;
          };
          same = refl;
          moved = position';
        },
        refl,
        refl,
        refl,
        refl,
      )
