-- ===== src/File/Buffered/CopyIn.antt =====
-- copyIn as plain arithmetic: no size wraps and its assert holds.
use temp_files.Base.{
  ℕ, ◌+◌, ◌-◌, ◌≤◌, ◌≡◌, min, max, some, List, length, take, splice, add_size-eq, sub_size-eq,
  arith,
}
use temp_files.Common.Filter.{Filter, size_min}
use temp_files.Common.ByteFile.{max_size}
use temp_files.File.Buffered.State.{Buffered}
use temp_files.File.Buffered.Buffer.{copy_in}

module _ {World : Type 0} (Next : Filter World) where
  abbrev pub room : Buffered Next → List ℕ → ℕ
  room this x = min (this.block_size - (this.position - this.buf_position)) (length x)

  abbrev pub copied : Buffered Next → List ℕ → Buffered Next
  copied this x =
      let offset = this.position - this.buf_position in
      record this {
        buf = splice offset (take (room this x) x) this.buf;
        buf_actual = max this.buf_actual (room this x + offset);
      }

  pub copy_in_lem :
      (this : Buffered Next) (x : List ℕ)
      → this.buf_position ≤ this.position
      → this.position ≤ this.buf_position + this.block_size
      → this.position ≤ max_size
      → this.block_size ≤ max_size
      → this.buf_actual ≤ this.block_size
      → copy_in Next this x ≡ some (room this x, copied this x)
  unfolding copy_in
  copy_in_lem this x a b c d e =
      let offset = this.position - this.buf_position in
      let off = sub_size-eq this.position this.buf_position (omega arith) a in
      let rest = sub_size-eq this.block_size offset (omega arith) (omega arith) in
      let k : size_min (this.block_size - offset) (length x) ≡ room this x = ground arith in
      let reached = add_size-eq (room this x) offset (omega arith) in
      rw (off, rest, k, reached) (ground arith)
