-- ===== src/File/Buffered/Flush.antt =====
-- flushBuffer: a dirty buffer reaches the file below.
use temp_files.Base.{
  ℕ, ◌+◌, ◌≡◌, inl, inr, Bool, false, Option, some, length, take, add_size, arith, length-take,
}
use temp_files.Common.Errors.{Error, error_ok}
use temp_files.Common.Filter.{Filter, size_max}
use temp_files.Common.ByteFile.{FileView, IsByteFile}
use temp_files.Common.PassThrough.Writes.{pass_through_write_all-AllWritten}
use temp_files.File.Buffered.State.{Buffered}
use temp_files.File.Buffered.Buffer.{flush_buffer}
use temp_files.File.Buffered.View.{contents_of, IsBuffered, buffer_in_file}

module _ {World : Type 0} (Next : Filter World) (V : FileView Next) (L : IsByteFile Next V) where
  -- flushBuffer leaves all fields but `dirty` and `file_size`; the file below then holds the whole
  -- abstract contents, and stands behind the buffer.
  pub record Flushed (this : Buffered Next) (w : World)
      (r : Option (Bool × Buffered Next × Error × World)) : Type 0 where
    pub next' : Next.This
    pub size' : ℕ
    pub w' : World
    pub returns :
        r
        ≡ some (false, record this { next = next'; dirty = false; file_size = size' }, error_ok, w')
    pub below : V.IsOpen next' w'
    pub same : V.contents next' w' ≡ contents_of Next V this w
    pub moved : V.pos next' w' ≡ this.buf_position + this.buf_actual

  -- flushBuffer at a well-formed object returns false and no error, dirty or clean: the file below then
  -- holds the whole abstract file, at the end of the buffer, and the buffer is clean and otherwise as it
  -- was.
  pub flush_buffer-Flushed :
      (this : Buffered Next) (w : World)
      → IsBuffered Next V this w
      → Flushed this w (flush_buffer Next this error_ok w)
  unfolding flush_buffer
  flush_buffer-Flushed this w h = elim h.state [
    | inl (d, p, e) ↦
        let front = take this.buf_actual this.buf in
        let size : length front ≡ this.buf_actual =
          omega (arith, length-take this.buf_actual this.buf, h.buf_size, h.filled) in
        let wr =
          pass_through_write_all-AllWritten Next V L this.next w front h.below (omega arith)
            (omega (arith, buffer_in_file Next V L h, h.short)) in
        record {
          next' = wr.this';
          size' = size_max this.file_size (add_size this.buf_position this.buf_actual);
          w' = wr.w';
          returns = ground (arith, wr.returns);
          below = wr.opened;
          same = rw (d, ← e) wr.written;
          moved = omega (arith, wr.moved);
        }
    | inr (d, e, c) ↦ record {
      next' = this.next;
      size' = size_max this.file_size (add_size this.buf_position this.buf_actual);
      w' = w;
      returns = ground arith;
      below = h.below;
      same = rw d;
      moved = e;
    }
  ]
