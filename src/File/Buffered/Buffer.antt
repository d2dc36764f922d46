-- ===== src/File/Buffered/Buffer.antt =====
-- src/file/buffered.c: flushing, filling and copying the local buffer.
use temp_files.Base.{
  ℕ, Bool, false, ◌&&◌, Option, none, some, List, length, take, drop, splice, ltb, leb,
  if◌then◌else◌, add_size, sub_size,
}
use temp_files.Base.OptionMonad.{◌>>=◌}
use temp_files.Common.Errors.{Error, is_error}
use temp_files.Common.Filter.{Filter, size_min, size_max}
use temp_files.Common.PassThrough.{pass_through_write_all, pass_through_read_all}
use temp_files.File.Buffered.State.{Buffered}

module _ {World : Type 0} (Next : Filter World) where
  -- Clean a dirty buffer by writing it below.
  unfoldable pub flush_buffer :
      Buffered Next → Error → World → Option (Bool × Buffered Next × Error × World)
  unfolding is_error size_max
  flush_buffer this error w = do
    (this', error', w') ←
        if this.dirty && ltb 0 this.buf_actual
        then (do
          (_, next', error', w') ←
              pass_through_write_all Next this.next (take this.buf_actual this.buf) error w
          some (record this { next = next' }, error', w'))
        else some (this, error, w)
    let end = add_size this'.buf_position this'.buf_actual
    let clean = record this' { dirty = false; file_size = size_max this'.file_size end }
    some (is_error error', clean, error', w')

  -- Read in a new buffer of data for the current position. The `assert` wants a clean buffer.
  unfoldable pub fill_buffer :
      Buffered Next → Error → World → Option (Bool × Buffered Next × Error × World)
  unfolding is_error
  fill_buffer this error w = if this.dirty then none else do
    (bytes, next', error', w') ← pass_through_read_all Next this.next this.block_size error w
    let this' = record this {
      next = next';
      buf = splice 0 bytes this.buf;
      buf_actual = length bytes;
    }
    some (is_error error', this', error', w')

  -- Copy user data into the buffer, up to the end of the data or of the buffer.
  unfoldable pub copy_in : Buffered Next → List ℕ → Option (ℕ × Buffered Next)
  unfolding size_min
  copy_in this buf =
      let offset = sub_size this.position this.buf_position in
      let actual = size_min (sub_size this.block_size offset) (length buf) in
      let reached = add_size actual offset in
      let this' = record this {
        buf = splice offset (take actual buf) this.buf;
        buf_actual = if ltb this.buf_actual reached then reached else this.buf_actual;
      } in
      if leb this'.buf_actual this'.block_size then some (actual, this') else none

  -- The bytes that are copied out to the user.
  unfoldable pub copy_out : Buffered Next → ℕ → List ℕ
  unfolding size_min
  copy_out this size =
      let offset = sub_size this.position this.buf_position in
      take (size_min (sub_size this.buf_actual offset) size) (drop offset this.buf)

  -- Past the end of a full buffer: clean it and move to the next block, with an empty buffer.
  unfoldable pub next_block : Buffered Next → Error → World → Option (Buffered Next × Error × World)
  next_block this error w = do
    (_, this', error', w') ← flush_buffer this error w
    let moved = record this' {
      buf_position = add_size this'.buf_position this'.block_size;
      buf_actual = 0;
    }
    some (moved, error', w')
