-- ===== src/File/Buffered/Writing.antt =====
-- src/file/buffered.c: bufferedWrite and directWrite.
use temp_files.Base.{
  ℕ, true, not, ◌&&◌, Option, none, some, List, length, take, ltb, leb, ◌==◌, if◌then◌else◌,
  add_size,
}
use temp_files.Base.OptionMonad.{◌>>=◌}
use temp_files.Common.Errors.{Error, is_error, error_is_eof, error_ok}
use temp_files.Common.Filter.{Filter, size_round_down}
use temp_files.Common.PassThrough.{pass_through_write_all}
use temp_files.File.Buffered.State.{Buffered}
use temp_files.File.Buffered.Buffer.{next_block, fill_buffer, copy_in}

module _ {World : Type 0} (Next : Filter World) where
  -- Write whole blocks to the next file.
  unfoldable pub direct_write :
      Buffered Next → List ℕ → Error → World → Option (ℕ × Buffered Next × Error × World)
  unfolding size_round_down
  direct_write this buf error w = do
    let aligned_size = size_round_down (length buf) this.block_size
    (actual, next', error', w') ←
        pass_through_write_all Next this.next (take aligned_size buf) error w
    let position' = add_size this.position actual
    let this' = record this {
      next = next';
      position = position';
      buf_position = size_round_down position' this.block_size;
    }
    some (actual, this', error', w')

  -- Fill an empty buffer before it is written to, ignoring EOF.
  unfoldable pub fill_for_write :
      Buffered Next → Error → World → Option (Buffered Next × Error × World)
  unfolding error_is_eof
  fill_for_write this error w =
      if this.buf_actual == 0 && this.readable
      then (do
        (_, this', error', w') ← fill_buffer Next this error w
        some (this', if error_is_eof error' then error_ok else error', w'))
      else some (this, error, w)

  -- Before a clean buffer is dirtied, go back to its start below.
  unfoldable pub seek_for_write :
      Buffered Next → Error → World → Option (Buffered Next × Error × World)
  seek_for_write this error w = if this.dirty then some (this, error, w) else do
    (_, next', error', w') ← Next.fn_seek this.next this.buf_position error w
    some (record this { next = next' }, error', w')

  -- The end of bufferedWrite: through the buffer.
  unfoldable pub buffer_write :
      Buffered Next → List ℕ → Error → World → Option (ℕ × Buffered Next × Error × World)
  buffer_write this buf error w = do
    (filled, error', w') ← fill_for_write this error w
    (ready, error'', w'') ← seek_for_write filled error' w'
    (actual, copied) ← copy_in Next ready buf
    let this' = record copied { dirty = true; position = add_size copied.position actual }
    if ltb 0 actual then some (actual, this', error'', w'') else none

  unfoldable pub buffered_write :
      Buffered Next → List ℕ → Error → World → Option (ℕ × Buffered Next × Error × World)
  unfolding is_error
  buffered_write this buf error w =
      if not (ltb 0 (length buf))
      then none
      else if is_error error
      then some (0, this, error, w)
      else do
        (at_block, error', w') ←
            if this.position == add_size this.buf_position this.block_size
            then next_block Next this error w
            else some (this, error, w)
        let on_block = at_block.buf_actual == 0 && at_block.position == at_block.buf_position
        let is_direct = on_block && leb at_block.block_size (length buf)
        if is_direct
            then direct_write at_block buf error' w'
            else buffer_write at_block buf error' w'
