-- ===== src/File/Buffered/Reading.antt =====
-- src/file/buffered.c: bufferedRead and directRead. A read returns the bytes that it
-- leaves in the caller's buffer; their number is the result in C.
use temp_files.Base.{
  ℕ, ◌-◌, ◌%◌, not, ◌&&◌, Option, some, List, [], length, take, drop, ltb, ◌==◌, if◌then◌else◌,
  add_size,
}
use temp_files.Base.OptionMonad.{◌>>=◌}
use temp_files.Common.Errors.{Error, error_is_ok, error_eof, set_error}
use temp_files.Common.Filter.{Filter, size_round_down}
use temp_files.Common.PassThrough.{pass_through_read_all}
use temp_files.File.Buffered.State.{Buffered}
use temp_files.File.Buffered.Buffer.{next_block, fill_buffer, copy_in, copy_out}

module _ {World : Type 0} (Next : Filter World) where
  -- Read multiple blocks from the next file, but no partials: a partial block is clawed back from the
  -- caller's buffer into ours.
  unfoldable pub direct_read :
      Buffered Next → ℕ → Error → World → Option (List ℕ × Buffered Next × Error × World)
  unfolding size_round_down
  direct_read this size error w = do
    let aligned_size = size_round_down size this.block_size
    (bytes, next', error', w') ← pass_through_read_all Next this.next aligned_size error w
    let actual = length bytes
    let actual_partial = actual % this.block_size
    let actual_block = actual - actual_partial
    let below = record this { next = next' }
    (_, clawed) ←
        if ltb 0 actual_partial
        then copy_in Next below (drop actual_block bytes)
        else some (0, below)
    let position' = add_size clawed.position actual_block
    let this' = record clawed {
      position = position';
      buf_position = add_size clawed.buf_position actual_block;
      file_size = if ltb 0 actual_partial then add_size position' actual else clawed.file_size;
    }
    some (take actual_block bytes, this', error', w')

  -- The end of bufferedRead: bytes from the buffer.
  unfoldable pub take_out :
      Buffered Next → ℕ → Error → World → Option (List ℕ × Buffered Next × Error × World)
  take_out this size error w =
      let bytes = copy_out Next this size in
      some (bytes, record this { position = add_size this.position (length bytes) }, error, w)

  -- bufferedRead, where the position is not at the end of a buffer that holds data.
  unfoldable pub read_on :
      Buffered Next → ℕ → Error → World → Option (List ℕ × Buffered Next × Error × World)
  read_on this size error w =
      if this.position == this.buf_position && ltb this.block_size size && this.buf_actual == 0
      then direct_read this size error w
      else if this.buf_actual == 0
      then (do
        (failed, this', error', w') ← fill_buffer Next this error w
        if failed then some ([], this', error', w') else take_out this' size error' w')
      else take_out this size error w

  unfoldable pub buffered_read :
      Buffered Next → ℕ → Error → World → Option (List ℕ × Buffered Next × Error × World)
  unfolding error_is_ok
  buffered_read this size error w =
      if not (error_is_ok error)
      then some ([], this, error, w)
      else if this.position == add_size this.buf_position this.buf_actual && ltb 0 this.buf_actual
      then if ltb this.buf_actual this.block_size
        then some ([], this, set_error error error_eof, w)
        else (do
          (at_block, error', w') ← next_block Next this error w
          read_on at_block size error' w')
      else read_on this size error w
