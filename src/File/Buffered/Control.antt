-- ===== src/File/Buffered/Control.antt =====
-- src/file/buffered.c: opening, seeking, closing, syncing, block sizes, and the interface.
use temp_files.Base.{ℕ, false, Option, none, some, List, [], ◌==◌, if◌then◌else◌, String}
use temp_files.Base.OptionMonad.{◌>>=◌}
use temp_files.Common.Errors.{Error, is_error}
use temp_files.Common.Filter.{
  Filter, file_end_position, OpenFlags, read_write, may_read, may_write, size_max, size_round_down,
  size_round_up,
}
use temp_files.File.Buffered.State.{Buffered, buffered_new}
use temp_files.File.Buffered.Buffer.{flush_buffer}
use temp_files.File.Buffered.Writing.{buffered_write}
use temp_files.File.Buffered.Reading.{buffered_read}

module _ {World : Type 0} (Next : Filter World) where
  unfoldable pub buffered_open :
      Buffered Next
      → String
      → OpenFlags
      → ℕ
      → Error
      → World
      → Option (Buffered Next × Error × World)
  unfolding buffered_new is_error
  buffered_open pipe path oflags perm error w = do
    let oflags' = record oflags { acc_mode = read_write oflags.acc_mode }
    (next, error', w') ← Next.fn_open pipe.next path oflags' perm error w
    let this = buffered_new Next pipe.suggested_size next
    let opened = record this {
      readable = may_read oflags'.acc_mode;
      writeable = may_write oflags'.acc_mode;
      position = 0;
      buf_position = 0;
      dirty = false;
      buf_actual = 0;
      file_size = 0;
      size_confirmed = oflags'.trunc;
      buf = [];
    }
    some (if is_error error' then this else opened, error', w')

  -- Seek to the end: clean the buffer, and invalidate its position so that the block is sought anew.
  unfoldable pub find_end :
      Buffered Next → Error → World → Option (ℕ × Buffered Next × Error × World)
  find_end this error w = do
    (_, flushed, error', w') ← flush_buffer Next this error w
    (size, next', error'', w'') ← Next.fn_seek flushed.next file_end_position error' w'
    let this' = record flushed { next = next'; buf_position = file_end_position; file_size = size }
    some (size, this', error'', w'')

  -- Position to another block in the file.
  unfoldable pub move_to_block :
      Buffered Next → ℕ → Error → World → Option (Buffered Next × Error × World)
  move_to_block this new_block error w = do
    (_, flushed, error', w') ← flush_buffer Next this error w
    (_, next', error'', w'') ← Next.fn_seek flushed.next new_block error' w'
    let this' = record flushed { next = next'; buf_position = new_block; buf_actual = 0 }
    some (this', error'', w'')

  unfoldable pub buffered_seek :
      Buffered Next → ℕ → Error → World → Option (ℕ × Buffered Next × Error × World)
  unfolding is_error size_round_down
  buffered_seek this position error w =
      if is_error error then some (this.position, this, error, w) else do
        (target, this', error', w') ←
            if position == file_end_position
            then find_end this error w
            else some (position, this, error, w)
        let new_block = size_round_down target this'.block_size
        (this'', error'', w'') ←
            if new_block == this'.buf_position
            then some (this', error', w')
            else move_to_block this' new_block error' w'
        some (target, record this'' { position = target }, error'', w'')

  -- The object is freed.
  unfoldable pub buffered_close : Buffered Next → Error → World → Option (Error × World)
  buffered_close this error w = do
    (_, flushed, error', w') ← flush_buffer Next this error w
    Next.fn_close flushed.next error' w'

  unfoldable pub buffered_sync :
      Buffered Next → Error → World → Option (Buffered Next × Error × World)
  buffered_sync this error w = do
    (_, flushed, error', w') ← flush_buffer Next this error w
    (next', error'', w'') ← Next.fn_sync flushed.next error' w'
    some (record flushed { next = next' }, error'', w'')

  -- `malloc n` is the memory that malloc gives, whatever it holds.
  -- A requested size of 0, as after an error below, divides by zero.
  unfoldable pub buffered_block_size :
      (ℕ → List ℕ) → Buffered Next → ℕ → Error → World → Option (ℕ × Buffered Next × Error × World)
  unfolding size_max size_round_up
  buffered_block_size malloc this prev_size error w = do
    let suggested_size = size_max this.suggested_size prev_size
    (requested_size, next', error', w') ← Next.fn_block_size this.next suggested_size error w
    let negotiated = if requested_size == 0 then none else some requested_size
    requested_size ← negotiated
    let block_size = size_round_up suggested_size requested_size
    let this' = record this {
      next = next';
      block_size = block_size;
      buf = malloc block_size;
      buf_actual = 0;
    }
    some (1, this', error', w')

  -- `bufferedInterface`; an abort and a delete go to the next filter.
  abbrev pub buffered_interface : (ℕ → List ℕ) → Filter World
  buffered_interface malloc = record {
    This = Buffered Next;
    fn_open = buffered_open;
    fn_write = buffered_write Next;
    fn_close = buffered_close;
    fn_read = buffered_read Next;
    fn_sync = buffered_sync;
    fn_block_size = buffered_block_size malloc;
    fn_seek = buffered_seek;
    fn_abort = λ this error w. do
      (next', error', w') ← Next.fn_abort this.next error w
      some (record this { next = next' }, error', w');
    fn_delete = λ this path error w. do
      (next', error', w') ← Next.fn_delete this.next path error w
      some (record this { next = next' }, error', w');
  }
