-- ===== src/FileSplit/Events.antt =====
-- Reading, writing, seeking, closing, deleting and block sizes.
use temp_files.Base.{
  ℕ, zero, suc, ◌+◌, ◌-◌, ◌*◌, ◌%◌, String, Option, none, some, List, [], length, take, ◌==◌,
  if◌then◌else◌, add_size, size_mod,
}
use temp_files.Base.OptionMonad.{◌>>=◌}
use temp_files.Common.Errors.{Error, is_error}
use temp_files.Common.Filter.{Filter, file_end_position, size_min, size_round_down, size_round_up}
use temp_files.File.IoStack.{IoStack, file_read, file_write, file_seek}
use temp_files.FileSplit.Segments.{FileSplit, close_current_segment, open_current_segment}
use temp_files.FileSplit.Deletion.{delete_higher_segments}

module _ {World : Type 0} (Next : Filter World) (get_path : String → ℕ → String) where
  -- The segment that is open, for a call on it.
  abbrev segment : {A : Type 0} → FileSplit Next → (IoStack Next → Option A) → Option A
  segment this call = elim this.file [
    | none ↦ none
    | some file ↦ if this.segment_size == 0 then none else call file
  ]

  unfoldable pub file_split_read :
      FileSplit Next → ℕ → Error → World → Option (List ℕ × FileSplit Next × Error × World)
  unfolding is_error size_min file_read
  file_split_read this size error w =
      if is_error error
      then some ([], this, error, w)
      else segment this λ file. do
        let start = this.position % this.segment_size
        let trunc_size = size_min (this.segment_size - start) size
        (bytes, file', error1, w1) ← file_read Next file trunc_size error w
        let this1 = record this {
          file = some file';
          position = add_size this.position (length bytes);
        }
        let advanced = open_current_segment Next get_path this1 error1 w1
        (this2, error2, w2) ←
            if start + length bytes == this.segment_size then advanced else some (this1, error1, w1)
        some (bytes, this2, error2, w2)

  unfoldable pub file_split_write :
      FileSplit Next → List ℕ → Error → World → Option (ℕ × FileSplit Next × Error × World)
  unfolding is_error size_min file_write
  file_split_write this buf error w =
      if is_error error
      then some (0, this, error, w)
      else segment this λ file. do
        let offset = this.position % this.segment_size
        let trunc_size = size_min (this.segment_size - offset) (length buf)
        (actual, file', error1, w1) ← file_write Next file (take trunc_size buf) error w
        let this1 = record this { file = some file'; position = add_size this.position actual }
        let advanced = open_current_segment Next get_path this1 error1 w1
        (this2, error2, w2) ←
            if offset + actual == this.segment_size then advanced else some (this1, error1, w1)
        some (actual, this2, error2, w2)

  -- The loop of fileSplitSeekEnd, on fuel: a round for each segment.
  unfoldable pub seek_end_loop :
      ℕ → FileSplit Next → ℕ → Error → World → Option (ℕ × FileSplit Next × Error × World)
  unfolding file_seek
  seek_end_loop zero this segment_count error w = none
  seek_end_loop (suc fuel) this segment_count error w = do
    (this1, error1, w1) ←
        open_current_segment Next get_path
          (record this { position = segment_count * this.segment_size % size_mod }) error w
    (segment_size, this2, error2, w2) ← segment this1 λ file. do
      (landing, file', error2, w2) ← file_seek Next file file_end_position error1 w1
      some (landing, record this1 { file = some file' }, error2, w2)
    let rest = seek_end_loop fuel this2 (add_size segment_count 1) error2 w2
    let size = add_size (segment_count * this2.segment_size % size_mod) segment_size
    if segment_size == this2.segment_size then rest else some (size, this2, error2, w2)

  unfoldable pub file_split_seek_end :
      ℕ → FileSplit Next → Error → World → Option (ℕ × FileSplit Next × Error × World)
  file_split_seek_end fuel this error w = seek_end_loop fuel this 0 error w

  unfoldable pub file_split_seek :
      ℕ → FileSplit Next → ℕ → Error → World → Option (ℕ × FileSplit Next × Error × World)
  unfolding size_round_down file_seek
  file_split_seek fuel this position error w =
      let to_end = file_split_seek_end fuel this error w in
      let to_position = do
        let this1 = record this { position = position }
        let other = open_current_segment Next get_path this1 error w
        let same_segment =
            size_round_down position this.segment_size
            == size_round_down this.position this.segment_size
        (this2, error2, w2) ← if same_segment then some (this1, error, w) else other
        segment this2 λ file. do
          (landing, file', error3, w3) ←
              file_seek Next file (position % this2.segment_size) error2 w2
          some (position, record this2 { file = some file' }, error3, w3)
      in if position == file_end_position
        then to_end
        else if this.segment_size == 0
        then none
        else to_position

  -- The object is freed.
  unfoldable pub file_split_close : FileSplit Next → Error → World → Option (Error × World)
  file_split_close this error w = do
    (this', error', w') ← close_current_segment Next this error w
    Next.fn_close this'.next error' w'

  unfoldable pub file_split_delete :
      ℕ → FileSplit Next → String → Error → World → Option (FileSplit Next × Error × World)
  file_split_delete fuel this name error w =
      delete_higher_segments Next get_path fuel this name 0 error w

  -- A block size of 0 divides by zero.
  unfoldable pub file_split_block_size :
      FileSplit Next → ℕ → Error → World → Option (ℕ × FileSplit Next × Error × World)
  unfolding size_round_up
  file_split_block_size this block_size error w = do
    (next_size, next, error', w') ← Next.fn_block_size this.next block_size error w
    block_size ← if block_size == 0 then none else some block_size
    some (
      next_size,
      record this { next = next; segment_size = size_round_up this.suggested_size block_size },
      error',
      w',
    )
