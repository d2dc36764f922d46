-- ===== src/Compress/Seeking.antt =====
-- Seeking by the index, to a block or to the end.
use temp_files.Base.{
  ℕ, ◌-◌, ◌*◌, ◌/◌, ◌%◌, not, ◌&&◌, Option, none, some, List, length, ltb, ◌==◌, if◌then◌else◌,
  size_mod, add_size,
}
use temp_files.Base.OptionMonad.{◌>>=◌}
use temp_files.Common.Errors.{Error, error_is_ok, error_is_eof, error_ok, io_stack_error}
use temp_files.Common.Filter.{Filter, file_end_position}
use temp_files.File.IoStack.{file_seek}
use temp_files.Compress.Library.{Lz4Library}
use temp_files.Compress.State.{Lz4Compress}
use temp_files.Compress.Records.{get_index, lz4_compress_read}

module _ {World : Type 0} (Next : Filter World) (uninit : ℕ → List ℕ) (lib : Lz4Library) where
  -- `fileSeek(this->indexFile, position, error)`
  unfoldable pub seek_index :
      Lz4Compress Next → ℕ → Error → World → Option (ℕ × Lz4Compress Next × Error × World)
  unfolding file_seek
  seek_index this position error w = elim this.index_file [
    | none ↦ none
    | some index ↦ file_seek Next index position error w >>= λ (landing, index', error', w').
        some (landing, record this { index_file = some index' }, error', w')
  ]

  -- To the start of block `record_nr`, by its entry in the index.
  unfoldable pub seek_record :
      Lz4Compress Next → ℕ → ℕ → Error → World → Option (ℕ × Lz4Compress Next × Error × World)
  unfolding seek_index get_index error_is_eof
  seek_record this record_nr position error w = do
    (landing, this1, error1, w1) ← seek_index this (record_nr * 8 % size_mod) error w
    (start, this2, error2, w2) ← get_index Next uninit lib this1 error1 w1
    let new_file = error_is_eof error2 && position == 0
    let this3 = record this2 {
      compressed_position = if new_file then 0 else start;
      previous_read = new_file;
    }
    let error3 = if new_file then error_ok else error2
    (there, next, error4, w4) ← Next.fn_seek this3.next this3.compressed_position error3 w2
    some (position, record this3 { next = next }, error4, w4)

  -- To a position that is not the end. A remainder by 0 does not return.
  unfoldable pub seek_block :
      Lz4Compress Next → ℕ → Error → World → Option (ℕ × Lz4Compress Next × Error × World)
  unfolding seek_record io_stack_error
  seek_block this position error w =
      let unaligned =
        some (0, this, io_stack_error error "l14 Compression - must seek to a block boundary", w) in
      let sought = seek_record this (position / this.block_size) position error w in
      if this.block_size == 0
      then none
      else (if not (position % this.block_size == 0) then unaligned else sought)

  -- To the end, which is the start of the last, partial block. (The position of the last record is a
  -- multiple of the block size below the size of the file; it is taken not to be -1.)
  unfoldable pub lz4_seek_end :
      Lz4Compress Next → Error → World → Option (ℕ × Lz4Compress Next × Error × World)
  unfolding seek_index seek_block lz4_compress_read error_is_ok error_is_eof
  lz4_seek_end this error w = do
    (index_size, this1, error1, w1) ← seek_index this file_end_position error w
    let nr_records = index_size / 8
    let last_position = (nr_records - 1) * this1.block_size % size_mod
    let found = do
      (p2, this2, error2, w2) ← seek_block this1 last_position error1 w1
      (last, this3, error3, w3) ← lz4_compress_read Next uninit lib this2 this2.block_size error2 w2
      let error4 = if error_is_eof error3 then error_ok else error3
      let again = seek_block this3 last_position error4 w3
      (p5, this5, error5, w5) ←
          if error_is_ok error4 && ltb (length last) this3.block_size
          then again
          else some (last_position, this3, error4, w3)
      some (add_size last_position (length last), this5, error5, w5)
    if nr_records == 0 then some (0, this1, error1, w1) else found

  unfoldable pub lz4_compress_seek :
      Lz4Compress Next → ℕ → Error → World → Option (ℕ × Lz4Compress Next × Error × World)
  lz4_compress_seek this position error w =
      if position == file_end_position
      then lz4_seek_end this error w
      else seek_block this position error w
