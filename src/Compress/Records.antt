-- ===== src/Compress/Records.antt =====
-- Writing and reading records, in step with the index file.
use temp_files.Base.{
  ℕ, ◌+◌, true, false, Option, none, some, List, [], length, take, ◌==◌, if◌then◌else◌, add_size,
}
use temp_files.Base.OptionMonad.{◌>>=◌}
use temp_files.Common.Errors.{Error, is_error, io_stack_error}
use temp_files.Common.Filter.{Filter, size_min}
use temp_files.File.IoStack.{file_put8, file_get8}
use temp_files.File.IoStack.Sized.{pass_through_write_sized, pass_through_read_sized}
use temp_files.Compress.Library.{Lz4Library}
use temp_files.Compress.State.{Lz4Compress, as_handle}

module _ (lib : Lz4Library) where
  unfoldable pub lz4_compress_buffer : List ℕ → ℕ → Error → List ℕ × Error
  unfolding io_stack_error
  lz4_compress_buffer from_buf to_size error = elim (lib.compress_default from_buf to_size) [
    | none ↦ ([], io_stack_error error "lz4 unable to compress the buffer")
    | some actual ↦ (actual, error)
  ]

  unfoldable pub lz4_decompress_buffer : List ℕ → ℕ → Error → List ℕ × Error
  unfolding io_stack_error
  lz4_decompress_buffer from_buf to_size error = elim (lib.decompress_safe from_buf to_size) [
    | none ↦ ([], io_stack_error error "lz4 unable to decompress a buffer")
    | some actual ↦ (actual, error)
  ]

module _ {World : Type 0} (Next : Filter World) (uninit : ℕ → List ℕ) (lib : Lz4Library) where
  -- `filePut8(this->indexFile, this->compressedPosition, error)`
  unfoldable pub put_index :
      Lz4Compress Next → Error → World → Option (Lz4Compress Next × Error × World)
  unfolding file_put8
  put_index this error w = elim this.index_file [
    | none ↦ none
    | some index ↦
        file_put8 Next uninit index this.compressed_position error w
        >>= λ (failed, index', error', w').
            some (record this { index_file = some index' }, error', w')
  ]

  -- `fileGet8(this->indexFile, error)`
  unfoldable pub get_index :
      Lz4Compress Next → Error → World → Option (ℕ × Lz4Compress Next × Error × World)
  unfolding file_get8
  get_index this error w = elim this.index_file [
    | none ↦ none
    | some index ↦ file_get8 Next uninit index error w >>= λ (value, index', error', w').
        some (value, record this { index_file = some index' }, error', w')
  ]

  -- If the last call was a read, the index gets the offset of the current record first.
  unfoldable pub sync_for_write :
      Lz4Compress Next → Error → World → Option (Lz4Compress Next × Error × World)
  unfolding put_index
  sync_for_write this error w = do
    (synced, error1, w1) ←
        if this.previous_read then put_index this error w else some (this, error, w)
    some (record synced { previous_read = false }, error1, w1)

  -- The end of lz4CompressWrite: the compressed block becomes a record, and after a full block of `size`
  -- bytes the index gets the next entry.
  unfoldable pub store_block :
      Lz4Compress Next → ℕ → List ℕ → Error → World → Option (ℕ × Lz4Compress Next × Error × World)
  unfolding is_error put_index pass_through_write_sized
  store_block this size actual error w = do
    (total, handle, error2, w2) ←
        pass_through_write_sized Next uninit (as_handle Next this) actual error w
    let this2 = record this { next = handle.next }
    let this3 = record this2 {
      compressed_position = add_size this2.compressed_position (length actual + 4);
    }
    let indexed =
        if size == this3.block_size then put_index this3 error2 w2 else some (this3, error2, w2)
    let finished = do (this4, error4, w4) ← indexed; some (size, this4, error4, w4)
    if is_error error2 then some (0, this2, error2, w2) else finished

  -- The block is compressed, and stored.
  unfoldable pub write_block :
      Lz4Compress Next → List ℕ → Error → World → Option (ℕ × Lz4Compress Next × Error × World)
  unfolding lz4_compress_buffer store_block
  write_block this block error w =
      let (actual, error1) = lz4_compress_buffer lib block this.compressed_size error in
      store_block this (length block) actual error1 w

  unfoldable pub lz4_compress_write :
      Lz4Compress Next → List ℕ → Error → World → Option (ℕ × Lz4Compress Next × Error × World)
  unfolding size_min sync_for_write write_block
  lz4_compress_write this buf error w = do
    let block = take (size_min (length buf) this.block_size) buf
    (synced, error1, w1) ← sync_for_write this error w
    write_block synced block error1 w1

  -- If the last call was a read, the index moves over the entry of the current record.
  unfoldable pub sync_for_read :
      Lz4Compress Next → Error → World → Option (Lz4Compress Next × Error × World)
  unfolding get_index
  sync_for_read this error w =
      let moved = do
        (skipped, this', error', w') ← get_index this error w
        some (record this' { previous_read = true }, error', w')
      in if this.previous_read then moved else some (record this { previous_read = true }, error, w)

  -- The end of lz4CompressRead: one record, decompressed into `limit` bytes.
  unfoldable pub read_block :
      Lz4Compress Next → ℕ → Error → World → Option (List ℕ × Lz4Compress Next × Error × World)
  unfolding lz4_decompress_buffer is_error pass_through_read_sized
  read_block this limit error w = do
    (packed, handle, error1, w1) ←
        pass_through_read_sized Next uninit (as_handle Next this) this.compressed_size error w
    let this1 = record this { next = handle.next }
    let this2 = record this1 {
      compressed_position = add_size this1.compressed_position (length packed + 4);
    }
    let (bytes, error2) = lz4_decompress_buffer lib packed limit error1
    if is_error error1 then some ([], this1, error1, w1) else some (bytes, this2, error2, w1)

  unfoldable pub lz4_compress_read :
      Lz4Compress Next → ℕ → Error → World → Option (List ℕ × Lz4Compress Next × Error × World)
  unfolding size_min is_error sync_for_read read_block
  lz4_compress_read this size error w = if is_error error then some ([], this, error, w) else do
    let limit = size_min size this.block_size
    (synced, error1, w1) ← sync_for_read this error w
    read_block synced limit error1 w1
