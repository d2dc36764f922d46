-- ===== src/Compress/State.antt =====
-- The state of the compression filter, opening, closing, deleting, and block sizes.
use temp_files.Base.{
  ℕ, ◌%◌, String, Bool, true, false, not, Option, none, some, ◌==◌, if◌then◌else◌,
}
use temp_files.Base.OptionMonad.{◌>>=◌}
use temp_files.Common.Errors.{Error, is_error, io_stack_error}
use temp_files.Common.Filter.{Filter, OpenFlags}
use temp_files.File.IoStack.{IoStack, io_stack_new, file_close}
use temp_files.Compress.Library.{Lz4Library}

module _ {World : Type 0} (Next : Filter World) where
  -- `struct Lz4Compress`, with the filter that it points to. The two buffers are scratch: every call fills
  -- what it reads of them, so they are values of the calls. `index_file` is `none` for NULL.
  pub record Lz4Compress : Type 0 where
    pub next : Next.This
    pub block_size : ℕ
    pub compressed_size : ℕ
    pub index_file : Option (IoStack Next)
    pub compressed_position : ℕ
    pub previous_read : Bool

  unfoldable pub lz4_compress_new : ℕ → Next.This → Lz4Compress
  lz4_compress_new block_size next = record {
    next = next;
    block_size = block_size;
    compressed_size = 0;
    index_file = none;
    compressed_position = 0;
    previous_read = false;
  }

  -- The handle by which the shared helpers see this filter: all that they use is the filter behind it.
  abbrev pub as_handle : Lz4Compress → IoStack Next
  as_handle this = record { next = this.next; is_open = true }

  module _ (index_path : String → String) where
    -- `index_path path` is what `strlcpy` and `strlcat` make of the path and ".idx".
    unfoldable pub lz4_compress_open :
        Lz4Compress → String → OpenFlags → ℕ → Error → World → Option (Lz4Compress × Error × World)
    unfolding lz4_compress_new is_error io_stack_new
    lz4_compress_open pipe path oflags mode error w = do
      (next, error1, w1) ← Next.fn_open pipe.next path oflags mode error w
      let this = lz4_compress_new pipe.block_size next
      let indexed = do
        (index, error2, w2) ← Next.fn_open this.next (index_path path) oflags mode error1 w1
        let opened = record this {
          index_file = some (io_stack_new Next index);
          compressed_position = 0;
          previous_read = true;
        }
        some (opened, error2, w2)
      if is_error error1 then some (this, error1, w1) else indexed

    unfoldable pub lz4_compress_delete :
        Lz4Compress → String → Error → World → Option (Lz4Compress × Error × World)
    lz4_compress_delete this path error w = do
      (next1, error1, w1) ← Next.fn_delete this.next path error w
      (next2, error2, w2) ← Next.fn_delete next1 (index_path path) error1 w1
      some (record this { next = next2 }, error2, w2)

  -- Block sizes, with the index file that is open. A remainder by 0 does not return.
  unfoldable pub negotiate :
      Lz4Library
      → Lz4Compress
      → IoStack Next
      → Error
      → World
      → Option (ℕ × Lz4Compress × Error × World)
  unfolding io_stack_error
  negotiate lib this index error w = do
    (index_size, index', error1, w1) ← Next.fn_block_size index.next 8 error w
    let this1 = record this { index_file = some (record index { next = index' }) }
    let unfit =
        some (0, this1, io_stack_error error1 "lz4 index file has incompatible block size", w1)
    let sized = do
      (next_size, next', error2, w2) ← Next.fn_block_size this1.next 1 error1 w1
      let this2 = record this1 { next = next' }
      let bounded = record this2 { compressed_size = lib.compress_bound this2.block_size }
      if not (next_size == 1)
          then some
              (0, this2, io_stack_error error2 "lz4 Compression has mismatched block size", w2)
          else some (this2.block_size, bounded, error2, w2)
    if index_size == 0 then none else (if not (8 % index_size == 0) then unfit else sized)

  unfoldable pub lz4_compress_block_size :
      Lz4Library → Lz4Compress → ℕ → Error → World → Option (ℕ × Lz4Compress × Error × World)
  unfolding negotiate
  lz4_compress_block_size lib this prev_size error w = elim this.index_file [
    | none ↦ none
    | some index ↦ negotiate lib this index error w
  ]

  -- The object is freed. `fileClose` of NULL does not return.
  unfoldable pub lz4_compress_close : Lz4Compress → Error → World → Option (Error × World)
  unfolding file_close
  lz4_compress_close this error w = elim this.index_file [
    | none ↦ none
    | some index ↦
        file_close Next index error w >>= λ (error1, w1). Next.fn_close this.next error1 w1
  ]
