-- ===== src/File/IoStack/Sized.antt =====
-- src/common/passThrough.c: blocks that are preceded by their size. The functions take any filter, and
-- use no more of it than the filter behind it; here that filter is a handle.
pub mod RoundTrip
use temp_files.Base.{
  ℕ, ◌+◌, ◌%◌, ◌^◌, ◌≤◌, ◌<◌, ◌≡◌, refl, sym, ◌∙◌, ap, String, Option, some, List, [], ◌++◌, length,
  take, drop, splice, ltb, if◌then◌else◌, arith, false,
}
use temp_files.Base.OptionMonad.{◌>>=◌}
use temp_files.Common.Errors.{Error, is_error, error_is_ok, error_ok, io_stack_error}
use temp_files.Common.Filter.{Filter}
use temp_files.File.IoStack.{IoStack, file_read, file_write, file_put4, file_get4}

module _ {World : Type 0} (Next : Filter World) (uninit : ℕ → List ℕ) where
  -- A size_t is passed as a uint32_t.
  unfoldable pub pass_through_write_sized :
      IoStack Next → List ℕ → Error → World → Option (ℕ × IoStack Next × Error × World)
  unfolding is_error file_put4 file_write
  pass_through_write_sized this block error w =
      if is_error error then some (0, this, error, w) else do
        (failed, this', error', w') ← file_put4 Next uninit this (length block % 2 ^ 32) error w
        file_write Next this' block error' w'

  unfoldable pub pass_through_read_sized :
      IoStack Next → ℕ → Error → World → Option (List ℕ × IoStack Next × Error × World)
  unfolding is_error io_stack_error file_get4 file_read
  pass_through_read_sized this size error w = do
    (block_size, this', error', w') ← file_get4 Next uninit this error w
    let too_large = io_stack_error error' "ReadSized: Block length is too large"
    let rest = file_read Next this' block_size error' w'
    if is_error error'
        then some ([], this', error', w')
        else (if ltb size block_size then some ([], this', too_large, w') else rest)
