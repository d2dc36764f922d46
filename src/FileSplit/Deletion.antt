-- ===== src/FileSplit/Deletion.antt =====
-- Deleting the segments of a group. The loops run on fuel, which is the number of segments that they
-- may try.
use temp_files.Base.{ℕ, zero, suc, add_size, String, Bool, Option, none, some, ◌==◌, if◌then◌else◌}
use temp_files.Base.OptionMonad.{◌>>=◌}
use temp_files.Common.Errors.{Error, error_is_ok, is_error, error_get_errno, error_ok}
use temp_files.Common.Filter.{Filter}
use temp_files.FileSplit.Segments.{FileSplit}

-- ENOENT
abbrev pub enoent : ℕ
enoent = 2

module _ {World : Type 0} (Next : Filter World) (get_path : String → ℕ → String) where
  unfoldable pub delete_segment :
      FileSplit Next → String → ℕ → Error → World → Option (Bool × FileSplit Next × Error × World)
  unfolding is_error
  delete_segment this name segment_idx error w = do
    (next, error', w') ← Next.fn_delete this.next (get_path name segment_idx) error w
    some (is_error error', record this { next = next }, error', w')

  -- The inner loop: remove successive segments until an error occurs.
  unfoldable pub delete_successive :
      ℕ → FileSplit Next → String → ℕ → Error → World → Option (ℕ × FileSplit Next × Error × World)
  delete_successive zero this name segment_nr error w = none
  delete_successive (suc fuel) this name segment_nr error w = do
    (failed, this', error', w') ← delete_segment this name segment_nr error w
    let rest = delete_successive fuel this' name (add_size segment_nr 1) error' w'
    if failed then some (add_size segment_nr 1, this', error', w') else rest

  -- The outer loop, with the failures that it yet allows.
  unfoldable pub delete_with_failures :
      ℕ → ℕ → FileSplit Next → String → ℕ → Error → World → Option (FileSplit Next × Error × World)
  unfolding error_is_ok error_get_errno
  delete_with_failures fuel zero this name segment_nr error w = some (this, error, w)
  delete_with_failures fuel (suc failures) this name segment_nr error w =
      let round = do
        (segment_nr', this', error', w') ← delete_successive fuel this name segment_nr error w
        let checked = if error_get_errno error' == enoent then error_ok else error'
        delete_with_failures fuel failures this' name segment_nr' checked w'
      in if error_is_ok error then round else some (this, error, w)

  unfoldable pub delete_higher_segments :
      ℕ → FileSplit Next → String → ℕ → Error → World → Option (FileSplit Next × Error × World)
  delete_higher_segments fuel this name segment_nr error w =
      delete_with_failures fuel 10 this name segment_nr error w
