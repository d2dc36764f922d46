-- ===== src/FileSplit/Opening.antt =====
-- Opening a group of split files.
use temp_files.Base.{ℕ, String, Bool, true, false, Option, none, some, ◌≡◌, refl, if◌then◌else◌}
use temp_files.Base.OptionMonad.{◌>>=◌}
use temp_files.Common.Errors.{Error, error_is_ok, is_error, error_ok, error_eof, io_stack_error}
use temp_files.Common.Filter.{Filter, OpenFlags, may_write}
use temp_files.FileSplit.Segments.{
  FileSplit, file_split_new, close_current_segment, open_current_segment,
}
use temp_files.FileSplit.Deletion.{delete_higher_segments}

none_after :
    {A B : Type 0} (x : Option A) (f : A → Option B) → ((a : A) → f a ≡ none) → (x >>= f) ≡ none
none_after none f h = refl
none_after (some x) f h = h x

module _ {World : Type 0} (Next : Filter World) (get_path : String → ℕ → String)
    (path_too_long : String → Bool) where
  -- The end of fileSplitOpen, at the saved parameters: from the first segment on.
  unfoldable pub open_group :
      ℕ → FileSplit Next → Error → World → Option (FileSplit Next × Error × World)
  open_group fuel this error w = do
    (this1, error1, w1) ←
        open_current_segment Next get_path (record this { position = 0; file = none }) error w
    let truncated = delete_higher_segments Next get_path fuel this1 this.name 1 error1 w1
    (this2, error2, w2) ← if this.oflags.trunc then truncated else some (this1, error1, w1)
    let creat = if may_write this.oflags.acc_mode then true else this.oflags.creat
    some
        (record this2 { oflags = record this2.oflags { creat = creat; trunc = false } }, error2, w2)

  -- The clone of the next filter is opened with an error that is forced and dropped.
  unfoldable pub file_split_open :
      ℕ
      → FileSplit Next
      → String
      → OpenFlags
      → ℕ
      → Error
      → World
      → Option (FileSplit Next × Error × World)
  unfolding file_split_new is_error io_stack_error
  file_split_open fuel self name oflags perm error w = do
    (clone, ignored, w1) ← Next.fn_open self.next "" oflags perm error_eof w
    let this = file_split_new Next self.suggested_size clone
    let saved = record this { oflags = oflags; perm = perm }
    let opened = open_group fuel (record saved { name = name }) error w1
    if is_error error
        then some (this, error, w1)
        else (if oflags.append
            then some (
              this,
              io_stack_error error "fileSplit does not support O_APPEND - must use Buffered filter",
              w1,
            )
            else (if path_too_long name
                then some (saved, io_stack_error error "fileSplitOpen: path name too long", w1)
                else opened))

  -- fileSplitOpen without an error, of a name that is not too long and without O_APPEND, does not return,
  -- over any filter: it opens the first segment before a block size has been negotiated, and divides
  -- by the segment size, which is 0.
  pub file_split_open-none :
      (fuel : ℕ) (self : FileSplit Next) (name : String) (oflags : OpenFlags) (perm : ℕ) (w : World)
      → oflags.append ≡ false
      → path_too_long name ≡ false
      → file_split_open fuel self name oflags perm error_ok w ≡ none
  unfolding file_split_open open_group open_current_segment close_current_segment is_error
      error_is_ok file_split_new
  file_split_open-none fuel self name oflags perm w a b =
      none_after (Next.fn_open self.next "" oflags perm error_eof w) _ λ r. rw (a, b) refl
