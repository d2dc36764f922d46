-- ===== src/FileSplit/Segments.antt =====
-- The state of a group of split files, and the segment that is open.
use temp_files.Base.{ℕ, ◌/◌, String, Option, none, some, false, ◌==◌, if◌then◌else◌}
use temp_files.Base.OptionMonad.{◌>>=◌}
use temp_files.Common.Errors.{Error}
use temp_files.Common.Filter.{Filter, OpenFlags, rdonly}
use temp_files.File.IoStack.{IoStack, io_stack_new, file_close}

module _ {World : Type 0} (Next : Filter World) where
  -- `struct FileSplit`, with the filter that it points to. `file` is `none` for NULL.
  pub record FileSplit : Type 0 where
    pub next : Next.This
    pub suggested_size : ℕ
    pub segment_size : ℕ
    pub position : ℕ
    pub name : String
    pub oflags : OpenFlags
    pub perm : ℕ
    pub file : Option (IoStack Next)

  unfoldable pub file_split_new : ℕ → Next.This → FileSplit
  file_split_new suggested_size next = record {
    next = next;
    suggested_size = suggested_size;
    segment_size = 0;
    position = 0;
    name = "";
    oflags = record { acc_mode = rdonly; append = false; creat = false; trunc = false };
    perm = 0;
    file = none;
  }

  unfoldable pub close_current_segment :
      FileSplit → Error → World → Option (FileSplit × Error × World)
  close_current_segment this error w = elim this.file [
    | none ↦ some (this, error, w)
    | some file ↦ file_close Next file error w >>= λ (error', w').
        some (record this { file = none }, error', w')
  ]

  -- Open the segment that corresponds to the position.
  unfoldable pub open_current_segment :
      (String → ℕ → String) → FileSplit → Error → World → Option (FileSplit × Error × World)
  unfolding io_stack_new
  open_current_segment get_path this error w = do
    (closed, error1, w1) ← close_current_segment this error w
    let opened = do
      let path = get_path closed.name (closed.position / closed.segment_size)
      (next, error2, w2) ← Next.fn_open closed.next path closed.oflags closed.perm error1 w1
      some (record closed { file = some (io_stack_new Next next) }, error2, w2)
    if closed.segment_size == 0 then none else opened
