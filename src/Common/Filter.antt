-- ===== src/Common/Filter.antt =====
-- src/common/filter.h and filter.c: the interface of a filter, the size helpers, and how
-- `filterInit` links a filter to the next ones that handle each event.
mod Sizes
mod Links
mod Flags
pub mod Dispatch
unfoldable pub use Sizes.*
unfoldable pub use Links.*
pub use Flags.*
use Flags.{OpenFlags}
use temp_files.Base.{ℕ, String, List, Option, ◌^◌, ◌-◌}
use temp_files.Common.Errors.{Error}

-- `(off_t)-1`; an off_t is its 64-bit pattern, so this is also `(size_t)-1`.
abbrev pub file_end_position : ℕ
file_end_position = 2 ^ 64 - 1

-- `FilterInterface`: the functions that a filter provides, one for each event. A filter owns what it
-- points to, so a value of `This` holds the object and all below it. `World` is what objects share:
-- the operating system. Each function takes the object, its error variable and the world, and
-- returns them anew. `fn_open` returns a clone and leaves the object that it is called on alone.
-- A read returns the bytes that it placed in the caller's buffer; its C result is their number.
-- `none` says that the call does not return.
pub record Filter (World : Type 0) : Type 1 where
  pub This : Type 0
  pub fn_open : This → String → OpenFlags → ℕ → Error → World → Option (This × Error × World)
  pub fn_write : This → List ℕ → Error → World → Option (ℕ × This × Error × World)
  pub fn_close : This → Error → World → Option (Error × World)
  pub fn_read : This → ℕ → Error → World → Option (List ℕ × This × Error × World)
  pub fn_sync : This → Error → World → Option (This × Error × World)
  pub fn_block_size : This → ℕ → Error → World → Option (ℕ × This × Error × World)
  pub fn_abort : This → Error → World → Option (This × Error × World)
  pub fn_seek : This → ℕ → Error → World → Option (ℕ × This × Error × World)
  pub fn_delete : This → String → Error → World → Option (This × Error × World)
