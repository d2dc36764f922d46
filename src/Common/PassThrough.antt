-- ===== src/Common/PassThrough.antt =====
-- src/common/passThrough.c: the helpers that repeat a call of the next filter until all is done.
-- The macros `passThroughX(this, ...)` are the calls `next.fn_x`.
mod Laws
pub mod Reads
pub mod Writes
use temp_files.Base.{
  ℕ, zero, suc, ◌+◌, ◌*◌, ◌^◌, ◌<◌, Bool, ◌&&◌, Option, none, some, List, [], ◌++◌, length, drop,
  ltb, if◌then◌else◌, add_size, sub_size,
}
use temp_files.Base.OptionMonad.{◌>>=◌}
use temp_files.Common.Errors.{Error, error_is_ok, error_is_eof, error_ok}
use temp_files.Common.Filter.{Filter}

module _ {World : Type 0} (next : Filter World) where
  open next use {This, fn_read, fn_write}

  -- The loop of `passThroughWriteAll`, on fuel: `buf` is what is left to write.
  unfoldable pub write_all_loop :
      ℕ → This → List ℕ → ℕ → Error → World → Option (ℕ × This × Error × World)
  unfolding error_is_ok
  write_all_loop zero this buf total error w = none
  write_all_loop (suc fuel) this buf total error w =
      let round = do
        (actual, this', error', w') ← fn_write this buf error w
        write_all_loop fuel this' (drop actual buf) (add_size total actual) error' w'
      in if ltb 0 (length buf) && error_is_ok error then round else some (total, this, error, w)

  -- A failed `assert` does not return. Each round that is not the last writes a byte at least.
  unfoldable pub pass_through_write_all :
      This → List ℕ → Error → World → Option (ℕ × This × Error × World)
  pass_through_write_all this buf error w =
      if ltb 0 (length buf) && ltb (length buf) (2 ^ 63)
      then write_all_loop (suc (length buf)) this buf 0 error w
      else none

  -- The loop of `passThroughReadAll`: `got` is what has been read, `size` what is still wanted.
  unfoldable pub read_all_loop :
      ℕ → This → ℕ → List ℕ → Error → World → Option (List ℕ × This × Error × World)
  unfolding error_is_ok
  read_all_loop zero this size got error w = none
  read_all_loop (suc fuel) this size got error w =
      let round = do
        (bytes, this', error', w') ← fn_read this size error w
        read_all_loop fuel this' (sub_size size (length bytes)) (got ++ bytes) error' w'
      in if ltb 0 size && error_is_ok error then round else some (got, this, error, w)

  -- The fuel lets a filter return nothing once before each byte.
  unfoldable pub pass_through_read_all :
      This → ℕ → Error → World → Option (List ℕ × This × Error × World)
  unfolding error_is_eof
  pass_through_read_all this size error w = do
    (got, this', error', w') ← read_all_loop (2 * size + 3) this size [] error w
    let last = if error_is_eof error' && ltb 0 (length got) then error_ok else error'
    some (got, this', last, w')
