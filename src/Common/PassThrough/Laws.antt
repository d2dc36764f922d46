-- ===== src/Common/PassThrough/Laws.antt =====
-- Rounds of the two loops of passThrough.c, for any next filter.
use temp_files.Base.{
  ℕ, suc, ◌<◌, ◌≡◌, refl, some, List, ◌++◌, length, drop, add_size, sub_size, arith,
}
use temp_files.Common.Errors.{Error, error_ok, error_eof}
use temp_files.Common.Filter.{Filter}
use temp_files.Common.PassThrough.{write_all_loop, read_all_loop}

module _ {World : Type 0} (next : Filter World) where
  open next use {This, fn_read, fn_write}

  pub read_all_loop_done :
      (fuel : ℕ) (this : This) (got : List ℕ) (error : Error) (w : World)
      → read_all_loop next (suc fuel) this 0 got error w ≡ some (got, this, error, w)
  unfolding read_all_loop
  read_all_loop_done fuel this got error w = refl

  pub read_all_loop_eof :
      (fuel : ℕ) (this : This) (size : ℕ) (got : List ℕ) (w : World)
      → read_all_loop next (suc fuel) this size got error_eof w ≡ some (got, this, error_eof, w)
  unfolding read_all_loop
  read_all_loop_eof fuel this size got w = ground arith

  pub read_all_loop_round :
      (fuel : ℕ) (this : This) (size : ℕ) (got : List ℕ) (w : World) {bytes : List ℕ} {this' : This}
      {error' : Error} {w' : World}
      → 0 < size
      → fn_read this size error_ok w ≡ some (bytes, this', error', w')
      → read_all_loop next (suc fuel) this size got error_ok w
        ≡ read_all_loop next fuel this' (sub_size size (length bytes)) (got ++ bytes) error' w'
  unfolding read_all_loop
  read_all_loop_round fuel this size got w h e = ground arith

  pub write_all_loop_done :
      (fuel : ℕ) (this : This) (total : ℕ) (error : Error) (w : World)
      → write_all_loop next (suc fuel) this List.[] total error w ≡ some (total, this, error, w)
  unfolding write_all_loop
  write_all_loop_done fuel this total error w = refl

  pub write_all_loop_round :
      (fuel : ℕ) (this : This) (buf : List ℕ) (total : ℕ) (w : World) {actual : ℕ} {this' : This}
      {error' : Error} {w' : World}
      → 0 < length buf
      → fn_write this buf error_ok w ≡ some (actual, this', error', w')
      → write_all_loop next (suc fuel) this buf total error_ok w
        ≡ write_all_loop next fuel this' (drop actual buf) (add_size total actual) error' w'
  unfolding write_all_loop
  write_all_loop_round fuel this buf total w h e = ground arith
