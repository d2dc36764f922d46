-- ===== src/File/IoStack/Errors.antt =====
-- The handle after an error.
use temp_files.Base.{
  ℕ, zero, suc, ◌+◌, ◌*◌, ◌&&◌, ap, inl, inr, Bool-cases, ◌<◌, ◌≡◌, ◌^◌, refl, false, some, List,
  [], ltb, length, if◌then◌else◌, arith, lt→ltb,
}
use temp_files.Common.Errors.{Error, error_is_ok, error_is_eof, error_ok}
use temp_files.Common.Filter.{Filter}
use temp_files.Common.PassThrough.{
  write_all_loop, read_all_loop, pass_through_write_all, pass_through_read_all,
}
use temp_files.File.IoStack.{IoStack, file_write, file_read}

module _ {World : Type 0} (Next : Filter World) where
  no_round :
      (fuel : ℕ) (this : Next.This) (size : ℕ) (error : Error) (w : World)
      → 0 < fuel
      → error_is_ok error ≡ false
      → read_all_loop Next fuel this size [] error w ≡ some ([], this, error, w)
  unfolding read_all_loop
  no_round zero this size error w f h = absurd (omega arith)
  no_round (suc fuel) this size error w f h = elim (Bool-cases (ltb 0 size)) [
    | inl s ↦ rw (s, h) refl
    | inr s ↦ rw s refl
  ]

  read_nothing :
      (this : Next.This) (size : ℕ) (error : Error) (w : World)
      → error_is_ok error ≡ false
      → pass_through_read_all Next this size error w ≡ some ([], this, error, w)
  unfolding pass_through_read_all
  read_nothing this size error w h =
      let none_read : (if error_is_eof error && false then error_ok else error) ≡ error =
        ground arith in
      rw (no_round (2 * size + 3) this size error w (omega arith) h)
        (ap (λ e. some ([], this, e, w)) none_read)

  write_nothing :
      (this : Next.This) (buf : List ℕ) (error : Error) (w : World)
      → error_is_ok error ≡ false
      → 0 < length buf
      → length buf < 2 ^ 63
      → pass_through_write_all Next this buf error w ≡ some (0, this, error, w)
  unfolding pass_through_write_all write_all_loop
  write_nothing this buf error w h n m =
      rw (lt→ltb 0 (length buf) n, lt→ltb (length buf) (2 ^ 63) m, h) refl

  -- Once an error (EOF included) is set, a write of a buffer and a read return at once, on any filter:
  -- nothing is transferred, no other filter is called, and the error stays.
  pub file_after_error :
      (this : IoStack Next) (buf : List ℕ) (size : ℕ) (error : Error) (w : World)
      → error_is_ok error ≡ false
      → 0 < length buf
      → length buf < 2 ^ 63
      → (file_write Next this buf error w ≡ some (0, this, error, w))
        × (file_read Next this size error w ≡ some ([], this, error, w))
  unfolding file_write file_read
  file_after_error this buf size error w h n m = (
    rw (write_nothing this.next buf error w h n m) refl,
    rw (read_nothing this.next size error w h) refl,
  )
