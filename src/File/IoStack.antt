-- ===== src/File/IoStack.antt =====
-- src/file/ioStack.c: the handle of a pipeline, with the calls that a program makes on it.
-- `uninit n` is what an uninitialised local array of `n` bytes holds.
pub mod Laws
pub mod Integers
pub mod TwoBytes
pub mod Errors
pub mod Sized
pub mod Effects
use temp_files.Base.{
  ℕ, ◌*◌, ◌%◌, ◌^◌, String, Bool, true, false, not, ◌&&◌, Option, some, List, [], ◌∷◌, length,
  splice, get_or, ◌==◌, if◌then◌else◌,
}
use temp_files.Base.OptionMonad.{◌>>=◌}
use temp_files.Common.Errors.{Error, error_is_ok, is_error, error_is_eof, error_ok, io_stack_error}
use temp_files.Common.Filter.{Filter, file_end_position, OpenFlags}
use temp_files.Common.PassThrough.{pass_through_write_all, pass_through_read_all}
use temp_files.Common.Packed.{Cursor, pack2, pack4, pack8, unpack4, unpack8}

module _ {World : Type 0} (Next : Filter World) where
  -- `struct IoStack`, with the filter that it points to.
  pub record IoStack : Type 0 where
    pub next : Next.This
    pub is_open : Bool

  unfoldable pub io_stack_new : Next.This → IoStack
  io_stack_new next = record { next = next; is_open = false }

  unfoldable pub file_write :
      IoStack → List ℕ → Error → World → Option (ℕ × IoStack × Error × World)
  file_write this buf error w = do
    (total, next, error', w') ← pass_through_write_all Next this.next buf error w
    some (total, record this { next = next }, error', w')

  unfoldable pub file_read : IoStack → ℕ → Error → World → Option (List ℕ × IoStack × Error × World)
  file_read this size error w = do
    (bytes, next, error', w') ← pass_through_read_all Next this.next size error w
    some (bytes, record this { next = next }, error', w')

  unfoldable pub file_seek : IoStack → ℕ → Error → World → Option (ℕ × IoStack × Error × World)
  file_seek this position error w = do
    (landing, next, error', w') ← Next.fn_seek this.next position error w
    some (landing, record this { next = next }, error', w')

  -- O_APPEND is kept from the filters: the handle seeks to the end instead.
  unfoldable pub file_open :
      IoStack → String → OpenFlags → ℕ → Error → World → Option (IoStack × Error × World)
  unfolding io_stack_new error_is_ok file_seek
  file_open pipe path oflags perm error w = do
    (next, error1, w1) ← Next.fn_open pipe.next path (record oflags { append = false }) perm error w
    let this = record (io_stack_new next) { is_open = true }
    (next2, error2, w2) ←
        if error_is_ok error1
        then (do
          (size, next2, error2, w2) ← Next.fn_block_size this.next 1 error1 w1
          some (next2, error2, w2))
        else some (this.next, error1, w1)
    let this2 = record this { next = next2 }
    let sought = do
      (landing, this3, error3, w3) ← file_seek this2 file_end_position error2 w2
      some (this3, error3, w3)
    if oflags.append then sought else some (this2, error2, w2)

  -- The object is freed.
  unfoldable pub file_close : IoStack → Error → World → Option (Error × World)
  unfolding error_is_eof
  file_close this error w =
      Next.fn_close this.next (if error_is_eof error then error_ok else error) w

  unfoldable pub file_delete : IoStack → String → Error → World → Option (IoStack × Error × World)
  file_delete this path error w = do
    (next, error', w') ← Next.fn_delete this.next path error w
    some (record this { next = next }, error', w')

  module _ (uninit : ℕ → List ℕ) where
    -- A local array of `n` bytes, and the pointer to its first byte.
    abbrev pub local_array : ℕ → Cursor
    local_array n = record { bytes = uninit n; bp = 0 }

    -- The array after a read has placed `bytes` in it.
    abbrev pub read_into : ℕ → List ℕ → Cursor
    read_into n bytes = record { bytes = splice 0 bytes (uninit n); bp = 0 }

    -- `passThroughWriteAll(this, ...); return isError(*error);`
    abbrev put_bytes : IoStack → List ℕ → Error → World → Option (Bool × IoStack × Error × World)
    put_bytes this bytes error w = do
      (total, next, error', w') ← pass_through_write_all Next this.next bytes error w
      some (is_error error', record this { next = next }, error', w')

    -- What the getters make of `n` bytes: 0 and `failure` if they are not all there, else `value`.
    abbrev get_bytes :
        (n : ℕ) (value : Cursor → ℕ) (failure : String)
        → IoStack
        → Error
        → World
        → Option (ℕ × IoStack × Error × World)
    get_bytes n value failure this error w = do
      (bytes, next, error', w') ← pass_through_read_all Next this.next n error w
      let this' = record this { next = next }
      let missing = not (error_is_eof error') && not (length bytes == n)
      if missing
          then some (0, this', io_stack_error error' failure, w')
          else some (value (read_into n bytes), this', error', w')

    unfoldable pub file_put8 : IoStack → ℕ → Error → World → Option (Bool × IoStack × Error × World)
    unfolding is_error pack8
    file_put8 this value error w = put_bytes this (pack8 (local_array 8) 8 value).bytes error w

    unfoldable pub file_get8 : IoStack → Error → World → Option (ℕ × IoStack × Error × World)
    unfolding error_is_eof io_stack_error unpack8
    file_get8 this error w =
        get_bytes 8 (λ c. (unpack8 c 8).0) "fileGet8 unable to read bytes" this error w

    unfoldable pub file_put4 : IoStack → ℕ → Error → World → Option (Bool × IoStack × Error × World)
    unfolding is_error pack4
    file_put4 this value error w = put_bytes this (pack4 (local_array 4) 4 value).bytes error w

    unfoldable pub file_get4 : IoStack → Error → World → Option (ℕ × IoStack × Error × World)
    unfolding error_is_eof io_stack_error unpack4
    file_get4 this error w =
        get_bytes 4 (λ c. (unpack4 c 4).0 % 2 ^ 32) "fileGet4 unable to read bytes" this error w

    unfoldable pub file_put2 : IoStack → ℕ → Error → World → Option (Bool × IoStack × Error × World)
    unfolding is_error pack2
    file_put2 this value error w = put_bytes this (pack2 (local_array 2) 2 value).bytes error w

    -- The source unpacks four bytes.
    unfoldable pub file_get2 : IoStack → Error → World → Option (ℕ × IoStack × Error × World)
    unfolding error_is_eof io_stack_error unpack4
    file_get2 this error w =
        get_bytes 2 (λ c. (unpack4 c 2).0 % 2 ^ 16) "fileGet8 unable to read bytes" this error w

    unfoldable pub file_put1 : IoStack → ℕ → Error → World → Option (Bool × IoStack × Error × World)
    unfolding is_error
    file_put1 this value error w = put_bytes this (value ∷ []) error w

    -- A value of one byte is returned whatever the read has come to.
    unfoldable pub file_get1 : IoStack → Error → World → Option (ℕ × IoStack × Error × World)
    file_get1 this error w = do
      (bytes, next, error', w') ← pass_through_read_all Next this.next 1 error w
      some (get_or (splice 0 bytes (uninit 1)) 0 0, record this { next = next }, error', w')
