-- ===== src/Common/Syscall.antt =====
-- src/common/syscall.c: wrappers around system calls that keep to the error conventions.
pub mod Posix
use temp_files.Base.{ℕ, String, Bool, true, false, List, [], length, ◌==◌, ◌-◌, ◌^◌, if◌then◌else◌}
use temp_files.Base.Int.{ℤ, pos, negsuc}
use temp_files.Common.Errors.{
  Error, error_is_ok, is_error, error_eof, system_error, set_error, io_stack_error,
}
use temp_files.Common.Filter.{OpenFlags, file_end_position}
use Posix.{Kernel, Answer, done, failed, Whence, seek_set, seek_end}

module _ {World : Type 0} (K : Kernel World) where
  unfoldable pub sys_read : ℤ → ℕ → Error → World → List ℕ × Error × World
  unfolding is_error system_error
  sys_read fd size error w =
      if is_error error
      then ([], error, w)
      else let (answer, w') = K.read fd size w in
        elim answer [
          | done bytes ↦ (bytes, if length bytes == 0 then error_eof else error, w')
          | failed errno ↦ ([], system_error K.strerror errno, w')
        ]

  unfoldable pub sys_write : ℤ → List ℕ → Error → World → ℕ × Error × World
  unfolding is_error system_error
  sys_write fd buf error w =
      if is_error error
      then (0, error, w)
      else let (answer, w') = K.write fd buf w in
        elim answer [
          | done actual ↦ (actual, error, w')
          | failed errno ↦ (0, system_error K.strerror errno, w')
        ]

  -- The descriptor -1 says that no file is open.
  unfoldable pub sys_open : String → OpenFlags → ℕ → Error → World → ℤ × Error × World
  unfolding is_error system_error
  sys_open path oflag perm error w =
      if is_error error
      then (negsuc 0, error, w)
      else let (answer, w') = K.open_file path oflag perm w in
        elim answer [
          | done fd ↦ (pos fd, error, w')
          | failed errno ↦ (negsuc 0, system_error K.strerror errno, w')
        ]

  -- An error is reported if there was none so far.
  abbrev after_call : Error → Answer (Unit {0}) → Error
  after_call error (done _) = error
  after_call error (failed errno) =
      if error_is_ok error then system_error K.strerror errno else error

  unfoldable pub sys_close : ℤ → Error → World → Error × World
  unfolding system_error error_is_ok
  sys_close (negsuc n) error w = (error, w)
  sys_close (pos fd) error w = let (r, w') = K.close (pos fd) w in (after_call error r, w')

  unfoldable pub sys_datasync : ℤ → Error → World → Error × World
  unfolding system_error error_is_ok
  sys_datasync fd error w = let (r, w') = K.fsync fd w in (after_call error r, w')

  -- `(off_t)-1` is the result of a failed seek.
  unfoldable pub sys_lseek : ℤ → ℕ → Error → World → ℕ × Error × World
  unfolding is_error system_error io_stack_error
  sys_lseek fd position error w =
      if is_error error
      then (file_end_position, error, w)
      else if position == file_end_position
      then (let (answer, w') = K.lseek fd 0 seek_end w in
          elim answer [
            | done ret ↦ (ret, error, w')
            | failed errno ↦ (file_end_position, system_error K.strerror errno, w')
          ])
      else (let (answer, w') = K.lseek fd position seek_set w in
          elim answer [
            | done ret ↦ (
              ret,
              if ret == position
                  then error
                  else io_stack_error error "Seeking beyond end of file - holes not allowed",
              w',
            )
            | failed errno ↦ (file_end_position, system_error K.strerror errno, w')
          ])

  unfoldable pub sys_unlink : String → Error → World → Error × World
  unfolding system_error set_error
  sys_unlink path error w =
      let (answer, w') = K.unlink path w in
      elim answer [
        | done _ ↦ (error, w')
        | failed errno ↦ (set_error error (system_error K.strerror errno), w')
      ]
