-- ===== src/Common/Errors.antt =====
-- src/iostack_error.h: error values, which each call takes and returns.
-- `causedBy` is never set to anything but NULL, and is left out.
use temp_files.Base.{ℕ, suc, Bool, true, false, String, ◌||◌, ◌==◌, if◌then◌else◌}
use temp_files.Base.Int.{ℤ, pos, negsuc, neg}

pub record Error : Type 0 where
  pub code : ℤ
  pub msg : String

-- `enum ErrorCode`
abbrev pub error_code_ok : ℤ
error_code_ok = pos 0

abbrev pub error_code_eof : ℤ
error_code_eof = pos 1

abbrev pub error_code_io_stack : ℤ
error_code_io_stack = pos 2

-- `code == n`, for the values of the enumeration.
abbrev is_code : ℤ → ℕ → Bool
is_code (pos m) n = m == n
is_code (negsuc m) n = false

abbrev is_negative : ℤ → Bool
is_negative (pos m) = false
is_negative (negsuc m) = true

abbrev magnitude : ℤ → ℕ
magnitude (pos m) = m
magnitude (negsuc m) = suc m

unfoldable pub error_is_ok : Error → Bool
error_is_ok e = is_code e.code 0

unfoldable pub is_error : Error → Bool
unfolding error_is_ok
is_error e = if error_is_ok e then false else true

unfoldable pub error_is_eof : Error → Bool
error_is_eof e = is_code e.code 1

unfoldable pub error_is_system : Error → Bool
error_is_system e = is_negative e.code

unfoldable pub error_get_errno : Error → ℕ
unfolding error_is_system
error_get_errno e = if error_is_system e then magnitude e.code else 0

abbrev pub error_ok : Error
error_ok = record { code = pos 0; msg = "OK - no error" }

abbrev pub error_eof : Error
error_eof = record { code = pos 1; msg = "EOF" }

-- `systemError()`, at a value of errno. `strerror` is the C library's.
unfoldable pub system_error : (ℕ → String) → ℕ → Error
system_error strerror errno = record { code = neg errno; msg = strerror errno }

-- Set a new error, if none so far. (The C function also returns 0, which its callers pass on.)
unfoldable pub set_error : Error → Error → Error
unfolding error_is_ok error_is_eof
set_error error new_error = if error_is_ok error || error_is_eof error then new_error else error

unfoldable pub io_stack_error : Error → String → Error
unfolding set_error
io_stack_error error msg = set_error error (record { code = error_code_io_stack; msg = msg })
