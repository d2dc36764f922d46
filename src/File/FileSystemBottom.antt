-- ===== src/File/FileSystemBottom.antt =====
-- src/file/fileSystemBottom.c: the sink, a wrapper around the system calls for one file.
pub mod Refinement
pub mod Separate
pub mod Errors
use temp_files.Base.{
  ℕ, String, Bool, true, false, not, ◌&&◌, Option, none, some, List, ◌==◌, if◌then◌else◌,
}
use temp_files.Base.Int.{ℤ, pos, negsuc}
use temp_files.Common.Errors.{
  Error, error_is_ok, is_error, error_ok, error_eof, error_code_io_stack, set_error,
}
use temp_files.Common.Filter.{Filter, OpenFlags, may_read, may_write}
use temp_files.Common.Syscall.{
  sys_read, sys_write, sys_open, sys_close, sys_datasync, sys_lseek, sys_unlink,
}
use temp_files.Common.Syscall.Posix.{Kernel}

-- `struct FileSystemBottom`. There is no next filter.
pub record FileSystemBottom : Type 0 where
  pub fd : ℤ
  pub writable : Bool
  pub readable : Bool
  pub eof : Bool

abbrev pub error_cant_write : Error
error_cant_write = record { code = error_code_io_stack; msg = "Writing to file opened as readonly" }

abbrev pub error_cant_read : Error
error_cant_read = record {
  code = error_code_io_stack;
  msg = "Reading from file opened as writeonly";
}

unfoldable pub file_system_bottom_new : FileSystemBottom
file_system_bottom_new = record { fd = negsuc 0; writable = false; readable = false; eof = false }

module _ {World : Type 0} (K : Kernel World) where
  unfoldable pub file_system_open :
      FileSystemBottom
      → String
      → OpenFlags
      → ℕ
      → Error
      → World
      → Option (FileSystemBottom × Error × World)
  unfolding file_system_bottom_new
  file_system_open sink path oflags perm error w =
      let perm' = if perm == 0 then 0o666 else perm in
      let (fd, error', w') = sys_open K path oflags perm' error w in
      let this = record file_system_bottom_new {
        writable = may_write oflags.acc_mode;
        readable = may_read oflags.acc_mode;
        eof = false;
        fd = fd;
      } in
      some (this, error', w')

  unfoldable pub file_system_write :
      FileSystemBottom → List ℕ → Error → World → Option (ℕ × FileSystemBottom × Error × World)
  unfolding error_is_ok
  file_system_write this buf error w =
      let error1 = if error_is_ok error && not this.writable then error_cant_write else error in
      let (actual, error', w') = sys_write K this.fd buf error1 w in some (actual, this, error', w')

  unfoldable pub file_system_read :
      FileSystemBottom → ℕ → Error → World → Option (List ℕ × FileSystemBottom × Error × World)
  unfolding is_error
  file_system_read this size error w =
      let error1 =
        if is_error error
        then error
        else if not this.readable
        then error_cant_read
        else if this.eof
        then error_eof
        else error in
      let (bytes, error', w') = sys_read K this.fd size error1 w in some (bytes, this, error', w')

  -- The object is freed.
  unfoldable pub file_system_close : FileSystemBottom → Error → World → Option (Error × World)
  file_system_close this error w = some (sys_close K this.fd error w)

  unfoldable pub file_system_sync :
      FileSystemBottom → Error → World → Option (FileSystemBottom × Error × World)
  unfolding error_is_ok
  file_system_sync this error w =
      let error1 = if error_is_ok error && not this.writable then error_cant_write else error in
      let (error', w') = if this.writable then sys_datasync K this.fd error1 w else (error1, w) in
      some (this, error', w')

  unfoldable pub file_system_block_size :
      FileSystemBottom → ℕ → Error → World → Option (ℕ × FileSystemBottom × Error × World)
  file_system_block_size this prev_size error w = some (1, this, error, w)

  -- `abort()`: not implemented.
  unfoldable pub file_system_abort :
      FileSystemBottom → Error → World → Option (FileSystemBottom × Error × World)
  file_system_abort this error w = none

  unfoldable pub file_system_seek :
      FileSystemBottom → ℕ → Error → World → Option (ℕ × FileSystemBottom × Error × World)
  file_system_seek this position error w =
      let (ret, error', w') = sys_lseek K this.fd position error w in some (ret, this, error', w')

  -- The file is unlinked even after an error.
  unfoldable pub file_system_delete :
      FileSystemBottom → String → Error → World → Option (FileSystemBottom × Error × World)
  unfolding set_error
  file_system_delete this path error w =
      let (temp_error, w') = sys_unlink K path error_ok w in
      some (this, set_error error temp_error, w')

  -- `fileSystemInterface`
  abbrev pub file_system_interface : Filter World
  file_system_interface = record {
    This = FileSystemBottom;
    fn_open = file_system_open;
    fn_write = file_system_write;
    fn_close = file_system_close;
    fn_read = file_system_read;
    fn_sync = file_system_sync;
    fn_block_size = file_system_block_size;
    fn_abort = file_system_abort;
    fn_seek = file_system_seek;
    fn_delete = file_system_delete;
  }
