-- ===== src/File/FileSystemBottom/Errors.antt =====
-- The sink as it was opened: what a write and a read do in each mode.
use temp_files.Base.{
  ℕ, ◌≡◌, refl, ap, Bool, true, false, Option, some, List, [], String, ◌==◌, if◌then◌else◌,
}
use temp_files.Base.Int.{ℤ}
use temp_files.Common.Errors.{Error, error_ok, error_is_ok, is_error}
use temp_files.Common.Filter.{OpenFlags, may_read, may_write}
use temp_files.Common.Syscall.{sys_read, sys_write, sys_open}
use temp_files.Common.Syscall.Posix.{Kernel}
use temp_files.File.FileSystemBottom.{
  FileSystemBottom, error_cant_read, error_cant_write, file_system_open, file_system_read,
  file_system_write,
}

module _ {World : Type 0} (K : Kernel World) where
  -- What the sink returns for an answer of a system call.
  abbrev pub answered :
      {A : Type 0}
      → FileSystemBottom
      → A × Error × World
      → Option (A × FileSystemBottom × Error × World)
  answered file (a, error, w) = some (a, file, error, w)

  no_write :
      (fd : ℤ) (buf : List ℕ) (w : World)
      → sys_write K fd buf error_cant_write w ≡ (0, error_cant_write, w)
  unfolding sys_write is_error error_is_ok
  no_write fd buf w = refl

  no_read :
      (fd : ℤ) (size : ℕ) (w : World)
      → sys_read K fd size error_cant_read w ≡ ([], error_cant_read, w)
  unfolding sys_read is_error error_is_ok
  no_read fd size w = refl

  abbrev opened : ℤ → Bool → Bool → FileSystemBottom
  opened fd writable readable = record {
    fd = fd;
    writable = writable;
    readable = readable;
    eof = false;
  }

  write_in_mode :
      (fd : ℤ) (m r : Bool) (buf : List ℕ) (w : World)
      → file_system_write K (opened fd m r) buf error_ok w ≡ (
          if m
          then answered (opened fd m r) (sys_write K fd buf error_ok w)
          else some (0, opened fd m r, error_cant_write, w))
  unfolding file_system_write error_is_ok
  write_in_mode fd true r buf w = refl
  write_in_mode fd false r buf w = ap (answered (opened fd false r)) (no_write fd buf w)

  read_in_mode :
      (fd : ℤ) (m r : Bool) (size : ℕ) (w : World)
      → file_system_read K (opened fd m r) size error_ok w ≡ (
          if r
          then answered (opened fd m r) (sys_read K fd size error_ok w)
          else some ([], opened fd m r, error_cant_read, w))
  unfolding file_system_read is_error error_is_ok
  read_in_mode fd m true size w = refl
  read_in_mode fd m false size w = ap (answered (opened fd m false)) (no_read fd size w)

  -- fileSystemOpen returns a sink, whatever the system answers and whatever error there was. In any
  -- later state of the system and without an error, a write of that sink is the write call on its
  -- descriptor if the file was opened for writing, and otherwise transfers nothing, makes no call and
  -- says in the error that the file is read-only; a read likewise, by whether it was opened for
  -- reading.
  pub file_system_open_mode :
      (sink : FileSystemBottom) (path : String) (oflags : OpenFlags) (perm : ℕ) (error : Error)
      (buf : List ℕ) (size : ℕ) (w w2 : World)
      → (file : FileSystemBottom) × (error1 : Error) × (w1 : World) × (file_system_open K sink path
            oflags perm error w
          ≡ some (file, error1, w1))
        × (file_system_write K file buf error_ok w2 ≡ (
            if may_write oflags.acc_mode
            then answered file (sys_write K file.fd buf error_ok w2)
            else some (0, file, error_cant_write, w2)))
        × (file_system_read K file size error_ok w2 ≡ (
            if may_read oflags.acc_mode
            then answered file (sys_read K file.fd size error_ok w2)
            else some ([], file, error_cant_read, w2)))
  unfolding file_system_open
  file_system_open_mode sink path oflags perm error buf size w w2 =
      let o = sys_open K path oflags (if perm == 0 then 0o666 else perm) error w in
      (
        opened o.0 (may_write oflags.acc_mode) (may_read oflags.acc_mode),
        o.1,
        o.2,
        refl,
        write_in_mode o.0 (may_write oflags.acc_mode) (may_read oflags.acc_mode) buf w2,
        read_in_mode o.0 (may_write oflags.acc_mode) (may_read oflags.acc_mode) size w2,
      )
