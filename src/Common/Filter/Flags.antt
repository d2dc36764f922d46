-- ===== src/Common/Filter/Flags.antt =====
-- The bits of `oflags` (<fcntl.h>) that the filters look at or change.
use temp_files.Base.{Bool}

-- `oflags & O_ACCMODE`
pub data AccessMode : Type 0 where
  rdonly wronly rdwr : AccessMode

pub record OpenFlags : Type 0 where
  pub acc_mode : AccessMode
  pub append : Bool
  pub creat : Bool
  pub trunc : Bool

abbrev pub read_write : AccessMode → AccessMode
read_write rdonly = rdonly
read_write wronly = rdwr
read_write rdwr = rdwr

-- `(oflags & O_ACCMODE) != O_WRONLY`
abbrev pub may_read : AccessMode → Bool
may_read wronly = Bool.false
may_read _ = Bool.true

-- `(oflags & O_ACCMODE) != O_RDONLY`
abbrev pub may_write : AccessMode → Bool
may_write rdonly = Bool.false
may_write _ = Bool.true
