-- ===== src/File/Buffered/State.antt =====
-- src/file/buffered.c: the state of the stream, and a new one.
-- `buf` is the local buffer, `[]` for NULL.
use temp_files.Base.{ℕ, ◌*◌, Bool, false, List, [], ◌==◌, if◌then◌else◌}
use temp_files.Common.Filter.{Filter}

module _ {World : Type 0} (Next : Filter World) where
  -- `struct Buffered`, with the filter that it points to.
  pub record Buffered : Type 0 where
    pub next : Next.This
    pub suggested_size : ℕ
    pub block_size : ℕ
    pub buf : List ℕ
    pub dirty : Bool
    pub position : ℕ
    pub buf_position : ℕ
    pub buf_actual : ℕ
    pub file_size : ℕ
    pub size_confirmed : Bool
    pub readable : Bool
    pub writeable : Bool

  unfoldable pub buffered_new : ℕ → Next.This → Buffered
  buffered_new suggested_size next = record {
    next = next;
    suggested_size = if suggested_size == 0 then 16 * 1024 else suggested_size;
    block_size = 0;
    buf = [];
    dirty = false;
    position = 0;
    buf_position = 0;
    buf_actual = 0;
    file_size = 0;
    size_confirmed = false;
    readable = false;
    writeable = false;
  }
