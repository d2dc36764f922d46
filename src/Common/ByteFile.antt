-- ===== src/Common/ByteFile.antt =====
-- What a filter promises that its predecessor may treat as a plain file of bytes: the abstract
-- contents and position of an open object, and how each call moves them while nothing fails.
-- A call may transfer less than it is asked for.
use temp_files.Base.{ℕ, ◌+◌, ◌^◌, ◌≤◌, ◌<◌, ◌≡◌, ◌⊎◌, some, List, length, take, drop, splice}
use temp_files.Common.Errors.{Error, error_ok, error_eof}
use temp_files.Common.Filter.{Filter, file_end_position}

-- off_t is signed: no file is longer than this.
abbrev pub max_size : ℕ
max_size = 2 ^ 62

module _ {World : Type 0} (F : Filter World) where
  -- The abstract view of an object.
  pub record FileView : Type 1 where
    pub IsOpen : F.This → World → Type 0
    pub contents : F.This → World → List ℕ
    pub pos : F.This → World → ℕ
    -- How often a read may yet return nothing without an error.
    pub stall : F.This → World → ℕ

  module _ (V : FileView) (this : F.This) (w : World) where
    -- How the position, the error and `stall` answer a read of `count` bytes.
    abbrev pub ReadOutcome : ℕ → F.This → Error → World → Type 0
    ReadOutcome count this' error' w' =
        ((error' ≡ error_ok) × (0 < count))
        ⊎ ((error' ≡ error_ok) × (count ≡ 0) × (V.stall this' w' < V.stall this w))
        ⊎ ((error' ≡ error_eof) × (count ≡ 0) × (V.pos this w ≡ length (V.contents this w)))

    -- A read of up to `size` bytes.
    pub record ReadStep (size : ℕ) : Type 0 where
      pub count : ℕ
      pub this' : F.This
      pub error' : Error
      pub w' : World
      pub returns :
          F.fn_read this size error_ok w
          ≡ some (take count (drop (V.pos this w) (V.contents this w)), this', error', w')
      pub within : count ≤ size
      pub in_file : V.pos this w + count ≤ length (V.contents this w)
      pub opened : V.IsOpen this' w'
      pub same : V.contents this' w' ≡ V.contents this w
      pub moved : V.pos this' w' ≡ V.pos this w + count
      pub outcome : ReadOutcome count this' error' w'

    -- A write of some of the bytes of `buf`, one at least.
    pub record WriteStep (buf : List ℕ) : Type 0 where
      pub count : ℕ
      pub this' : F.This
      pub w' : World
      pub returns : F.fn_write this buf error_ok w ≡ some (count, this', error_ok, w')
      pub progress : 0 < count
      pub within : count ≤ length buf
      pub opened : V.IsOpen this' w'
      pub written : V.contents this' w' ≡ splice (V.pos this w) (take count buf) (V.contents this w)
      pub moved : V.pos this' w' ≡ V.pos this w + count

    -- A seek to `target` that lands at `landing`.
    pub record SeekStep (target landing : ℕ) : Type 0 where
      pub this' : F.This
      pub w' : World
      pub returns : F.fn_seek this target error_ok w ≡ some (landing, this', error_ok, w')
      pub opened : V.IsOpen this' w'
      pub same : V.contents this' w' ≡ V.contents this w
      pub moved : V.pos this' w' ≡ landing

  pub record IsByteFile (V : FileView) : Type 0 where
    pub pos_in :
        (this : F.This) (w : World) → V.IsOpen this w → V.pos this w ≤ length (V.contents this w)
    pub bounded :
        (this : F.This) (w : World) → V.IsOpen this w → length (V.contents this w) ≤ max_size
    pub stall_le : (this : F.This) (w : World) → V.IsOpen this w → V.stall this w ≤ 1
    pub reads :
        (this : F.This) (w : World) (size : ℕ)
        → V.IsOpen this w
        → 0 < size
        → size ≤ max_size
        → ReadStep V this w size
    pub writes :
        (this : F.This) (w : World) (buf : List ℕ)
        → V.IsOpen this w
        → 0 < length buf
        → V.pos this w + length buf ≤ max_size
        → WriteStep V this w buf
    pub seeks :
        (this : F.This) (w : World) (p : ℕ)
        → V.IsOpen this w
        → p ≤ length (V.contents this w)
        → SeekStep V this w p p
    pub seek_end :
        (this : F.This) (w : World)
        → V.IsOpen this w
        → SeekStep V this w file_end_position (length (V.contents this w))
