-- ===== src/Compress/WriteLaws.antt =====
-- lz4CompressWrite behind the last record.
use temp_files.Base.{
  ℕ, ◌+◌, ◌*◌, ◌≤◌, ◌≡◌, ◌⊎◌, inl, inr, refl, sym, ◌∙◌, ap, Bool, true, false, not, min, some, List,
  [], ◌∷◌, ◌++◌, length, take, arith, ◌==◌, Bool-cases, if◌then◌else◌, length-append, length-take,
  add_size,
}
use mathlib.Core.Path.{subst}
use temp_files.Common.Errors.{error_ok, is_error, error_is_ok}
use temp_files.Common.Filter.{Filter, size_min}
use temp_files.Common.ByteFile.{FileView, max_size}
use temp_files.Common.TwoFiles.{TwoFiles}
use temp_files.Common.Packed.Layout.{be8}
use temp_files.File.IoStack.{IoStack}
use temp_files.File.IoStack.Sized.{pass_through_write_sized}
use temp_files.Compress.Library.{Lz4Library}
use temp_files.Compress.State.{Lz4Compress, as_handle}
use temp_files.Compress.Records.{
  put_index, sync_for_write, store_block, write_block, lz4_compress_buffer, lz4_compress_write,
}
use temp_files.Compress.Layout.{records}
use temp_files.Compress.Cursor.{IsAt, tagged, IsAt-flag, put_index_lem}
use temp_files.Compress.Blocks.{packed_by, IsFit, packed_by_lem, write_record}

module _ {World : Type 0} (Next : Filter World) (V : FileView Next) (T : TwoFiles Next V)
    (uninit : ℕ → List ℕ) (u4 : length (uninit 4) ≡ 4) (u8 : length (uninit 8) ≡ 8)
    (lib : Lz4Library) (max_input block_size compressed_size : ℕ)
    (f : IsFit lib max_input block_size compressed_size) where
  abbrev packed : List ℕ → List ℕ
  packed = packed_by lib compressed_size

  abbrev At :
      Lz4Compress Next → World → IoStack Next → Bool → List (List ℕ) → List ℕ → List ℕ → Type 0
  At = IsAt Next V T packed block_size compressed_size

  -- How the filter may stand to write a record: after a read the index holds one entry at most from
  -- there on, and after a write or a seek it is behind the entry of the record, its last one.
  abbrev pub MayWrite : Lz4Compress Next → List (List ℕ) → List ℕ → Type 0
  MayWrite this before index_rest =
      ((this.previous_read ≡ true) × (length index_rest ≤ 8))
      ⊎ ((this.previous_read ≡ false) × (index_rest ≡ be8 (length (records packed before))))

  sync_for_write_put :
      (this this' : Lz4Compress Next) (w w' : World)
      → this.previous_read ≡ true
      → put_index Next uninit lib this error_ok w ≡ some (this', error_ok, w')
      → sync_for_write Next uninit lib this error_ok w
        ≡ some (record this' { previous_read = false }, error_ok, w')
  unfolding sync_for_write
  sync_for_write_put this this' w w' prev e = rw (e, prev) refl

  sync_for_write_lem :
      {this : Lz4Compress Next} {w : World} {index : IoStack Next} {before : List (List ℕ)}
      {data_rest index_rest : List ℕ}
      → At this w index (not this.previous_read) before data_rest index_rest
      → MayWrite this before index_rest
      → 8 * length before + 8 ≤ max_size
      → (this' : Lz4Compress Next) × (index' : IoStack Next) × (w' : World) × (sync_for_write Next
            uninit lib this error_ok w
          ≡ some (this', error_ok, w'))
        × At this' w' index' true before data_rest (be8 (length (records packed before)))
        × (this'.previous_read ≡ false)
  unfolding sync_for_write
  sync_for_write_lem {this} {w} {index} {before} {data_rest} {index_rest} at (inl (prev, short))
        fits =
      let at' : At this w index false before data_rest index_rest =
        IsAt-flag Next V T packed block_size compressed_size (ap not prev) refl at in
      let (this', index', w', e, at'', kept) =
        put_index_lem Next V T packed block_size compressed_size uninit u8 lib at' short fits in
      (
        record this' { previous_read = false },
        index',
        w',
        sync_for_write_put this this' w w' prev e,
        tagged Next V T packed block_size compressed_size false at'',
        refl,
      )
  sync_for_write_lem {this} {w} {index} {before} {data_rest} {index_rest} at (inr (prev, entry))
        fits =
      (
        record this { previous_read = false },
        index,
        w,
        rw prev refl,
        tagged Next V T packed block_size compressed_size false
            (IsAt-flag Next V T packed block_size compressed_size (ap not prev) entry at),
        refl,
      )

  compressed_buffer :
      (b z : List ℕ) (size : ℕ)
      → lib.compress_default b size ≡ some z
      → lz4_compress_buffer lib b size error_ok ≡ (z, error_ok)
  unfolding lz4_compress_buffer
  compressed_buffer b z size e = rw (e, lz4_compress_buffer) refl

  store_full :
      (this this' : Lz4Compress Next) (size : ℕ) (z : List ℕ) (next : Next.This) (w w1 w2 : World)
      → pass_through_write_sized Next uninit (as_handle Next this) z error_ok w
        ≡ some (length z, record { next = next; is_open = true }, error_ok, w1)
      → (size == this.block_size) ≡ true
      → put_index Next uninit lib
          (record this {
            next = next;
            compressed_position = add_size this.compressed_position (length z + 4);
          })
          error_ok
          w1
        ≡ some (this', error_ok, w2)
      → store_block Next uninit lib this size z error_ok w ≡ some (size, this', error_ok, w2)
  unfolding store_block is_error error_is_ok
  store_full this this' size z next w w1 w2 e full i = rw (e, full, i) refl

  store_partial :
      (this : Lz4Compress Next) (size : ℕ) (z : List ℕ) (next : Next.This) (w w1 : World)
      → pass_through_write_sized Next uninit (as_handle Next this) z error_ok w
        ≡ some (length z, record { next = next; is_open = true }, error_ok, w1)
      → (size == this.block_size) ≡ false
      → store_block Next uninit lib this size z error_ok w
        ≡ some (
          size,
          record this {
            next = next;
            compressed_position = add_size this.compressed_position (length z + 4);
          },
          error_ok,
          w1,
        )
  unfolding store_block is_error error_is_ok
  store_partial this size z next w w1 e partial = rw (e, partial) refl

  write_block_stores :
      (this : Lz4Compress Next) (b z : List ℕ) (w : World)
      → lib.compress_default b this.compressed_size ≡ some z
      → write_block Next uninit lib this b error_ok w
        ≡ store_block Next uninit lib this (length b) z error_ok w
  unfolding write_block
  write_block_stores this b z w c =
      ap (λ r. store_block Next uninit lib this (length b) r.0 r.1 w)
        (compressed_buffer b z this.compressed_size c)

  -- A block that is not full is the last one.
  write_block_lem :
      {this : Lz4Compress Next} {w : World} {index : IoStack Next} {before : List (List ℕ)}
      (b : List ℕ)
      → At this w index true before [] (be8 (length (records packed before)))
      → length b ≤ block_size
      → length (records packed (before ++ b ∷ [])) ≤ max_size
      → 8 * length before + 16 ≤ max_size
      → (this' : Lz4Compress Next) × (index' : IoStack Next) × (w' : World) × (write_block Next
            uninit lib this b error_ok w
          ≡ some (length b, this', error_ok, w'))
        × At this' w' index' (length b == block_size) (before ++ b ∷ []) [] (
            if length b == block_size then be8 (length (records packed (before ++ b ∷ []))) else [])
        × (this'.previous_read ≡ this.previous_read)
  write_block_lem {this} {w} {index} {before} b at le fits room =
      let (c, n, small) = packed_by_lem f b le in
      let c' = write_block_stores this b (packed b) w (rw at.compressed c) in
      let (next, w1, e, at1) =
        write_record Next V T packed block_size compressed_size uninit u4 [] at b n
          (omega (arith, f.small)) fits in
      elim (Bool-cases (length b == block_size)) [
        | inl full ↦
            let (this', index', w', i, at2, kept) =
              put_index_lem Next V T packed block_size compressed_size uninit u8 lib at1
                (omega arith) (omega (arith, length-append before (b ∷ []))) in
            (
              this',
              index',
              w',
              c' ∙ store_full this this' (length b) (packed b) next w w1 w' e (rw at.blocks full) i,
              rw full at2,
              kept,
            )
        | inr partial ↦ (
          _,
          index,
          w1,
          c' ∙ store_partial this (length b) (packed b) next w w1 e (rw at.blocks partial),
          rw partial at1,
          refl,
        )
      ]

  write_in_two :
      (this this1 this' : Lz4Compress Next) (buf : List ℕ) (w w1 w' : World)
      → sync_for_write Next uninit lib this error_ok w ≡ some (this1, error_ok, w1)
      → write_block Next uninit lib this1
          (take (size_min (length buf) this.block_size) buf)
          error_ok
          w1
        ≡ some (length (take (size_min (length buf) this.block_size) buf), this', error_ok, w')
      → lz4_compress_write Next uninit lib this buf error_ok w
        ≡ some (length (take (size_min (length buf) this.block_size) buf), this', error_ok, w')
  unfolding lz4_compress_write
  write_in_two this this1 this' buf w w1 w' e f = rw (e, f) refl

  -- The part of a buffer that lz4CompressWrite takes.
  abbrev pub first_block : List ℕ → List ℕ
  first_block buf = take (min (length buf) block_size) buf

  first_block_lem :
      (this : Lz4Compress Next) (buf : List ℕ)
      → this.block_size ≡ block_size
      → take (size_min (length buf) this.block_size) buf ≡ first_block buf
  unfolding size_min
  first_block_lem this buf e = ap (λ n. take n buf) (ground arith)

  -- Over two separate files of bytes, with a library that keeps its promises, lz4CompressWrite
  -- behind the last record writes the first block of the buffer, or all of a shorter one, as a new
  -- last record, and returns its length without an error, as long as both files stay in the bounds
  -- of a file. After a full block the index has the entry for the next record, behind which it
  -- stands; after a shorter one the index ends with the entry for this record. The last call may
  -- have been a read, if the index has one entry at most from there on, or a write or a seek, if it
  -- ends with the entry of the record.
  pub lz4_compress_write-IsAt :
      {this : Lz4Compress Next} {w : World} {index : IoStack Next} {before : List (List ℕ)}
      {index_rest : List ℕ} (buf : List ℕ)
      → At this w index (not this.previous_read) before [] index_rest
      → MayWrite this before index_rest
      → length (records packed (before ++ first_block buf ∷ [])) ≤ max_size
      → 8 * length before + 16 ≤ max_size
      → (this' : Lz4Compress Next) × (index' : IoStack Next) × (w' : World) × (lz4_compress_write
            Next uninit lib this buf error_ok w
          ≡ some (length (first_block buf), this', error_ok, w'))
        × At this' w' index'
            (length (first_block buf) == block_size)
            (before ++ first_block buf ∷ [])
            []
            (if length (first_block buf) == block_size
              then be8 (length (records packed (before ++ first_block buf ∷ [])))
              else [])
        × (this'.previous_read ≡ false)
  lz4_compress_write-IsAt {this} {w} {index} {before} buf at may fits room =
      let (this1, index1, w1, e, at1, flag) = sync_for_write_lem at may (omega arith) in
      let same = first_block_lem this buf at.blocks in
      let (this', index', w', e', at', kept) =
        write_block_lem (first_block buf) at1
          (omega (arith, length-take (min (length buf) block_size) buf)) fits room in
      (
        this',
        index',
        w',
        subst
            (λ b.
              lz4_compress_write Next uninit lib this buf error_ok w
              ≡ some (length b, this', error_ok, w'))
            same
            (write_in_two this this1 this' buf w w1 w' e (
              subst
                (λ b.
                  write_block Next uninit lib this1 b error_ok w1
                  ≡ some (length b, this', error_ok, w'))
                (sym same) e')),
        at',
        kept ∙ flag,
      )
