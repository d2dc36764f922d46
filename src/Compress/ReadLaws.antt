-- ===== src/Compress/ReadLaws.antt =====
-- lz4CompressRead of a record.

use temp_files.Base.{
  ℕ, ◌+◌, ◌^◌, ◌≤◌, ◌<◌, ◌≡◌, inl, inr, refl, sym, ◌∙◌, ap, Bool, true, false, not, some, List, [],
  ◌∷◌, ◌++◌, length, arith, Bool-cases, length-append, add_size,
}
use temp_files.Common.Errors.{error_ok, is_error, error_is_ok}
use temp_files.Common.Filter.{Filter, size_min}
use temp_files.Common.ByteFile.{FileView}
use temp_files.Common.TwoFiles.{TwoFiles}
use temp_files.Common.Packed.Layout.{be8}
use temp_files.File.IoStack.{IoStack}
use temp_files.File.IoStack.Sized.{pass_through_read_sized}
use temp_files.Compress.Library.{Lz4Library}
use temp_files.Compress.State.{Lz4Compress, as_handle}
use temp_files.Compress.Records.{
  get_index, sync_for_read, read_block, lz4_decompress_buffer, lz4_compress_read,
}
use temp_files.Compress.Layout.{stored, records}
use temp_files.Compress.Cursor.{IsAt, data_law, data_is_open, tagged, IsAt-flag, get_index_lem}
use temp_files.Compress.Blocks.{packed_by, IsFit, packed_by_lem, read_record}

module _ {World : Type 0} (Next : Filter World) (V : FileView Next) (T : TwoFiles Next V)
    (uninit : ℕ → List ℕ) (u4 : length (uninit 4) ≡ 4) (u8 : length (uninit 8) ≡ 8)
    (lib : Lz4Library) (max_input block_size compressed_size : ℕ)
    (f : IsFit lib max_input block_size compressed_size) where
  abbrev packed : List ℕ → List ℕ
  packed = packed_by lib compressed_size

  abbrev At :
      Lz4Compress Next → World → IoStack Next → Bool → List (List ℕ) → List ℕ → List ℕ → Type 0
  At = IsAt Next V T packed block_size compressed_size

  sync_for_read_got :
      (this this' : Lz4Compress Next) (value : ℕ) (w w' : World)
      → this.previous_read ≡ true
      → get_index Next uninit lib this error_ok w ≡ some (value, this', error_ok, w')
      → sync_for_read Next uninit lib this error_ok w
        ≡ some (record this' { previous_read = true }, error_ok, w')
  unfolding sync_for_read
  sync_for_read_got this this' value w w' prev e = rw (e, prev) refl

  sync_for_read_ahead :
      (this : Lz4Compress Next) (w : World)
      → this.previous_read ≡ false
      → sync_for_read Next uninit lib this error_ok w
        ≡ some (record this { previous_read = true }, error_ok, w)
  unfolding sync_for_read
  sync_for_read_ahead this w prev = rw prev refl

  sync_for_read_lem :
      {this : Lz4Compress Next} {w : World} {index : IoStack Next} {before : List (List ℕ)}
      {data_rest : List ℕ} (more : List ℕ)
      → At this w index
          (not this.previous_read)
          before
          data_rest
          (be8 (length (records packed before)) ++ more)
      → length (records packed before) < 2 ^ 64
      → (this' : Lz4Compress Next) × (index' : IoStack Next) × (w' : World) × (sync_for_read Next
            uninit lib this error_ok w
          ≡ some (this', error_ok, w'))
        × At this' w' index' true before data_rest (be8 (length (records packed before)) ++ more)
        × (this'.previous_read ≡ true)
  sync_for_read_lem {this} {w} {index} {before} more at small =
      elim (Bool-cases this.previous_read) [
        | inl prev ↦
            let (this', index', w', e, at', kept) =
              get_index_lem Next V T packed block_size compressed_size uninit u8 lib more
                (length (records packed before))
                (IsAt-flag Next V T packed block_size compressed_size (ap not prev) refl at) refl
                small in
            (
              record this' { previous_read = true },
              index',
              w',
              sync_for_read_got this this' _ w w' prev e,
              tagged Next V T packed block_size compressed_size true at',
              refl,
            )
        | inr prev ↦ (
          record this { previous_read = true },
          index,
          w,
          sync_for_read_ahead this w prev,
          tagged Next V T packed block_size compressed_size true
              (IsAt-flag Next V T packed block_size compressed_size (ap not prev) refl at),
          refl,
        )
      ]

  decompressed :
      (b : List ℕ) (limit : ℕ)
      → length b ≤ limit
      → length b ≤ block_size
      → lz4_decompress_buffer lib (packed b) limit error_ok ≡ (b, error_ok)
  unfolding lz4_decompress_buffer
  decompressed b limit h le =
      let (c, n, small) = packed_by_lem f b le in
      rw
        (
          f.library.decompress_lem b (packed b) compressed_size limit c h
              (omega (arith, f.block_le)),
          lz4_decompress_buffer,
        )
        refl

  read_block_returns :
      (this : Lz4Compress Next) (limit : ℕ) (z b : List ℕ) (next : Next.This) (w w1 : World)
      → pass_through_read_sized Next uninit (as_handle Next this) this.compressed_size error_ok w
        ≡ some (z, record { next = next; is_open = true }, error_ok, w1)
      → lz4_decompress_buffer lib z limit error_ok ≡ (b, error_ok)
      → read_block Next uninit lib this limit error_ok w
        ≡ some (
          b,
          record this {
            next = next;
            compressed_position = add_size this.compressed_position (length z + 4);
          },
          error_ok,
          w1,
        )
  unfolding read_block is_error error_is_ok
  read_block_returns this limit z b next w w1 e d = rw e (
      ap
        (λ r. some (
          r.0,
          record this {
            next = next;
            compressed_position = add_size this.compressed_position (length z + 4);
          },
          r.1,
          w1,
        ))
        d)

  read_in_two :
      (this this1 this' : Lz4Compress Next) (size : ℕ) (b : List ℕ) (w w1 w' : World)
      → sync_for_read Next uninit lib this error_ok w ≡ some (this1, error_ok, w1)
      → read_block Next uninit lib this1 (size_min size this.block_size) error_ok w1
        ≡ some (b, this', error_ok, w')
      → lz4_compress_read Next uninit lib this size error_ok w ≡ some (b, this', error_ok, w')
  unfolding lz4_compress_read is_error error_is_ok
  read_in_two this this1 this' size b w w1 w' e g = rw (e, g) refl

  min_size :
      (size k : ℕ) (this : Lz4Compress Next)
      → this.block_size ≡ block_size
      → k ≤ size
      → k ≤ block_size
      → k ≤ size_min size this.block_size
  unfolding size_min
  min_size size k this e h l = ground arith

  -- Over two separate files of bytes, with a library that keeps its promises, lz4CompressRead where
  -- the next record holds a block that is no larger than a block of the filter and fits the caller's
  -- size returns that block without an error, whether the last call was a read or not. The filter
  -- and the index then stand behind the record, and the two files are unchanged.
  pub lz4_compress_read-IsAt :
      {this : Lz4Compress Next} {w : World} {index : IoStack Next} {before : List (List ℕ)}
      (b data_more index_more : List ℕ) (size : ℕ)
      → At this w index
          (not this.previous_read)
          before
          (stored packed b ++ data_more)
          (be8 (length (records packed before)) ++ index_more)
      → length b ≤ size
      → length b ≤ block_size
      → (this' : Lz4Compress Next) × (index' : IoStack Next) × (w' : World) × (lz4_compress_read
            Next uninit lib this size error_ok w
          ≡ some (b, this', error_ok, w'))
        × At this' w' index' (not this'.previous_read) (before ++ b ∷ []) data_more index_more
  lz4_compress_read-IsAt {this} {w} {index} {before} b data_more index_more size at h le =
      let (c, n, small) = packed_by_lem f b le in
      let inside =
        (data_law Next V T packed block_size compressed_size at).bounded this.next w
          (data_is_open Next V T packed block_size compressed_size at) in
      let total =
        ap (length {0}) at.data_bytes
        ∙ length-append (records packed before) (stored packed b ++ data_more) in
      let (this1, index1, w1, e, at1, flag) = sync_for_read_lem index_more at (omega arith) in
      let (next, w', e', at') =
        read_record Next V T packed block_size compressed_size uninit u4 index_more data_more b at1
          n small f.small in
      (
        _,
        index1,
        w',
        read_in_two this this1 _ size b w w1 w' e (
            read_block_returns this1 (size_min size this.block_size) (packed b) b next w1 w'
              (rw at1.compressed e')
              (decompressed b (size_min size this.block_size)
                (min_size size (length b) this at.blocks h le) le)),
        IsAt-flag Next V T packed block_size compressed_size (ap not (sym flag)) refl at',
      )
