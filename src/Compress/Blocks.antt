-- ===== src/Compress/Blocks.antt =====
-- A record that is written behind the others, and one that is read.

use mathlib.Core.List.{append_assoc, append-nil}
use temp_files.Base.{
  ℕ, ◌+◌, ◌^◌, ◌≤◌, ◌<◌, ◌≡◌, refl, sym, ◌∙◌, ap, true, false, none, some, List, [], ◌∷◌, ◌++◌,
  length, take, drop, splice, arith, length-append, add_size, add_size-eq,
}
use temp_files.Common.Errors.{error_ok}
use temp_files.Common.Filter.{Filter}
use temp_files.Common.ByteFile.{FileView, max_size}
use temp_files.Common.TwoFiles.{TwoFiles}
use temp_files.Common.Packed.Layout.{be4, be8}
use temp_files.File.IoStack.{IoStack}
use temp_files.File.IoStack.Sized.{pass_through_write_sized, pass_through_read_sized}
use temp_files.File.IoStack.Sized.RoundTrip.{write_sized_lem, read_sized_lem}
use temp_files.Compress.Library.{Lz4Library, IsLz4Library}
use temp_files.Compress.State.{Lz4Compress, as_handle}
use temp_files.Compress.Layout.{
  stored, records, starts, records-append, starts-append, take-drop-middle, splice-append,
}
use temp_files.Compress.Cursor.{IsAt, data_view, data_law, data_is_open}

-- What a block is compressed to, in a buffer of `compressed_size` bytes.
abbrev pub packed_by : Lz4Library → ℕ → List ℕ → List ℕ
packed_by lib compressed_size b = elim (lib.compress_default b compressed_size) [
  | none ↦ []
  | some z ↦ z
]

-- Sizes that go together: the filter's blocks are no larger than liblz4 takes, and the buffer is as large
-- as LZ4_compressBound says.
pub record IsFit (lib : Lz4Library) (max_input block_size compressed_size : ℕ) : Type 0 where
  pub library : IsLz4Library lib max_input
  pub block_pos : 0 < block_size
  pub block_le : block_size ≤ max_input
  pub bound_le : lib.compress_bound block_size ≤ compressed_size
  pub small : compressed_size < 2 ^ 32

packed_by-compress :
    (lib : Lz4Library) (compressed_size : ℕ) (b z : List ℕ)
    → lib.compress_default b compressed_size ≡ some z
    → packed_by lib compressed_size b ≡ z
packed_by-compress lib compressed_size b z e = rw (e, packed_by) refl

pub packed_by_lem :
    {lib : Lz4Library} {max_input block_size compressed_size : ℕ}
    (f : IsFit lib max_input block_size compressed_size) (b : List ℕ)
    → length b ≤ block_size
    → (lib.compress_default b compressed_size ≡ some (packed_by lib compressed_size b))
      × (0 < length (packed_by lib compressed_size b))
      × (length (packed_by lib compressed_size b) ≤ compressed_size)
packed_by_lem {lib} {max_input} {block_size} {compressed_size} f b h =
    let mono = f.library.bound_mono (length b) block_size h f.block_le in
    let bound = f.bound_le in
    let (z, e, n, le) =
      f.library.compress_lem b compressed_size (omega (arith, f.block_le)) (omega arith) in
    let same = packed_by-compress lib compressed_size b z e in
    (
      e ∙ ap (λ y. some y) (sym same),
      omega (arith, ap (length {0}) same),
      omega (arith, ap (length {0}) same),
    )

length-snoc : (xs : List (List ℕ)) (y : List ℕ) → length (xs ++ y ∷ []) ≡ length xs + 1
length-snoc xs y = length-append xs (y ∷ [])

module _ {World : Type 0} (Next : Filter World) (V : FileView Next) (T : TwoFiles Next V)
    (packed : List ℕ → List ℕ) (block_size compressed_size : ℕ) (uninit : ℕ → List ℕ)
    (u : length (uninit 4) ≡ 4) where
  -- The filter after its data file has moved over a record.
  abbrev past : Lz4Compress Next → Next.This → ℕ → Lz4Compress Next
  past this next size = record this {
    next = next;
    compressed_position = add_size this.compressed_position size;
  }

  length-records_snoc :
      (before : List (List ℕ)) (b : List ℕ)
      → length (records packed (before ++ b ∷ []))
        ≡ length (records packed before) + (length (packed b) + 4)
  length-records_snoc before b =
      ap (length {0}) (records-append packed before (b ∷ []))
      ∙ length-append (records packed before) (records packed (b ∷ []))
      ∙ omega (
        arith,
        length-append (stored packed b) [],
        length-append (be4 (length (packed b))) (packed b),
      )

  -- The index stood behind the entry of the record: it is at the next one now.
  pub past-IsAt :
      {this : Lz4Compress Next} {w : World} {index : IoStack Next} {before : List (List ℕ)}
      {data_rest : List ℕ} (more : List ℕ)
      (at : IsAt Next V T packed block_size compressed_size this w index true before data_rest
        (be8 (length (records packed before)) ++ more))
      (b rest : List ℕ) (next : Next.This) (w' : World)
      → (data_view Next V T packed block_size compressed_size at).IsOpen next w'
      → V.contents next w' ≡ records packed before ++ (stored packed b ++ rest)
      → V.pos next w' ≡ length (records packed before) + (4 + length (packed b))
      → length (records packed (before ++ b ∷ [])) ≤ max_size
      → IsAt Next V T packed block_size compressed_size
          (past this next (length (packed b) + 4))
          w'
          index
          false
          (before ++ b ∷ [])
          rest
          more
  past-IsAt {this} {w} {index} {before} more at b rest next w' (o, a, oi, c, p) x y fits =
      let len = length-records_snoc before b in
      record {
        is_index = at.is_index;
        blocks = at.blocks;
        compressed = at.compressed;
        data_open = o;
        index_open = oi;
        apart = a;
        data_bytes =
            x
            ∙ sym (append_assoc (records packed before) (stored packed b) rest)
            ∙ ap (λ r. (records packed before ++ r) ++ rest) (sym (append-nil (stored packed b)))
            ∙ ap (λ r. r ++ rest) (sym (records-append packed before (b ∷ [])));
        data_pos = omega arith;
        position =
            add_size-eq this.compressed_position (length (packed b) + 4)
              (omega (arith, at.position))
            ∙ omega (arith, at.position);
        index_bytes =
            c
            ∙ at.index_bytes
            ∙ sym
                (append_assoc (starts packed 0 before) (be8 (length (records packed before))) more)
            ∙ ap (λ n. (starts packed 0 before ++ be8 n) ++ more) (omega arith)
            ∙ ap (λ r. r ++ more) (sym (starts-append packed 0 before b));
        index_pos = p ∙ at.index_pos ∙ omega (arith, length-snoc before b);
      }

  -- A record is written behind all the others.
  pub write_record :
      {this : Lz4Compress Next} {w : World} {index : IoStack Next} {before : List (List ℕ)}
      (more : List ℕ)
      (at : IsAt Next V T packed block_size compressed_size this w index true before []
        (be8 (length (records packed before)) ++ more))
      (b : List ℕ)
      → 0 < length (packed b)
      → length (packed b) < 2 ^ 32
      → length (records packed (before ++ b ∷ [])) ≤ max_size
      → (next : Next.This) × (w' : World) × (pass_through_write_sized Next uninit
            (as_handle Next this)
            (packed b)
            error_ok
            w
          ≡ some (length (packed b), record { next = next; is_open = true }, error_ok, w'))
        × IsAt Next V T packed block_size compressed_size
            (past this next (length (packed b) + 4))
            w'
            index
            false
            (before ++ b ∷ [])
            []
            more
  write_record {this} {w} {index} {before} more at b n small fits =
      let len = length-records_snoc before b in
      let (next, w', e, o, c, p) =
        write_sized_lem Next uninit u (data_view Next V T packed block_size compressed_size at)
          (data_law Next V T packed block_size compressed_size at) (as_handle Next this) w
          (packed b) (data_is_open Next V T packed block_size compressed_size at) n small
          (omega (arith, at.data_pos)) in
      (
        next,
        w',
        e,
        past-IsAt more at b [] next w' o
            (c
              ∙ ap (λ d. splice (V.pos this.next w) (stored packed b) d) at.data_bytes
              ∙ splice-append (V.pos this.next w) (records packed before) (stored packed b) []
                  at.data_pos)
            (omega (arith, p, at.data_pos)) fits,
      )

  -- A record is read.
  pub read_record :
      {this : Lz4Compress Next} {w : World} {index : IoStack Next} {before : List (List ℕ)}
      (more rest b : List ℕ)
      (at : IsAt Next V T packed block_size compressed_size this w index true before
        (stored packed b ++ rest)
        (be8 (length (records packed before)) ++ more))
      → 0 < length (packed b)
      → length (packed b) ≤ compressed_size
      → compressed_size < 2 ^ 32
      → (next : Next.This) × (w' : World) × (pass_through_read_sized Next uninit
            (as_handle Next this)
            compressed_size
            error_ok
            w
          ≡ some (packed b, record { next = next; is_open = true }, error_ok, w'))
        × IsAt Next V T packed block_size compressed_size
            (past this next (length (packed b) + 4))
            w'
            index
            false
            (before ++ b ∷ [])
            rest
            more
  read_record {this} {w} {index} {before} more rest b at n le small =
      let sum : length (stored packed b) ≡ 4 + length (packed b) =
        length-append (be4 (length (packed b))) (packed b) in
      let total : length (V.contents this.next w)
          ≡ length (records packed before) + (4 + length (packed b) + length rest) =
        ap (length {0}) at.data_bytes
        ∙ length-append (records packed before) (stored packed b ++ rest)
        ∙ ap (λ n. length (records packed before) + n) (length-append (stored packed b) rest)
        ∙ ap (λ n. length (records packed before) + (n + length rest)) sum in
      let short =
        (data_law Next V T packed block_size compressed_size at).bounded this.next w
          (data_is_open Next V T packed block_size compressed_size at) in
      let (next, w', e, o, c, p) =
        read_sized_lem Next uninit u (data_view Next V T packed block_size compressed_size at)
          (data_law Next V T packed block_size compressed_size at) (as_handle Next this) w
          (packed b) compressed_size (data_is_open Next V T packed block_size compressed_size at) n
          (omega arith) le (omega (arith, at.data_pos))
          (ap (λ d. take (4 + length (packed b)) (drop (V.pos this.next w) d)) at.data_bytes
            ∙ take-drop-middle (V.pos this.next w) (4 + length (packed b)) (records packed before)
                (stored packed b) rest at.data_pos (sym sum)) in
      (
        next,
        w',
        e,
        past-IsAt more at b rest next w' o (c ∙ at.data_bytes) (omega (arith, p, at.data_pos))
            (omega (arith, total, short, length-records_snoc before b)),
      )
