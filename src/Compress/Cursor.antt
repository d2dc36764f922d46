-- ===== src/Compress/Cursor.antt =====
-- Where a compression filter stands in its two files, and how it keeps the index in step.

use temp_files.Base.{
  ℕ, ◌+◌, ◌*◌, ◌^◌, ◌≤◌, ◌<◌, ◌≡◌, refl, ◌∙◌, ap, Bool, true, false, some, List, [], ◌++◌, length,
  take, drop, splice, arith, if◌then◌else◌, length-append, drop-all,
}
use mathlib.Core.Path.{subst}
use temp_files.Common.Errors.{error_ok}
use temp_files.Common.Filter.{Filter}
use temp_files.Common.ByteFile.{FileView, IsByteFile, max_size}
use temp_files.Common.TwoFiles.{TwoFiles, beside}
use temp_files.Common.Packed.Layout.{be8}
use temp_files.File.IoStack.{IoStack, file_put8, file_get8}
use temp_files.File.IoStack.Effects.{put8_lem, get8_lem}
use temp_files.Compress.Library.{Lz4Library}
use temp_files.Compress.State.{Lz4Compress}
use temp_files.Compress.Records.{put_index, get_index}
use temp_files.Compress.Layout.{records, starts, length-starts, take-drop-middle, splice-append}

module _ {World : Type 0} (Next : Filter World) (V : FileView Next) (T : TwoFiles Next V)
    (packed : List ℕ → List ℕ) (block_size compressed_size : ℕ) where
  -- The filter stands behind the records of `before`; `data_rest` and `index_rest` are what the two files
  -- hold behind there. The index stands at the entry for the next record, or is `ahead`, behind it.
  pub record IsAt (this : Lz4Compress Next) (w : World) (index : IoStack Next) (ahead : Bool)
      (before : List (List ℕ)) (data_rest index_rest : List ℕ) : Type 0 where
    pub is_index : this.index_file ≡ some index
    pub blocks : this.block_size ≡ block_size
    pub compressed : this.compressed_size ≡ compressed_size
    pub data_open : V.IsOpen this.next w
    pub index_open : V.IsOpen index.next w
    pub apart : T.Apart this.next index.next w
    pub data_bytes : V.contents this.next w ≡ records packed before ++ data_rest
    pub data_pos : V.pos this.next w ≡ length (records packed before)
    pub position : this.compressed_position ≡ length (records packed before)
    pub index_bytes : V.contents index.next w ≡ starts packed 0 before ++ index_rest
    pub index_pos : V.pos index.next w ≡ 8 * length before + (if ahead then 8 else 0)

  module _ {this : Lz4Compress Next} {w : World} {index : IoStack Next} {ahead : Bool}
      {before : List (List ℕ)} {data_rest index_rest : List ℕ}
      (at : IsAt this w index ahead before data_rest index_rest) where
    abbrev pub data_view : FileView Next
    data_view = beside Next V T.Apart index.next (V.contents index.next w) (V.pos index.next w)

    pub data_law : IsByteFile Next data_view
    data_law = T.framed index.next (V.contents index.next w) (V.pos index.next w)

    abbrev pub index_view : FileView Next
    index_view = beside Next V T.Apart this.next (V.contents this.next w) (V.pos this.next w)

    pub index_law : IsByteFile Next index_view
    index_law = T.framed this.next (V.contents this.next w) (V.pos this.next w)

    pub data_is_open : data_view.IsOpen this.next w
    data_is_open = (at.data_open, at.apart, at.index_open, refl, refl)

    pub index_is_open : index_view.IsOpen index.next w
    index_is_open =
        (at.index_open, T.apart_sym this.next index.next w at.apart, at.data_open, refl, refl)

  -- `previous_read` says nothing by itself.
  pub tagged :
      {this : Lz4Compress Next} {w : World} {index : IoStack Next} {ahead : Bool}
      {before : List (List ℕ)} {data_rest index_rest : List ℕ} (previous_read : Bool)
      → IsAt this w index ahead before data_rest index_rest
      → IsAt
          (record this { previous_read = previous_read })
          w
          index
          ahead
          before
          data_rest
          index_rest
  tagged previous_read at = record {
    is_index = at.is_index;
    blocks = at.blocks;
    compressed = at.compressed;
    data_open = at.data_open;
    index_open = at.index_open;
    apart = at.apart;
    data_bytes = at.data_bytes;
    data_pos = at.data_pos;
    position = at.position;
    index_bytes = at.index_bytes;
    index_pos = at.index_pos;
  }

  pub IsAt-flag :
      {this : Lz4Compress Next} {w : World} {index : IoStack Next} {ahead flag : Bool}
      {before : List (List ℕ)} {data_rest index_rest rest : List ℕ}
      → ahead ≡ flag
      → index_rest ≡ rest
      → IsAt this w index ahead before data_rest index_rest
      → IsAt this w index flag before data_rest rest
  IsAt-flag {this} {w} {index} {ahead} {flag} {before} {data_rest} {index_rest} {rest} e r at =
      subst (λ x. IsAt this w index flag before data_rest x) r
        (subst (λ b. IsAt this w index b before data_rest index_rest) e at)

  -- After a call on the index alone.
  pub index_moved :
      {this : Lz4Compress Next} {w : World} {index : IoStack Next} {ahead : Bool}
      {before : List (List ℕ)} {data_rest index_rest : List ℕ}
      (at : IsAt this w index ahead before data_rest index_rest) (next : Next.This) (w' : World)
      (rest : List ℕ)
      → (index_view at).IsOpen next w'
      → V.contents next w' ≡ starts packed 0 before ++ rest
      → V.pos next w' ≡ 8 * length before + 8
      → IsAt
          (record this { index_file = some (record index { next = next }) })
          w'
          (record index { next = next })
          true
          before
          data_rest
          rest
  index_moved {this} {w} {index} at next w' rest (o, a, od, c, p) x y = record {
    is_index = refl;
    blocks = at.blocks;
    compressed = at.compressed;
    data_open = od;
    index_open = o;
    apart = T.apart_sym next this.next w' a;
    data_bytes = c ∙ at.data_bytes;
    data_pos = p ∙ at.data_pos;
    position = at.position;
    index_bytes = x;
    index_pos = y;
  }

  module _ (uninit : ℕ → List ℕ) (u : length (uninit 8) ≡ 8) (lib : Lz4Library) where
    put_index_returns :
        (this : Lz4Compress Next) (index index' : IoStack Next) (w w' : World)
        → this.index_file ≡ some index
        → file_put8 Next uninit index this.compressed_position error_ok w
          ≡ some (false, index', error_ok, w')
        → put_index Next uninit lib this error_ok w
          ≡ some (record this { index_file = some index' }, error_ok, w')
    unfolding put_index
    put_index_returns this index index' w w' e f = rw (e, f) refl

    get_index_returns :
        (this : Lz4Compress Next) (index index' : IoStack Next) (value : ℕ) (w w' : World)
        → this.index_file ≡ some index
        → file_get8 Next uninit index error_ok w ≡ some (value, index', error_ok, w')
        → get_index Next uninit lib this error_ok w
          ≡ some (value, record this { index_file = some index' }, error_ok, w')
    unfolding get_index
    get_index_returns this index index' value w w' e f = rw (e, f) refl

    -- The entry for the current record is put, over an old one if there is one.
    pub put_index_lem :
        {this : Lz4Compress Next} {w : World} {index : IoStack Next} {before : List (List ℕ)}
        {data_rest index_rest : List ℕ}
        → IsAt this w index false before data_rest index_rest
        → length index_rest ≤ 8
        → 8 * length before + 8 ≤ max_size
        → (this' : Lz4Compress Next) × (index' : IoStack Next) × (w' : World) × (put_index Next
              uninit lib this error_ok w
            ≡ some (this', error_ok, w'))
          × IsAt this' w' index' true before data_rest (be8 (length (records packed before)))
          × (this'.previous_read ≡ this.previous_read)
    put_index_lem {this} {w} {index} {before} {data_rest} {index_rest} at short fits =
        let here : V.pos index.next w ≡ length (starts packed 0 before) =
          at.index_pos ∙ omega (arith, length-starts packed 0 before) in
        let (next, w', e, o, c, p) =
          put8_lem Next uninit u (index_view at) (index_law at) index w this.compressed_position
            (index_is_open at) (omega (arith, length-starts packed 0 before)) in
        let end : drop (length (be8 this.compressed_position)) index_rest ≡ [] =
          drop-all 8 index_rest short in
        (
          record this { index_file = some (record index { next = next }) },
          record index { next = next },
          w',
          put_index_returns this index (record index { next = next }) w w' at.is_index e,
          index_moved at next w' (be8 (length (records packed before))) o
              (c
                ∙ ap (λ b. splice (V.pos index.next w) (be8 this.compressed_position) b)
                    at.index_bytes
                ∙ splice-append (V.pos index.next w) (starts packed 0 before)
                    (be8 this.compressed_position) index_rest here
                ∙ ap (λ r. starts packed 0 before ++ (be8 this.compressed_position ++ r)) end
                ∙ ap (λ n. starts packed 0 before ++ be8 n) at.position)
              (omega (arith, p, length-starts packed 0 before)),
          refl,
        )

    -- The entry for the current record is got.
    pub get_index_lem :
        {this : Lz4Compress Next} {w : World} {index : IoStack Next} {before : List (List ℕ)}
        {data_rest index_rest : List ℕ} (more : List ℕ) (value : ℕ)
        → IsAt this w index false before data_rest index_rest
        → index_rest ≡ be8 value ++ more
        → value < 2 ^ 64
        → (this' : Lz4Compress Next) × (index' : IoStack Next) × (w' : World) × (get_index Next
              uninit lib this error_ok w
            ≡ some (value, this', error_ok, w'))
          × IsAt this' w' index' true before data_rest index_rest
          × (this'.previous_read ≡ this.previous_read)
    get_index_lem {this} {w} {index} {before} {data_rest} {index_rest} more value at x small =
        let here : V.pos index.next w ≡ length (starts packed 0 before) =
          at.index_pos ∙ omega (arith, length-starts packed 0 before) in
        let bytes : V.contents index.next w ≡ starts packed 0 before ++ (be8 value ++ more) =
          at.index_bytes ∙ ap (λ r. starts packed 0 before ++ r) x in
        let total : length (V.contents index.next w)
            ≡ length (starts packed 0 before) + (8 + length more) =
          ap (length {0}) bytes
          ∙ length-append (starts packed 0 before) (be8 value ++ more)
          ∙ ap (λ n. length (starts packed 0 before) + n) (length-append (be8 value) more) in
        let entry : take 8 (drop (V.pos index.next w) (V.contents index.next w)) ≡ be8 value =
          ap (λ b. take 8 (drop (V.pos index.next w) b)) bytes
          ∙ take-drop-middle (V.pos index.next w) 8 (starts packed 0 before) (be8 value) more here
              refl in
        let (next, w', e, o, c, p) =
          get8_lem Next uninit u (index_view at) (index_law at) index w value (index_is_open at)
            (omega arith) entry small in
        (
          record this { index_file = some (record index { next = next }) },
          record index { next = next },
          w',
          get_index_returns this index (record index { next = next }) value w w' at.is_index e,
          index_moved at next w' index_rest o (c ∙ at.index_bytes)
              (omega (arith, p, length-starts packed 0 before)),
          refl,
        )
