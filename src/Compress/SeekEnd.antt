-- ===== src/Compress/SeekEnd.antt =====
-- lz4CompressSeek to the end of a file with a partial last block.
use native.Mathlib.Nat.{zero-add}
use mathlib.Core.Path.{subst}
use mathlib.Core.List.{append-nil}
use temp_files.Base.{
  ℕ, ◌+◌, ◌-◌, ◌*◌, ◌/◌, ◌%◌, ◌<◌, ◌≡◌, refl, sym, ◌∙◌, ap, Bool, true, false, not, some, List, [],
  ◌∷◌, ◌++◌, length, arith, ltb, ◌==◌, length-append, size_mod, add_size-eq,
}
use temp_files.Common.Errors.{error_ok, error_is_ok, error_is_eof}
use temp_files.Common.Filter.{Filter, file_end_position}
use temp_files.Common.ByteFile.{FileView}
use temp_files.Common.TwoFiles.{TwoFiles}
use temp_files.Common.Packed.Layout.{be8}
use temp_files.File.IoStack.{IoStack}
use temp_files.File.IoStack.Laws.{file_seek_returns}
use temp_files.Compress.Library.{Lz4Library}
use temp_files.Compress.State.{Lz4Compress}
use temp_files.Compress.Records.{lz4_compress_read}
use temp_files.Compress.Seeking.{seek_index, seek_block, lz4_seek_end, lz4_compress_seek}
use temp_files.Compress.Layout.{records, starts, records-append, starts-append, length-starts}
use temp_files.Compress.Cursor.{IsAt, IsAt-flag}
use temp_files.Compress.Blocks.{packed_by, IsFit}
use temp_files.Compress.ReadLaws.{lz4_compress_read-IsAt}
use temp_files.Compress.SeekLaws.{Holds, IsAt-Holds, index_opened, index_file_law, seek_block-IsAt}

one_more : (n : ℕ) → (n + 1 == 0) ≡ false
one_more n = ground arith

less_than : (a b c : ℕ) → a < b → c ≡ b → ltb a c ≡ true
less_than a b c h e = ground arith

last_block : (n k m p : ℕ) → m ≡ k → n * k ≡ p → p < size_mod → (n + 1 - 1) * m % size_mod ≡ p
last_block n k m p e q h =
    ap (λ j. j * m % size_mod) (omega arith)
    ∙ ap (λ j. n * j % size_mod) e
    ∙ ap (λ j. j % size_mod) q
    ∙ omega arith

module _ {World : Type 0} (Next : Filter World) (V : FileView Next) (T : TwoFiles Next V)
    (uninit : ℕ → List ℕ) (u4 : length (uninit 4) ≡ 4) (u8 : length (uninit 8) ≡ 8)
    (lib : Lz4Library) (max_input block_size compressed_size : ℕ)
    (f : IsFit lib max_input block_size compressed_size) where
  abbrev packed : List ℕ → List ℕ
  packed = packed_by lib compressed_size

  abbrev At :
      Lz4Compress Next → World → IoStack Next → Bool → List (List ℕ) → List ℕ → List ℕ → Type 0
  At = IsAt Next V T packed block_size compressed_size

  abbrev Held : Lz4Compress Next → World → IoStack Next → List ℕ → List ℕ → Type 0
  Held = Holds Next V T packed block_size compressed_size uninit u8 lib

  index_end_returns :
      (this : Lz4Compress Next) (index : IoStack Next) (n : ℕ) (next : Next.This) (w w' : World)
      → this.index_file ≡ some index
      → Next.fn_seek index.next file_end_position error_ok w ≡ some (n, next, error_ok, w')
      → seek_index Next uninit lib this file_end_position error_ok w
        ≡ some (n, record this { index_file = some (record index { next = next }) }, error_ok, w')
  unfolding seek_index
  index_end_returns this index n next w w' e g =
      rw (e, file_seek_returns Next index w w' file_end_position n next g) refl

  -- The index is at its end.
  index_end :
      {this : Lz4Compress Next} {w : World} {index : IoStack Next} {data_file index_file : List ℕ}
      → Held this w index data_file index_file
      → (next : Next.This) × (w' : World) × (seek_index Next uninit lib this file_end_position
            error_ok w
          ≡ some (
            length index_file,
            record this { index_file = some (record index { next = next }) },
            error_ok,
            w',
          ))
        × Held
            (record this { index_file = some (record index { next = next }) })
            w'
            (record index { next = next })
            data_file
            index_file
  index_end {this} {w} {index} {data_file} {index_file} h =
      let s =
        (index_file_law Next V T packed block_size compressed_size uninit u8 lib this w).seek_end
          index.next w (index_opened Next V T packed block_size compressed_size uninit u8 lib h) in
      let (o, a, od, cd, pd) = s.opened in
      (
        s.this',
        s.w',
        index_end_returns this index (length (V.contents index.next w)) s.this' w s.w' h.is_index
              s.returns
            ∙ ap
                (λ b. some (
                  length b,
                  record this { index_file = some (record index { next = s.this' }) },
                  error_ok,
                  s.w',
                ))
                h.index_bytes,
        record {
          is_index = refl;
          blocks = h.blocks;
          compressed = h.compressed;
          data_open = od;
          index_open = o;
          apart = T.apart_sym s.this' this.next s.w' a;
          data_bytes = cd ∙ h.data_bytes;
          index_bytes = s.same ∙ h.index_bytes;
        },
      )

  end_returns :
      (this this1 this2 this3 this4 : Lz4Compress Next) (n p there there2 : ℕ) (last : List ℕ)
      (w w1 w2 w3 w4 : World)
      → seek_index Next uninit lib this file_end_position error_ok w
        ≡ some (8 * (n + 1), this1, error_ok, w1)
      → this1.block_size ≡ block_size
      → n * block_size ≡ p
      → p + length last < size_mod
      → seek_block Next uninit lib this1 p error_ok w1 ≡ some (there, this2, error_ok, w2)
      → lz4_compress_read Next uninit lib this2 this2.block_size error_ok w2
        ≡ some (last, this3, error_ok, w3)
      → this3.block_size ≡ block_size
      → length last < block_size
      → seek_block Next uninit lib this3 p error_ok w3 ≡ some (there2, this4, error_ok, w4)
      → lz4_seek_end Next uninit lib this error_ok w ≡ some (p + length last, this4, error_ok, w4)
  unfolding lz4_seek_end error_is_ok error_is_eof
  end_returns this this1 this2 this3 this4 n p there there2 last w w1 w2 w3 w4 e b1 q fits s r b3
        short t =
      let count : 8 * (n + 1) / 8 ≡ n + 1 = omega arith in
      let some_records : (n + 1 == 0) ≡ false = one_more n in
      let position : (n + 1 - 1) * this1.block_size % size_mod ≡ p =
        last_block n block_size this1.block_size p b1 q (omega arith) in
      let partial : ltb (length last) this3.block_size ≡ true =
        less_than (length last) block_size this3.block_size short b3 in
      let size = add_size-eq p (length last) fits in
      rw (e, count, some_records, position, s, r, partial, t, size) refl

  data_split :
      (before : List (List ℕ)) (c : List ℕ)
      → records packed (before ++ c ∷ []) ≡ records packed before ++ records packed (c ∷ [])
  data_split before c = records-append packed before (c ∷ [])

  index_split :
      (before : List (List ℕ)) (c : List ℕ)
      → starts packed 0 (before ++ c ∷ [])
        ≡ starts packed 0 before ++ (be8 (length (records packed before)) ++ [])
  index_split before c =
      starts-append packed 0 before c
      ∙ ap (λ n. starts packed 0 before ++ be8 n) (zero-add (length (records packed before)))

  index_size :
      (before : List (List ℕ)) (c : List ℕ)
      → length (starts packed 0 (before ++ c ∷ [])) ≡ 8 * (length before + 1)
  index_size before c =
      length-starts packed 0 (before ++ c ∷ []) ∙ ap (λ n. 8 * n) (length-append before (c ∷ []))

  -- Over two separate files of bytes, of which the data file holds the records of the blocks
  -- `before` and of a last one that is shorter than a block of the filter, and the index their
  -- entries, with a library that keeps its promises, lz4CompressSeek to the end returns without an
  -- error the size of a file of full blocks and the last one, wherever the filter stood, as long as
  -- the size fits a size_t. Both files are unchanged, and the filter stands before the last record,
  -- as after a write.
  pub lz4_compress_seek_end-IsAt :
      {this : Lz4Compress Next} {w : World} {index : IoStack Next} (before : List (List ℕ))
      (c : List ℕ)
      → Held this w index (records packed (before ++ c ∷ [])) (starts packed 0 (before ++ c ∷ []))
      → length c < block_size
      → length before * block_size + length c < size_mod
      → (this' : Lz4Compress Next) × (index' : IoStack Next) × (w' : World) × (lz4_compress_seek
            Next uninit lib this file_end_position error_ok w
          ≡ some (length before * block_size + length c, this', error_ok, w'))
        × At this' w' index' true before
            (records packed (c ∷ []))
            (be8 (length (records packed before)))
        × (this'.previous_read ≡ false)
  unfolding lz4_compress_seek
  lz4_compress_seek_end-IsAt {this} {w} {index} before c h short fits =
      let d = data_split before c in
      let i = index_split before c in
      let (next1, w1, e1, h1) = index_end h in
      let held =
        subst
          (λ x.
            Held (record this { index_file = some (record index { next = next1 }) }) w1
              (record index { next = next1 }) x
              (starts packed 0 before ++ (be8 (length (records packed before)) ++ [])))
          d
          (subst
            (λ x.
              Held (record this { index_file = some (record index { next = next1 }) }) w1
                (record index { next = next1 }) (records packed (before ++ c ∷ [])) x)
            i h1) in
      let (this2, index2, w2, e2, at2, flag2) =
        seek_block-IsAt Next V T packed block_size compressed_size uninit u8 lib before
          (records packed (c ∷ [])) [] held (omega (arith, f.block_pos)) in
      let (this3, index3, w3, e3, at3) =
        lz4_compress_read-IsAt Next V T uninit u4 u8 lib max_input block_size compressed_size f c []
          [] this2.block_size
          (IsAt-flag Next V T packed block_size compressed_size (sym (ap not flag2)) refl at2)
          (omega (arith, at2.blocks)) (omega arith) in
      let (this4, index4, w4, e4, at4, flag4) =
        seek_block-IsAt Next V T packed block_size compressed_size uninit u8 lib before
          (records packed (c ∷ [])) []
          (IsAt-Holds Next V T packed block_size compressed_size uninit u8 lib
            (records packed before ++ records packed (c ∷ []))
            (starts packed 0 before ++ (be8 (length (records packed before)) ++ [])) at3
            (append-nil (records packed (before ++ c ∷ [])) ∙ d)
            (append-nil (starts packed 0 (before ++ c ∷ [])) ∙ i))
          (omega (arith, f.block_pos)) in
      (
        this4,
        index4,
        w4,
        end_returns this (record this { index_file = some (record index { next = next1 }) }) this2
            this3 this4 (length before) (length before * block_size) (length before * block_size)
            (length before * block_size) c w w1 w2 w3 w4
            (e1
              ∙ ap
                  (λ n. some (
                    n,
                    record this { index_file = some (record index { next = next1 }) },
                    error_ok,
                    w1,
                  ))
                  (index_size before c))
            h.blocks refl fits e2 e3 at3.blocks short e4,
        at4,
        flag4,
      )
