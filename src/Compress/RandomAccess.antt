-- ===== src/Compress/RandomAccess.antt =====
-- A compressed file written block by block, and any block of it read back.
use native.Mathlib.Nat.{zero-add}
use mathlib.Core.Path.{subst}
use mathlib.Core.List.{append_assoc, append-nil}
use temp_files.Base.{
  ℕ, ◌+◌, ◌*◌, ◌≤◌, ◌<◌, ◌≡◌, inr, refl, sym, ◌∙◌, ap, Bool, true, false, not, min, Option, some,
  List, [], ◌∷◌, ◌++◌, length, drop, arith, ◌==◌, if◌then◌else◌, length-append, take-all,
}
use temp_files.Base.OptionMonad.{◌>>=◌}
use temp_files.Common.Errors.{Error, error_ok}
use temp_files.Common.Filter.{Filter, file_end_position}
use temp_files.Common.ByteFile.{FileView, max_size}
use temp_files.Common.TwoFiles.{TwoFiles}
use temp_files.Common.Packed.Layout.{be8}
use temp_files.File.IoStack.{IoStack}
use temp_files.Compress.Library.{Lz4Library}
use temp_files.Compress.State.{Lz4Compress}
use temp_files.Compress.Records.{lz4_compress_write, lz4_compress_read}
use temp_files.Compress.Seeking.{lz4_compress_seek}
use temp_files.Compress.Layout.{
  stored, records, starts, entries, entries-append, entries_first, records-append,
}
use temp_files.Compress.Cursor.{IsAt, IsAt-flag}
use temp_files.Compress.Blocks.{packed_by, IsFit}
use temp_files.Compress.WriteLaws.{MayWrite, first_block, lz4_compress_write-IsAt}
use temp_files.Compress.ReadLaws.{lz4_compress_read-IsAt}
use temp_files.Compress.SeekLaws.{IsAt-Holds, lz4_compress_seek-IsAt}

-- All blocks are full.
abbrev pub AllFull : ℕ → List (List ℕ) → Type 0
AllFull block_size [] = Unit {0}
AllFull block_size (b ∷ bs) = (length b ≡ block_size) × AllFull block_size bs

-- lz4CompressWrite of each block in turn.
unfoldable pub write_blocks :
    {World : Type 0} (Next : Filter World) (uninit : ℕ → List ℕ) (lib : Lz4Library)
    → Lz4Compress Next
    → List (List ℕ)
    → Error
    → World
    → Option (Lz4Compress Next × Error × World)
write_blocks Next uninit lib this [] error w = some (this, error, w)
write_blocks Next uninit lib this (b ∷ bs) error w = do
  (size, this', error', w') ← lz4_compress_write Next uninit lib this b error w
  write_blocks Next uninit lib this' bs error' w'

-- The index as the entries of all blocks and of the end.
starts_end :
    (packed : List ℕ → List ℕ) (bs : List (List ℕ))
    → starts packed 0 bs ++ be8 (length (records packed bs)) ≡ entries packed 0 bs
starts_end packed bs =
    ap (λ o. starts packed 0 bs ++ be8 o) (sym (zero-add (length (records packed bs))))
    ∙ sym (entries-append packed 0 bs [])
    ∙ ap (entries packed 0) (append-nil bs)

entries_at :
    (packed : List ℕ → List ℕ) (before after : List (List ℕ))
    → starts packed 0 (before ++ after) ++ be8 (length (records packed (before ++ after)))
      ≡ starts packed 0 before
        ++ (be8 (length (records packed before))
            ++ drop 8 (entries packed (length (records packed before)) after))
entries_at packed before after =
    starts_end packed (before ++ after)
    ∙ entries-append packed 0 before after
    ∙ ap (λ o. starts packed 0 before ++ entries packed o after)
        (zero-add (length (records packed before)))
    ∙ ap (λ r. starts packed 0 before ++ r)
        (entries_first packed (length (records packed before)) after)

module _ {World : Type 0} (Next : Filter World) (V : FileView Next) (T : TwoFiles Next V)
    (uninit : ℕ → List ℕ) (u4 : length (uninit 4) ≡ 4) (u8 : length (uninit 8) ≡ 8)
    (lib : Lz4Library) (max_input block_size compressed_size : ℕ)
    (f : IsFit lib max_input block_size compressed_size) where
  abbrev packed : List ℕ → List ℕ
  packed = packed_by lib compressed_size

  abbrev At :
      Lz4Compress Next → World → IoStack Next → Bool → List (List ℕ) → List ℕ → List ℕ → Type 0
  At = IsAt Next V T packed block_size compressed_size

  -- Behind the last record, as after the write of a full block.
  abbrev Steady : Lz4Compress Next → World → IoStack Next → List (List ℕ) → Type 0
  Steady this w index before =
      At this w index true before [] (be8 (length (records packed before)))
      × (this.previous_read ≡ false)

  next_block :
      {this : Lz4Compress Next} {w : World} {index : IoStack Next} {before : List (List ℕ)}
      {index_rest : List ℕ} (b : List ℕ)
      → length b ≡ block_size
      → At this w index (not this.previous_read) before [] index_rest
      → MayWrite Next V T uninit u4 u8 lib max_input block_size compressed_size f this before
          index_rest
      → length (records packed (before ++ b ∷ [])) ≤ max_size
      → 8 * length before + 16 ≤ max_size
      → (this' : Lz4Compress Next) × (index' : IoStack Next) × (w' : World) × (lz4_compress_write
            Next uninit lib this b error_ok w
          ≡ some (length b, this', error_ok, w'))
        × Steady this' w' index' (before ++ b ∷ [])
  next_block {this} {w} {index} {before} b full at may fits room =
      let whole : first_block Next V T uninit u4 u8 lib max_input block_size compressed_size f b
          ≡ b =
        take-all (min (length b) block_size) b (omega arith) in
      let (this', index', w', e, at', flag) =
        lz4_compress_write-IsAt Next V T uninit u4 u8 lib max_input block_size compressed_size f b
          at may (rw whole fits) room in
      let yes : (length b == block_size) ≡ true = ground arith in
      let at1 =
        subst
          (λ c. At this' w' index' (length c == block_size) (before ++ c ∷ []) [] (
            if length c == block_size
            then be8 (length (records packed (before ++ c ∷ [])))
            else []))
          whole at' in
      let e1 =
        subst
          (λ c.
            lz4_compress_write Next uninit lib this b error_ok w
            ≡ some (length c, this', error_ok, w'))
          whole e in
      (
        this',
        index',
        w',
        e1,
        (
          IsAt-flag Next V T packed block_size compressed_size yes
              (ap (λ c. if c then be8 (length (records packed (before ++ b ∷ []))) else []) yes)
              at1,
          flag,
        ),
      )

  -- The bounds on a file of the given blocks, which its two files stay in.
  abbrev pub IsBounded : List (List ℕ) → Type 0
  IsBounded bs = (length (records packed bs) ≤ max_size) × (8 * length bs + 16 ≤ max_size)

  IsBounded-prefix : (before bs : List (List ℕ)) → IsBounded (before ++ bs) → IsBounded before
  IsBounded-prefix before bs (h, k) =
      let size =
        ap (length {0}) (records-append packed before bs)
        ∙ length-append (records packed before) (records packed bs) in
      let count = length-append before bs in (omega arith, omega arith)

  write_one :
      (this this' this'' : Lz4Compress Next) (w w' w'' : World) (n : ℕ) (b : List ℕ)
      (bs : List (List ℕ))
      → lz4_compress_write Next uninit lib this b error_ok w ≡ some (n, this', error_ok, w')
      → write_blocks Next uninit lib this' bs error_ok w' ≡ some (this'', error_ok, w'')
      → write_blocks Next uninit lib this (b ∷ bs) error_ok w ≡ some (this'', error_ok, w'')
  unfolding write_blocks
  write_one this this' this'' w w' w'' n b bs e g = rw (e, g) refl

  one_more :
      (before : List (List ℕ)) (b : List ℕ) (bs : List (List ℕ))
      → (before ++ b ∷ []) ++ bs ≡ before ++ b ∷ bs
  one_more before b bs = append_assoc before (b ∷ []) bs

  -- After the write of a full block, and then others.
  write_more :
      (bs : List (List ℕ)) (this : Lz4Compress Next) (w : World) (index : IoStack Next)
      (before : List (List ℕ))
      → AllFull block_size bs
      → Steady this w index before
      → IsBounded (before ++ bs)
      → (this' : Lz4Compress Next) × (index' : IoStack Next) × (w' : World) × (write_blocks Next
            uninit lib this bs error_ok w
          ≡ some (this', error_ok, w'))
        × Steady this' w' index' (before ++ bs)
  unfolding write_blocks
  write_more [] this w index before full steady fits =
      (this, index, w, refl, subst (λ x. Steady this w index x) (sym (append-nil before)) steady)
  write_more (b ∷ bs) this w index before (full, rest) (at, flag) fits =
      let same = one_more before b bs in
      let fits1 = subst (λ x. IsBounded x) (sym same) fits in
      let (h, k) = IsBounded-prefix (before ++ b ∷ []) bs fits1 in
      let (this1, index1, w1, e, steady1) =
        next_block b full
          (IsAt-flag Next V T packed block_size compressed_size (ap not (sym flag)) refl at)
          (inr (flag, refl)) h (omega (arith, length-append before (b ∷ []))) in
      let (this', index', w', g, steady') =
        write_more bs this1 w1 index1 (before ++ b ∷ []) rest steady1 fits1 in
      (
        this',
        index',
        w',
        write_one this this1 this' w w1 w' (length b) b bs e g,
        subst (λ x. Steady this' w' index' x) same steady',
      )

  -- In a new file, where there is at least one block.
  write_blocks_lem :
      {this : Lz4Compress Next} {w : World} {index : IoStack Next} {index_rest : List ℕ}
      (bs : List (List ℕ))
      → 0 < length bs
      → AllFull block_size bs
      → At this w index (not this.previous_read) [] [] index_rest
      → MayWrite Next V T uninit u4 u8 lib max_input block_size compressed_size f this [] index_rest
      → IsBounded bs
      → (this' : Lz4Compress Next) × (index' : IoStack Next) × (w' : World) × (write_blocks Next
            uninit lib this bs error_ok w
          ≡ some (this', error_ok, w'))
        × Steady this' w' index' bs
  write_blocks_lem [] some_block full at may fits = absurd (omega arith)
  write_blocks_lem {this} {w} (b ∷ bs) some_block (full, rest) at may fits =
      let (h, k) = IsBounded-prefix (b ∷ []) bs fits in
      let (this1, index1, w1, e, steady1) = next_block b full at may h (omega arith) in
      let (this', index', w', g, steady') =
        write_more bs this1 w1 index1 (b ∷ []) rest steady1 fits in
      (this', index', w', write_one this this1 this' w w1 w' (length b) b bs e g, steady')

  full_block :
      (before : List (List ℕ)) (b : List ℕ) (after : List (List ℕ))
      → AllFull block_size (before ++ b ∷ after)
      → length b ≡ block_size
  full_block [] b after (full, rest) = full
  full_block (c ∷ before) b after (full, rest) = full_block before b after rest

  -- Over two separate files of bytes, the data file empty and the index with one entry at most, with
  -- a library that keeps its promises, the blocks of a list, all full, are written by calls of
  -- lz4CompressWrite without an error, as long as both files stay in the bounds of a file. Then
  -- lz4CompressSeek to the start of any one of the blocks, at a position below the value that stands
  -- for the end, and lz4CompressRead of at least a block return the position and that block, without
  -- an error.
  pub lz4_compress-random_access :
      {this : Lz4Compress Next} {w : World} {index : IoStack Next} {index_rest : List ℕ}
      (before : List (List ℕ)) (b : List ℕ) (after : List (List ℕ)) (size : ℕ)
      → AllFull block_size (before ++ b ∷ after)
      → At this w index (not this.previous_read) [] [] index_rest
      → MayWrite Next V T uninit u4 u8 lib max_input block_size compressed_size f this [] index_rest
      → IsBounded (before ++ b ∷ after)
      → length before * block_size < file_end_position
      → block_size ≤ size
      → (this1 : Lz4Compress Next) × (this2 : Lz4Compress Next) × (this3 : Lz4Compress Next)
        × (w1 : World) × (w2 : World) × (w3 : World) × (write_blocks Next uninit lib this
              (before ++ b ∷ after)
              error_ok
              w
            ≡ some (this1, error_ok, w1))
        × (lz4_compress_seek Next uninit lib this1 (length before * block_size) error_ok w1
            ≡ some (length before * block_size, this2, error_ok, w2))
        × (lz4_compress_read Next uninit lib this2 size error_ok w2 ≡ some (b, this3, error_ok, w3))
  lz4_compress-random_access {this} {w} {index} before b after size full at may fits in_range le =
      let count = length-append before (b ∷ after) in
      let (this1, index1, w1, e1, (at1, flag1)) =
        write_blocks_lem (before ++ b ∷ after) (omega arith) full at may fits in
      let bytes =
        append-nil (records packed (before ++ b ∷ after))
        ∙ records-append packed before (b ∷ after) in
      let block = full_block before b after full in
      let (this2, index2, w2, e2, at2, flag2) =
        lz4_compress_seek-IsAt Next V T packed block_size compressed_size uninit u8 lib before
          (stored packed b ++ records packed after)
          (drop 8 (entries packed (length (records packed before)) (b ∷ after)))
          (IsAt-Holds Next V T packed block_size compressed_size uninit u8 lib
            (records packed before ++ (stored packed b ++ records packed after))
            (starts packed 0 before
              ++ (be8 (length (records packed before))
                  ++ drop 8 (entries packed (length (records packed before)) (b ∷ after))))
            at1 bytes (entries_at packed before (b ∷ after)))
          (omega (arith, f.block_pos)) in_range in
      let (this3, index3, w3, e3, at3) =
        lz4_compress_read-IsAt Next V T uninit u4 u8 lib max_input block_size compressed_size f b
          (records packed after)
          (drop 8 (entries packed (length (records packed before)) (b ∷ after))) size at2
          (omega arith) (omega arith) in
      (this1, this2, this3, w1, w2, w3, e1, e2, e3)
