-- ===== src/Compress/SeekLaws.antt =====
-- lz4CompressSeek to the start of a block.
use native.Mathlib.Nat.{mul-div_cancel, mul-mod_left}
use temp_files.Base.{
  ℕ, ◌+◌, ◌*◌, ◌/◌, ◌%◌, ◌≤◌, ◌<◌, ◌≡◌, refl, sym, ◌∙◌, ap, Bool, true, false, not, some, List,
  ◌++◌, length, take, drop, arith, ◌==◌, length-append, size_mod,
}
use temp_files.Common.Errors.{error_ok, error_is_eof}
use temp_files.Common.Filter.{Filter, file_end_position}
use temp_files.Common.ByteFile.{FileView, IsByteFile}
use temp_files.Common.TwoFiles.{TwoFiles, beside}
use temp_files.Common.Packed.Layout.{be8}
use temp_files.File.IoStack.{IoStack, file_get8}
use temp_files.File.IoStack.Laws.{file_seek_returns}
use temp_files.File.IoStack.Effects.{get8_lem}
use temp_files.Compress.Library.{Lz4Library}
use temp_files.Compress.State.{Lz4Compress}
use temp_files.Compress.Records.{get_index}
use temp_files.Compress.Seeking.{seek_index, seek_record, seek_block, lz4_compress_seek}
use temp_files.Compress.Layout.{records, starts, length-starts, take-drop-middle}
use temp_files.Compress.Cursor.{IsAt, IsAt-flag}

-- What the source computes of a position that is a whole number of blocks.
whole_blocks : (n k : ℕ) → 0 < k → (n * k / k ≡ n) × (n * k % k ≡ 0)
whole_blocks n k h = (mul-div_cancel n h, mul-mod_left n k)

module _ {World : Type 0} (Next : Filter World) (V : FileView Next) (T : TwoFiles Next V)
    (packed : List ℕ → List ℕ) (block_size compressed_size : ℕ) (uninit : ℕ → List ℕ)
    (u : length (uninit 8) ≡ 8) (lib : Lz4Library) where
  abbrev At :
      Lz4Compress Next → World → IoStack Next → Bool → List (List ℕ) → List ℕ → List ℕ → Type 0
  At = IsAt Next V T packed block_size compressed_size

  -- After the filter has sought in both of its files.
  abbrev landed : Lz4Compress Next → Next.This → ℕ → Lz4Compress Next
  landed this next start = record this {
    next = next;
    compressed_position = start;
    previous_read = false;
  }

  seek_index_returns :
      (this : Lz4Compress Next) (index : IoStack Next) (p : ℕ) (next : Next.This) (w w' : World)
      → this.index_file ≡ some index
      → Next.fn_seek index.next p error_ok w ≡ some (p, next, error_ok, w')
      → seek_index Next uninit lib this p error_ok w
        ≡ some (p, record this { index_file = some (record index { next = next }) }, error_ok, w')
  unfolding seek_index
  seek_index_returns this index p next w w' e f =
      rw (e, file_seek_returns Next index w w' p p next f) refl

  seek_record_returns :
      (this this1 this2 : Lz4Compress Next) (n p landing start there : ℕ) (next : Next.This)
      (w w1 w2 w3 : World)
      → 8 * n < size_mod
      → seek_index Next uninit lib this (8 * n) error_ok w ≡ some (landing, this1, error_ok, w1)
      → get_index Next uninit lib this1 error_ok w1 ≡ some (start, this2, error_ok, w2)
      → Next.fn_seek this2.next start error_ok w2 ≡ some (there, next, error_ok, w3)
      → seek_record Next uninit lib this n p error_ok w
        ≡ some (p, landed this2 next start, error_ok, w3)
  unfolding seek_record error_is_eof
  seek_record_returns this this1 this2 n p landing start there next w w1 w2 w3 fits e f g =
      let offset : n * 8 % size_mod ≡ 8 * n = omega arith in rw (offset, e, f, g) refl

  seek_block_sought :
      (this : Lz4Compress Next) (p : ℕ) (w : World)
      → 0 < this.block_size
      → p % this.block_size ≡ 0
      → seek_block Next uninit lib this p error_ok w
        ≡ seek_record Next uninit lib this (p / this.block_size) p error_ok w
  unfolding seek_block
  seek_block_sought this p w h e =
      let nonzero : (this.block_size == 0) ≡ false = ground arith in rw (nonzero, e) refl

  seek_block_returns :
      (this this1 this2 : Lz4Compress Next) (n landing start there : ℕ) (next : Next.This)
      (w w1 w2 w3 : World)
      → this.block_size ≡ block_size
      → 0 < block_size
      → 8 * n < size_mod
      → seek_index Next uninit lib this (8 * n) error_ok w ≡ some (landing, this1, error_ok, w1)
      → get_index Next uninit lib this1 error_ok w1 ≡ some (start, this2, error_ok, w2)
      → Next.fn_seek this2.next start error_ok w2 ≡ some (there, next, error_ok, w3)
      → seek_block Next uninit lib this (n * block_size) error_ok w
        ≡ some (n * block_size, landed this2 next start, error_ok, w3)
  seek_block_returns this this1 this2 n landing start there next w w1 w2 w3 b pos fits e f g =
      let (quotient, remainder) = whole_blocks n block_size pos in
      seek_block_sought this (n * block_size) w (omega arith)
        (ap (λ k. n * block_size % k) b ∙ remainder)
      ∙ ap (λ k. seek_record Next uninit lib this k (n * block_size) error_ok w)
          (ap (λ k. n * block_size / k) b ∙ quotient)
      ∙ seek_record_returns this this1 this2 n (n * block_size) landing start there next w w1 w2 w3
          fits e f g

  get_index_returns :
      (this : Lz4Compress Next) (index index' : IoStack Next) (value : ℕ) (w w' : World)
      → this.index_file ≡ some index
      → file_get8 Next uninit index error_ok w ≡ some (value, index', error_ok, w')
      → get_index Next uninit lib this error_ok w
        ≡ some (value, record this { index_file = some index' }, error_ok, w')
  unfolding get_index
  get_index_returns this index index' value w w' e f = rw (e, f) refl

  -- The entry that the index file holds for a block.
  entry_there :
      (index : List ℕ) (before : List (List ℕ)) (more : List ℕ)
      → index ≡ starts packed 0 before ++ (be8 (length (records packed before)) ++ more)
      → (8 * length before + 8 ≤ length index)
        × (take 8 (drop (8 * length before) index) ≡ be8 (length (records packed before)))
  entry_there index before more x =
      let size = length-starts packed 0 before in
      let total =
        ap (length {0}) x
        ∙ length-append (starts packed 0 before) (be8 (length (records packed before)) ++ more) in
      let rest = length-append (be8 (length (records packed before))) more in
      (
        omega arith,
        ap (λ b. take 8 (drop (8 * length before) b)) x
            ∙ take-drop-middle (8 * length before) 8 (starts packed 0 before)
                (be8 (length (records packed before))) more (sym size) refl,
      )

  -- The filter has its two files open, with the given bytes, and stands anywhere in them.
  pub record Holds (this : Lz4Compress Next) (w : World) (index : IoStack Next)
      (data_file index_file : List ℕ) : Type 0 where
    pub is_index : this.index_file ≡ some index
    pub blocks : this.block_size ≡ block_size
    pub compressed : this.compressed_size ≡ compressed_size
    pub data_open : V.IsOpen this.next w
    pub index_open : V.IsOpen index.next w
    pub apart : T.Apart this.next index.next w
    pub data_bytes : V.contents this.next w ≡ data_file
    pub index_bytes : V.contents index.next w ≡ index_file

  pub IsAt-Holds :
      {this : Lz4Compress Next} {w : World} {index : IoStack Next} {ahead : Bool}
      {before : List (List ℕ)} {data_rest index_rest : List ℕ} (data_file index_file : List ℕ)
      → At this w index ahead before data_rest index_rest
      → records packed before ++ data_rest ≡ data_file
      → starts packed 0 before ++ index_rest ≡ index_file
      → Holds this w index data_file index_file
  IsAt-Holds data_file index_file at d i = record {
    is_index = at.is_index;
    blocks = at.blocks;
    compressed = at.compressed;
    data_open = at.data_open;
    index_open = at.index_open;
    apart = at.apart;
    data_bytes = at.data_bytes ∙ d;
    index_bytes = at.index_bytes ∙ i;
  }

  -- Such a filter beside its own data file, and beside its own index.
  abbrev pub beside_data : Lz4Compress Next → World → FileView Next
  beside_data this w = beside Next V T.Apart this.next (V.contents this.next w) (V.pos this.next w)

  pub index_opened :
      {this : Lz4Compress Next} {w : World} {index : IoStack Next} {data_file index_file : List ℕ}
      → Holds this w index data_file index_file
      → (beside_data this w).IsOpen index.next w
  index_opened {this} {w} {index} h =
      (h.index_open, T.apart_sym this.next index.next w h.apart, h.data_open, refl, refl)

  pub index_file_law : (this : Lz4Compress Next) (w : World) → IsByteFile Next (beside_data this w)
  index_file_law this w = T.framed this.next (V.contents this.next w) (V.pos this.next w)

  pub seek_block-IsAt :
      {this : Lz4Compress Next} {w : World} {index : IoStack Next} (before : List (List ℕ))
      (data_more index_more : List ℕ)
      → Holds this w index
          (records packed before ++ data_more)
          (starts packed 0 before ++ (be8 (length (records packed before)) ++ index_more))
      → 0 < block_size
      → (this' : Lz4Compress Next) × (index' : IoStack Next) × (w' : World) × (seek_block Next
            uninit lib this
            (length before * block_size)
            error_ok
            w
          ≡ some (length before * block_size, this', error_ok, w'))
        × At this' w' index' true before data_more
            (be8 (length (records packed before)) ++ index_more)
        × (this'.previous_read ≡ false)
  seek_block-IsAt {this} {w} {index} before data_more index_more h pos =
      let total = ap (length {0}) h.data_bytes ∙ length-append (records packed before) data_more in
      let limit =
        (T.framed index.next (V.contents index.next w) (V.pos index.next w)).bounded this.next w
          (h.data_open, h.apart, h.index_open, refl, refl) in
      let limit2 = (index_file_law this w).bounded index.next w (index_opened h) in
      let (room, entry) = entry_there (V.contents index.next w) before index_more h.index_bytes in
      let s =
        (index_file_law this w).seeks index.next w (8 * length before) (index_opened h)
          (omega arith) in
      let (next, w2, e, (o, a, od, cd, pd), c, p) =
        get8_lem Next uninit u (beside_data this w) (index_file_law this w)
          (record index { next = s.this' }) s.w' (length (records packed before)) s.opened
          (omega (arith, s.moved, ap (length {0}) s.same)) (rw (s.moved, s.same) entry)
          (omega arith) in
      let t =
        (T.framed next (V.contents next w2) (V.pos next w2)).seeks this.next w2
          (length (records packed before)) (od, T.apart_sym next this.next w2 a, o, refl, refl)
          (omega (arith, ap (length {0}) cd)) in
      let (o', a', oi, ci, pi) = t.opened in
      (
        landed (record this { index_file = some (record index { next = next }) }) t.this'
            (length (records packed before)),
        record index { next = next },
        t.w',
        seek_block_returns this
            (record this { index_file = some (record index { next = s.this' }) })
            (record this { index_file = some (record index { next = next }) }) (length before)
            (8 * length before) (length (records packed before)) (length (records packed before))
            t.this' w s.w' w2 t.w' h.blocks pos (omega arith)
            (seek_index_returns this index (8 * length before) s.this' w s.w' h.is_index s.returns)
            (get_index_returns (record this { index_file = some (record index { next = s.this' }) })
              (record index { next = s.this' }) (record index { next = next })
              (length (records packed before)) s.w' w2 refl e)
            t.returns,
        record {
          is_index = refl;
          blocks = h.blocks;
          compressed = h.compressed;
          data_open = o';
          index_open = oi;
          apart = a';
          data_bytes = t.same ∙ cd ∙ h.data_bytes;
          data_pos = t.moved;
          position = refl;
          index_bytes = ci ∙ c ∙ s.same ∙ h.index_bytes;
          index_pos = pi ∙ p ∙ ap (λ n. n + 8) s.moved;
        },
        refl,
      )

  -- Over two separate files of bytes, of which the data file holds the records of the blocks
  -- `before` and more, and the index their entries and that of the next record, lz4CompressSeek to
  -- the start of the block behind `before` returns that position without an error, wherever the
  -- filter stood, as long as the position is below the value that stands for the end. Both files are
  -- unchanged, and the filter stands behind the records of `before`, with the index past the entry
  -- there, as after a write.
  pub lz4_compress_seek-IsAt :
      {this : Lz4Compress Next} {w : World} {index : IoStack Next} (before : List (List ℕ))
      (data_more index_more : List ℕ)
      → Holds this w index
          (records packed before ++ data_more)
          (starts packed 0 before ++ (be8 (length (records packed before)) ++ index_more))
      → 0 < block_size
      → length before * block_size < file_end_position
      → (this' : Lz4Compress Next) × (index' : IoStack Next) × (w' : World) × (lz4_compress_seek
            Next uninit lib this
            (length before * block_size)
            error_ok
            w
          ≡ some (length before * block_size, this', error_ok, w'))
        × At this' w' index'
            (not this'.previous_read)
            before
            data_more
            (be8 (length (records packed before)) ++ index_more)
        × (this'.previous_read ≡ false)
  unfolding lz4_compress_seek
  lz4_compress_seek-IsAt {this} {w} {index} before data_more index_more h pos in_range =
      let (this', index', w', e, at, flag) = seek_block-IsAt before data_more index_more h pos in
      let not_end : (length before * block_size == file_end_position) ≡ false = ground arith in
      (
        this',
        index',
        w',
        rw not_end e,
        IsAt-flag Next V T packed block_size compressed_size (sym (ap not flag)) refl at,
        flag,
      )
