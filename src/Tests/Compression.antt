-- ===== src/Tests/Compression.antt =====
-- The theorems on compression at concrete data: a data file and an index file, with the sinks or buffered
-- streams on them, blocks of four bytes, and a library that compresses by copying.
use temp_files.Base.{
  ℕ, ◌+◌, ◌≤◌, ◌≡◌, inl, refl, sym, ◌∙◌, ap, true, false, not, Option, none, some, List, [], ◌∷◌,
  ◌++◌, length, arith, leb, if◌then◌else◌,
}
use temp_files.Common.Errors.{error_ok}
use temp_files.Common.Packed.Layout.{be8}
use temp_files.File.IoStack.{IoStack}
use temp_files.Compress.Library.{Lz4Library, IsLz4Library}
use temp_files.Compress.State.{Lz4Compress}
use temp_files.Compress.Records.{lz4_compress_write, lz4_compress_read}
use temp_files.Compress.Seeking.{lz4_compress_seek}
use temp_files.Compress.Layout.{records}
use temp_files.Compress.Cursor.{IsAt}
use temp_files.Compress.Blocks.{IsFit, packed_by}
use temp_files.Compress.WriteLaws.{lz4_compress_write-IsAt}
use temp_files.Compress.ReadLaws.{lz4_compress_read-IsAt}
use temp_files.Compress.SeekLaws.{IsAt-Holds, lz4_compress_seek-IsAt}
use temp_files.Compress.SeekEnd.{lz4_compress_seek_end-IsAt}
use temp_files.Common.Filter.{file_end_position}
use temp_files.Compress.RandomAccess.{write_blocks, lz4_compress-random_access}
use temp_files.Base.Int.{pos}
use temp_files.Tests.TwoStreams.{
  zeros, empty, streams, streams_view, streams-TwoFiles, stream, stream-IsBuffered,
}
use temp_files.Tests.TwoDisks.{Disks, memory, memory_view, memory-TwoFiles, sink, sink-IsOpenFile}

abbrev behind_mark : List ℕ → ℕ → Option (List ℕ)
behind_mark [] size = none
behind_mark (x ∷ xs) size = if leb (length xs) size then some xs else none

-- A block is copied behind a mark.
abbrev copying : Lz4Library
copying = record {
  compress_default = λ block bound. some (1 ∷ block);
  decompress_safe = behind_mark;
  compress_bound = λ n. n + 1;
}

unmarked :
    (block packed : List ℕ) (size : ℕ)
    → some (1 ∷ block) ≡ some packed
    → length block ≤ size
    → behind_mark packed size ≡ some block
unmarked block packed size e h =
    let fits : leb (length block) size ≡ true = ground arith in
    let same : packed ≡ 1 ∷ block = ap (λ o. elim o [ none ↦ [] | some x ↦ x ]) (sym e) in
    ap (λ x. behind_mark x size) same ∙ ap (λ b. if b then some block else none) fits

copying-IsLz4Library : IsLz4Library copying 100
copying-IsLz4Library = record {
  compress_lem = λ block bound h k. (1 ∷ block, refl, omega arith, omega arith);
  decompress_lem = λ block packed bound size e h k. unmarked block packed size e h;
  bound_mono = λ n m h k. omega arith;
}

abbrev fit : IsFit copying 100 4 8
fit = record {
  library = copying-IsLz4Library;
  block_pos = omega arith;
  block_le = omega arith;
  bound_le = omega arith;
  small = omega arith;
}

abbrev index : IoStack memory
index = record { next = sink (pos 4); is_open = true }

-- A compressed file that has just been opened, straight on the files.
abbrev opened : Lz4Compress memory
opened = record {
  next = sink (pos 3);
  block_size = 4;
  compressed_size = 8;
  index_file = some index;
  compressed_position = 0;
  previous_read = true;
}

abbrev block1 : List ℕ
block1 = 97 ∷ 98 ∷ 99 ∷ 100 ∷ []

abbrev block2 : List ℕ
block2 = 101 ∷ 102 ∷ 103 ∷ 104 ∷ []

abbrev packed : List ℕ → List ℕ
packed = packed_by copying 8

opened-IsAt : IsAt memory memory_view memory-TwoFiles packed 4 8 opened empty index false [] [] []
opened-IsAt = record {
  is_index = refl;
  blocks = refl;
  compressed = refl;
  data_open = sink-IsOpenFile (pos 3) empty (omega arith) (omega arith);
  index_open = sink-IsOpenFile (pos 4) empty (omega arith) (omega arith);
  apart = refl;
  data_bytes = refl;
  data_pos = refl;
  position = refl;
  index_bytes = refl;
  index_pos = refl;
}

-- The first block is written.
lz4_compress_write-IsAt_example :
    (this' : Lz4Compress memory) × (index' : IoStack memory) × (w' : Disks) × (lz4_compress_write
        memory zeros copying opened block1 error_ok empty
      ≡ some (4, this', error_ok, w'))
    × IsAt memory memory_view memory-TwoFiles packed 4 8 this' w' index' true
        (block1 ∷ [])
        []
        (be8 9)
    × (this'.previous_read ≡ false)
lz4_compress_write-IsAt_example =
    lz4_compress_write-IsAt memory memory_view memory-TwoFiles zeros refl refl copying 100 4 8 fit
      block1 opened-IsAt (inl (refl, omega arith)) (omega arith) (omega arith)

-- A compressed file whose data and index are buffered streams, as it has just been opened.
abbrev buffered_index : IoStack streams
buffered_index = record { next = stream (pos 4); is_open = true }

abbrev buffered_opened : Lz4Compress streams
buffered_opened = record {
  next = stream (pos 3);
  block_size = 4;
  compressed_size = 8;
  index_file = some buffered_index;
  compressed_position = 0;
  previous_read = true;
}

buffered_opened-IsAt :
    IsAt streams streams_view streams-TwoFiles packed 4 8 buffered_opened empty buffered_index false
      [] [] []
buffered_opened-IsAt = record {
  is_index = refl;
  blocks = refl;
  compressed = refl;
  data_open = stream-IsBuffered (pos 3) refl refl;
  index_open = stream-IsBuffered (pos 4) refl refl;
  apart = refl;
  data_bytes = refl;
  data_pos = refl;
  position = refl;
  index_bytes = refl;
  index_pos = refl;
}

-- The two blocks are written, and the second is read back, all through buffers.
lz4_compress-random_access_example :
    (this1 : Lz4Compress streams) × (this2 : Lz4Compress streams) × (this3 : Lz4Compress streams)
    × (w1 : Disks) × (w2 : Disks) × (w3 : Disks) × (write_blocks streams zeros copying
          buffered_opened
          (block1 ∷ block2 ∷ [])
          error_ok
          empty
        ≡ some (this1, error_ok, w1))
    × (lz4_compress_seek streams zeros copying this1 4 error_ok w1 ≡ some (4, this2, error_ok, w2))
    × (lz4_compress_read streams zeros copying this2 4 error_ok w2
        ≡ some (block2, this3, error_ok, w3))
lz4_compress-random_access_example =
    lz4_compress-random_access streams streams_view streams-TwoFiles zeros refl refl copying 100 4 8
      fit (block1 ∷ []) block2 [] 4 (refl, (refl, tt)) buffered_opened-IsAt
      (inl (refl, omega arith)) (omega arith, omega arith) (omega arith) (omega arith)

-- The files with the two blocks, with the filter behind the first one.
abbrev two_blocks : Disks
two_blocks = record {
  first = record {
    bytes = 0 ∷ 0 ∷ 0 ∷ 5 ∷ 1 ∷ 97 ∷ 98 ∷ 99 ∷ 100 ∷ 0 ∷ 0 ∷ 0 ∷ 5 ∷ 1 ∷ 101 ∷ 102 ∷ 103 ∷ 104 ∷ [];
    offset = 9;
  };
  second = record {
    bytes =
        0 ∷ 0 ∷ 0 ∷ 0 ∷ 0 ∷ 0 ∷ 0 ∷ 0 ∷ 0 ∷ 0 ∷ 0 ∷ 0 ∷ 0 ∷ 0 ∷ 0 ∷ 9 ∷ 0 ∷ 0 ∷ 0 ∷ 0 ∷ 0 ∷ 0 ∷ 0
        ∷ 18 ∷ [];
    offset = 8;
  };
}

abbrev behind_first : Lz4Compress memory
behind_first = record opened { compressed_position = 9 }

behind_first-IsAt :
    IsAt memory memory_view memory-TwoFiles packed 4 8 behind_first two_blocks index false
      (block1 ∷ [])
      (0 ∷ 0 ∷ 0 ∷ 5 ∷ 1 ∷ block2)
      (be8 9 ++ be8 18)
behind_first-IsAt = record {
  is_index = refl;
  blocks = refl;
  compressed = refl;
  data_open = sink-IsOpenFile (pos 3) two_blocks (omega arith) (omega arith);
  index_open = sink-IsOpenFile (pos 4) two_blocks (omega arith) (omega arith);
  apart = refl;
  data_bytes = refl;
  data_pos = refl;
  position = refl;
  index_bytes = refl;
  index_pos = refl;
}

lz4_compress_read-IsAt_example :
    (this' : Lz4Compress memory) × (index' : IoStack memory) × (w' : Disks) × (lz4_compress_read
        memory zeros copying behind_first 6 error_ok two_blocks
      ≡ some (block2, this', error_ok, w'))
    × IsAt memory memory_view memory-TwoFiles packed 4 8 this' w' index'
        (not this'.previous_read)
        (block1 ∷ block2 ∷ [])
        []
        (be8 18)
lz4_compress_read-IsAt_example =
    lz4_compress_read-IsAt memory memory_view memory-TwoFiles zeros refl refl copying 100 4 8 fit
      block2 [] (be8 18) 6 behind_first-IsAt (omega arith) (omega arith)

-- Back to the start.
lz4_compress_seek-IsAt_example :
    (this' : Lz4Compress memory) × (index' : IoStack memory) × (w' : Disks) × (lz4_compress_seek
        memory zeros copying behind_first 0 error_ok two_blocks
      ≡ some (0, this', error_ok, w'))
    × IsAt memory memory_view memory-TwoFiles packed 4 8 this' w' index'
        (not this'.previous_read)
        []
        (records packed (block1 ∷ block2 ∷ []))
        (be8 0 ++ (be8 9 ++ be8 18))
    × (this'.previous_read ≡ false)
lz4_compress_seek-IsAt_example =
    lz4_compress_seek-IsAt memory memory_view memory-TwoFiles packed 4 8 zeros refl copying []
      (records packed (block1 ∷ block2 ∷ [])) (be8 9 ++ be8 18)
      (IsAt-Holds memory memory_view memory-TwoFiles packed 4 8 zeros refl copying
        (records packed (block1 ∷ block2 ∷ [])) (be8 0 ++ (be8 9 ++ be8 18)) behind_first-IsAt refl
        refl)
      (omega arith) (omega arith)

-- The files with a full block and one of two bytes, with the filter at the start.
abbrev partial_block : Disks
partial_block = record {
  first = record {
    bytes = 0 ∷ 0 ∷ 0 ∷ 5 ∷ 1 ∷ 97 ∷ 98 ∷ 99 ∷ 100 ∷ 0 ∷ 0 ∷ 0 ∷ 3 ∷ 1 ∷ 101 ∷ 102 ∷ [];
    offset = 0;
  };
  second = record {
    bytes = 0 ∷ 0 ∷ 0 ∷ 0 ∷ 0 ∷ 0 ∷ 0 ∷ 0 ∷ 0 ∷ 0 ∷ 0 ∷ 0 ∷ 0 ∷ 0 ∷ 0 ∷ 9 ∷ [];
    offset = 0;
  };
}

abbrev ending : List ℕ
ending = 101 ∷ 102 ∷ []

lz4_compress_seek_end-IsAt_example :
    (this' : Lz4Compress memory) × (index' : IoStack memory) × (w' : Disks) × (lz4_compress_seek
        memory zeros copying opened file_end_position error_ok partial_block
      ≡ some (6, this', error_ok, w'))
    × IsAt memory memory_view memory-TwoFiles packed 4 8 this' w' index' true
        (block1 ∷ [])
        (records packed (ending ∷ []))
        (be8 9)
    × (this'.previous_read ≡ false)
lz4_compress_seek_end-IsAt_example =
    lz4_compress_seek_end-IsAt memory memory_view memory-TwoFiles zeros refl refl copying 100 4 8
      fit (block1 ∷ []) ending
      (record {
        is_index = refl;
        blocks = refl;
        compressed = refl;
        data_open = sink-IsOpenFile (pos 3) partial_block (omega arith) (omega arith);
        index_open = sink-IsOpenFile (pos 4) partial_block (omega arith) (omega arith);
        apart = refl;
        data_bytes = refl;
        index_bytes = refl;
      })
      (omega arith) (omega arith)
