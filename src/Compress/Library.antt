-- ===== src/Compress/Library.antt =====
-- liblz4, which the source calls and does not implement. Sizes are in the range of an int.
use temp_files.Base.{ℕ, ◌≤◌, ◌<◌, ◌≡◌, Option, some, List, length}

-- `LZ4_compress_default(src, dst, srcSize, dstCapacity)` and `LZ4_decompress_safe`: the bytes that they
-- leave in `dst`, or `none` where the result is negative. A compression that fails returns 0.
pub record Lz4Library : Type 0 where
  pub compress_default : List ℕ → ℕ → Option (List ℕ)
  pub decompress_safe : List ℕ → ℕ → Option (List ℕ)
  pub compress_bound : ℕ → ℕ

-- What lz4.h says of them, for blocks of up to `max_input` bytes: compression into a buffer of the size
-- that LZ4_compressBound gives succeeds, with at least a byte and no more than that many; and what has
-- been compressed is decompressed into any buffer that it fits.
pub record IsLz4Library (lib : Lz4Library) (max_input : ℕ) : Type 0 where
  pub compress_lem :
      (block : List ℕ) (bound : ℕ)
      → length block ≤ max_input
      → lib.compress_bound (length block) ≤ bound
      → (packed : List ℕ) × (lib.compress_default block bound ≡ some packed)
        × (0 < length packed)
        × (length packed ≤ lib.compress_bound (length block))
  pub decompress_lem :
      (block packed : List ℕ) (bound size : ℕ)
      → lib.compress_default block bound ≡ some packed
      → length block ≤ size
      → length block ≤ max_input
      → lib.decompress_safe packed size ≡ some block
  pub bound_mono : (n m : ℕ) → n ≤ m → m ≤ max_input → lib.compress_bound n ≤ lib.compress_bound m
