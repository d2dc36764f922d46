-- ===== src/Encrypt/Nonce.antt =====
-- generateNonce: the initialization vector XOR the sequence number.
use Prim.Native.Nat.{bit_xor}
use temp_files.Base.{ℕ, zero, suc, ◌/◌, ◌%◌, ◌^◌, List, get_or, set}

-- The loop, with `i` bytes to go: it starts at the right.
unfoldable pub nonce_loop : ℕ → List ℕ → List ℕ → ℕ → List ℕ
nonce_loop zero nonce iv seq_nr = nonce
nonce_loop (suc i) nonce iv seq_nr =
    nonce_loop i (set nonce i (bit_xor (seq_nr % 256) (get_or iv i 0))) iv (seq_nr / 2 ^ 8)

-- `nonce` is the array that is filled.
unfoldable pub generate_nonce : List ℕ → List ℕ → ℕ → ℕ → List ℕ
unfolding nonce_loop
generate_nonce nonce iv iv_size seq_nr = nonce_loop iv_size nonce iv seq_nr
