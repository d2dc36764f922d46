-- ===== src/Common/Packed/Layout.antt =====
-- What the packing functions leave in memory, and what the unpacking ones read there.

use temp_files.Base.{
  ℕ, ◌+◌, ◌/◌, ◌%◌, ◌^◌, ◌≤◌, ◌≡◌, refl, sym, List, [], ◌∷◌, ◌++◌, length, splice, arith,
  set-splice, splice-splice_after, length-splice,
}
use temp_files.Common.Packed.{Cursor, pack1, pack2, pack4, pack8}

-- Big-endian bytes.
abbrev pub be1 : ℕ → List ℕ
be1 v = v % 256 ∷ []

abbrev pub be2 : ℕ → List ℕ
be2 v = be1 (v / 2 ^ 8) ++ be1 v

abbrev pub be4 : ℕ → List ℕ
be4 v = be2 (v / 2 ^ 16) ++ be2 v

abbrev pub be8 : ℕ → List ℕ
be8 v = be4 (v / 2 ^ 32) ++ be4 v

-- `bs` written at the pointer, which moves behind it.
abbrev pub written : Cursor → ℕ → List ℕ → Cursor
written c n bs = record { bytes = splice c.bp bs c.bytes; bp = c.bp + n }

-- Two values packed one after the other.
written-written :
    (c : Cursor) (n m k : ℕ) (a b : List ℕ)
    → c.bp ≤ length c.bytes
    → n ≡ length a
    → k ≡ n + m
    → written (written c n a) m b ≡ written c k (a ++ b)
written-written c n m k a b h e f =
    let at : c.bp + n ≡ c.bp + length a = omega arith in
    let end : c.bp + n + m ≡ c.bp + k = omega arith in
    λ i. record { bytes = splice-splice_after c.bp (c.bp + n) a b c.bytes h at i; bp = end i }

module _ (end : ℕ) where
  pub pack1_lem :
      (c : Cursor) (v : ℕ)
      → c.bp + 1 ≤ end
      → end ≤ length c.bytes
      → pack1 c end v ≡ written c 1 (be1 v)
  unfolding pack1
  pack1_lem c v h l = ground (arith, set-splice c.bytes c.bp (v % 256))

  -- From one width to the next.
  twice :
      (n k : ℕ) (pack : Cursor → ℕ → Cursor) (be : ℕ → List ℕ)
      → ((c : Cursor) (v : ℕ)
          → c.bp + n ≤ end
          → end ≤ length c.bytes
          → pack c v ≡ written c n (be v))
      → ((v : ℕ) → length (be v) ≡ n)
      → k ≡ n + n
      → (c : Cursor) (u v : ℕ) → c.bp + k ≤ end
      → end ≤ length c.bytes
      → pack (pack c u) v ≡ written c k (be u ++ be v)
  twice n k pack be one size e c u v h l =
      let len = length-splice c.bp (be u) c.bytes (omega arith) in
      rw (one c u (omega arith) l, one (written c n (be u)) v (omega arith) (omega arith))
        (written-written c n n k (be u) (be v) (omega arith) (sym (size u)) e)

  pub pack2_lem :
      (c : Cursor) (v : ℕ)
      → c.bp + 2 ≤ end
      → end ≤ length c.bytes
      → pack2 c end v ≡ written c 2 (be2 v)
  unfolding pack2
  pack2_lem c v h l =
      twice 1 2 (λ c v. pack1 c end v) be1 pack1_lem (λ v. refl) refl c (v / 2 ^ 8) v h l

  pub pack4_lem :
      (c : Cursor) (v : ℕ)
      → c.bp + 4 ≤ end
      → end ≤ length c.bytes
      → pack4 c end v ≡ written c 4 (be4 v)
  unfolding pack4
  pack4_lem c v h l =
      twice 2 4 (λ c v. pack2 c end v) be2 pack2_lem (λ v. refl) refl c (v / 2 ^ 16) v h l

  pub pack8_lem :
      (c : Cursor) (v : ℕ)
      → c.bp + 8 ≤ end
      → end ≤ length c.bytes
      → pack8 c end v ≡ written c 8 (be8 v)
  unfolding pack8
  pack8_lem c v h l =
      twice 4 8 (λ c v. pack4 c end v) be4 pack4_lem (λ v. refl) refl c (v / 2 ^ 32) v h l
