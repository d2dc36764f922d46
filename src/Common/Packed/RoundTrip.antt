-- ===== src/Common/Packed/RoundTrip.antt =====
-- Unpacking reads back what packing wrote; an overflow is seen in the pointer.

use temp_files.Base.{
  ℕ, zero, suc, ◌+◌, ◌-◌, ◌*◌, ◌/◌, ◌%◌, ◌^◌, ◌≤◌, ◌<◌, min, ◌≡◌, refl, sym, ap, ◌∙◌, List, [], ◌∷◌,
  ◌++◌, length, take, drop, splice, get_or, arith, take-nil, splice-splice_after, length-splice,
  take-append-inj, drop-drop, splice-nil, take-drop-splice,
}
use temp_files.Common.Packed.{
  Cursor, pack1, unpack1, pack2, unpack2, pack4, unpack4, pack8, unpack8, shift_or, pack_bytes,
}
use temp_files.Common.Packed.Bits.{bit_or_shifted}
use native.Mathlib.Decide.{dec_lt}
use temp_files.Common.Packed.Layout.{
  pack1_lem, be1, be2, be4, be8, written, pack2_lem, pack4_lem, pack8_lem,
}

get_or-of_take : (i x : ℕ) (xs : List ℕ) → take 1 (drop i xs) ≡ x ∷ [] → get_or xs i 0 ≡ x
get_or-of_take zero x [] e = cc
get_or-of_take zero x (y ∷ xs) e = cc
get_or-of_take (suc i) x [] e = cc
get_or-of_take (suc i) x (y ∷ xs) e = get_or-of_take i x xs e

-- The pointer after `n` bytes.
abbrev pub advanced : Cursor → ℕ → Cursor
advanced c n = record c { bp = c.bp + n }

module _ (end : ℕ) where
  unpack1_lem :
      (c : Cursor) (v : ℕ)
      → c.bp + 1 ≤ end
      → take 1 (drop c.bp c.bytes) ≡ be1 v
      → unpack1 c end ≡ (v % 256, advanced c 1)
  unfolding unpack1
  unpack1_lem c v h e = ground (arith, get_or-of_take c.bp (v % 256) c.bytes e)

  -- From one width to the next.
  joined :
      (n k bits : ℕ) (unpack : Cursor → ℕ × Cursor) (be : ℕ → List ℕ)
      → ((c : Cursor) (v : ℕ)
          → c.bp + n ≤ end
          → take n (drop c.bp c.bytes) ≡ be v
          → unpack c ≡ (v % 2 ^ bits, advanced c n))
      → ((v : ℕ) → length (be v) ≡ n)
      → k ≡ n + n
      → (c : Cursor) (u v : ℕ) → c.bp + k ≤ end
      → take k (drop c.bp c.bytes) ≡ be u ++ be v
      → (unpack c ≡ (u % 2 ^ bits, advanced c n))
        × (unpack (advanced c n) ≡ (v % 2 ^ bits, advanced c k))
  joined n k bits unpack be one size e c u v h x =
      let (l, r) =
        take-append-inj n n k (drop c.bp c.bytes) (be u) (be v) x (sym (size u)) (sym (size v)) e in
      let r' : take n (drop (c.bp + n) c.bytes) ≡ be v =
        ap (take n) (sym (drop-drop c.bp n (c.bp + n) c.bytes refl)) ∙ r in
      let end' : c.bp + n + n ≡ c.bp + k = omega arith in
      (
        one c u (omega arith) l,
        one (advanced c n) v (omega arith) r' ∙ ap (λ i. (v % 2 ^ bits, record c { bp = i })) end',
      )

  unpack2_lem :
      (c : Cursor) (v : ℕ)
      → c.bp + 2 ≤ end
      → take 2 (drop c.bp c.bytes) ≡ be2 v
      → unpack2 c end ≡ (v % 2 ^ 16, advanced c 2)
  unfolding unpack2 shift_or
  unpack2_lem c v h e =
      let (p, q) =
        joined 1 2 8 (λ c. unpack1 c end) be1 unpack1_lem (λ v. refl) refl c (v / 2 ^ 8) v h e in
      let small : v / 2 ^ 8 % 2 ^ 8 * 2 ^ 8 % 2 ^ 64 ≡ v / 2 ^ 8 % 2 ^ 8 * 2 ^ 8 = omega arith in
      rw (p, q, small, bit_or_shifted 8 (v / 2 ^ 8 % 2 ^ 8) (v % 2 ^ 8) (omega arith))
        (ap (λ (n : ℕ). (n, advanced c 2)) (omega arith))

  pub unpack4_lem :
      (c : Cursor) (v : ℕ)
      → c.bp + 4 ≤ end
      → take 4 (drop c.bp c.bytes) ≡ be4 v
      → unpack4 c end ≡ (v % 2 ^ 32, advanced c 4)
  unfolding unpack4 shift_or
  unpack4_lem c v h e =
      let (p, q) =
        joined 2 4 16 (λ c. unpack2 c end) be2 unpack2_lem (λ v. refl) refl c (v / 2 ^ 16) v h e in
      let small : v / 2 ^ 16 % 2 ^ 16 * 2 ^ 16 % 2 ^ 64 ≡ v / 2 ^ 16 % 2 ^ 16 * 2 ^ 16 =
        omega arith in
      rw (p, q, small, bit_or_shifted 16 (v / 2 ^ 16 % 2 ^ 16) (v % 2 ^ 16) (omega arith))
        (ap (λ (n : ℕ). (n, advanced c 4)) (omega arith))

  pub unpack8_lem :
      (c : Cursor) (v : ℕ)
      → c.bp + 8 ≤ end
      → take 8 (drop c.bp c.bytes) ≡ be8 v
      → unpack8 c end ≡ (v % 2 ^ 64, advanced c 8)
  unfolding unpack8 shift_or
  unpack8_lem c v h e =
      let (p, q) =
        joined 4 8 32 (λ c. unpack4 c end) be4 unpack4_lem (λ v. refl) refl c (v / 2 ^ 32) v h e in
      let small : v / 2 ^ 32 % 2 ^ 32 * 2 ^ 32 % 2 ^ 64 ≡ v / 2 ^ 32 % 2 ^ 32 * 2 ^ 32 =
        omega arith in
      rw (p, q, small, bit_or_shifted 32 (v / 2 ^ 32 % 2 ^ 32) (v % 2 ^ 32) (omega arith))
        (ap (λ (n : ℕ). (n, advanced c 8)) (omega arith))

-- The bytes behind a pointer that have just been written.
written_there :
    (c : Cursor) (n : ℕ) (bs : List ℕ)
    → c.bp ≤ length c.bytes
    → n ≡ length bs
    → take n (drop c.bp (written c n bs).bytes) ≡ bs
written_there c n bs h e = take-drop-splice c.bp n bs c.bytes h e

-- An 8-byte value packed into a buffer with room for it and unpacked from the same place comes back
-- modulo its width, and both leave the pointer at the same place.
pub unpack8-pack8 :
    (c : Cursor) (end v : ℕ)
    → end ≤ length c.bytes
    → c.bp + 8 ≤ end
    → unpack8 (record (pack8 c end v) { bp = c.bp }) end ≡ (v % 2 ^ 64, pack8 c end v)
unpack8-pack8 c end v l h =
    rw (pack8_lem end c v h l)
      (unpack8_lem end _ v h (written_there c 8 (be8 v) (omega arith) refl))

-- A 4-byte value packed into a buffer with room for it and unpacked from the same place comes back
-- modulo its width, and both leave the pointer at the same place.
pub unpack4-pack4 :
    (c : Cursor) (end v : ℕ)
    → end ≤ length c.bytes
    → c.bp + 4 ≤ end
    → unpack4 (record (pack4 c end v) { bp = c.bp }) end ≡ (v % 2 ^ 32, pack4 c end v)
unpack4-pack4 c end v l h =
    rw (pack4_lem end c v h l)
      (unpack4_lem end _ v h (written_there c 4 (be4 v) (omega arith) refl))

-- A 2-byte value packed into a buffer with room for it and unpacked from the same place comes back
-- modulo its width, and both leave the pointer at the same place.
pub unpack2-pack2 :
    (c : Cursor) (end v : ℕ)
    → end ≤ length c.bytes
    → c.bp + 2 ≤ end
    → unpack2 (record (pack2 c end v) { bp = c.bp }) end ≡ (v % 2 ^ 16, pack2 c end v)
unpack2-pack2 c end v l h =
    rw (pack2_lem end c v h l)
      (unpack2_lem end _ v h (written_there c 2 (be2 v) (omega arith) refl))

-- The low bytes of the values, as they are stored.
abbrev pub low_bytes : List ℕ → List ℕ
low_bytes [] = []
low_bytes (b ∷ bs) = b % 256 ∷ low_bytes bs

length-low_bytes : (bs : List ℕ) → length (low_bytes bs) ≡ length bs
length-low_bytes [] = refl
length-low_bytes (b ∷ bs) = ap suc (length-low_bytes bs)

pack1_past : (c : Cursor) (end v : ℕ) → end < c.bp → pack1 c end v ≡ c
unfolding pack1
pack1_past c end v h = ground arith

pack1_at : (c : Cursor) (end v : ℕ) → c.bp ≡ end → pack1 c end v ≡ record c { bp = end + 1 }
unfolding pack1
pack1_at c end v h = ground arith

pack_bytes_past : (bs : List ℕ) (c : Cursor) (end : ℕ) → end < c.bp → pack_bytes c end bs ≡ c
unfolding pack_bytes
pack_bytes_past [] c end h = refl
pack_bytes_past (b ∷ bs) c end h = rw (pack1_past c end b h) (pack_bytes_past bs c end h)

pack_bytes_open :
    (c : Cursor) (end b : ℕ) (bs : List ℕ)
    → pack_bytes c end (b ∷ bs) ≡ pack_bytes (pack1 c end b) end bs
unfolding pack_bytes
pack_bytes_open c end b bs = refl

pack_bytes_none : (c : Cursor) (end : ℕ) → pack_bytes c end [] ≡ c
unfolding pack_bytes
pack_bytes_none c end = refl

pack_bytes_step :
    (b : ℕ) (bs : List ℕ) (c : Cursor) (end : ℕ)
    → c.bp < end
    → end ≤ length c.bytes
    → ((pack_bytes (written c 1 (be1 b)) end bs).bytes
        ≡ splice (c.bp + 1) (take (end - (c.bp + 1)) (low_bytes bs)) (splice c.bp (be1 b) c.bytes))
      × ((pack_bytes (written c 1 (be1 b)) end bs).bp ≡ min (c.bp + 1 + length bs) (end + 1))
    → ((pack_bytes c end (b ∷ bs)).bytes
        ≡ splice c.bp (take (end - c.bp) (low_bytes (b ∷ bs))) c.bytes)
      × ((pack_bytes c end (b ∷ bs)).bp ≡ min (c.bp + length (b ∷ bs)) (end + 1))
pack_bytes_step b bs c end lt l (x, y) =
    let more : end - c.bp ≡ suc (end - (c.bp + 1)) = omega arith in
    rw (pack_bytes_open c end b bs, pack1_lem end c b (omega arith) l)
      (
        x
            ∙ splice-splice_after c.bp (c.bp + 1) (be1 b) (take (end - (c.bp + 1)) (low_bytes bs))
                c.bytes (omega arith) refl
            ∙ ap (λ k. splice c.bp (take k (b % 256 ∷ low_bytes bs)) c.bytes) (sym more),
        y ∙ omega arith,
      )

-- packBytes stores as many of the bytes as fit before `end` and touches nothing else; the pointer
-- stops one behind `end` exactly if they did not all fit, and else behind the last byte.
pub pack_bytes_lem :
    (bs : List ℕ) (c : Cursor) (end : ℕ)
    → c.bp ≤ end
    → end ≤ length c.bytes
    → ((pack_bytes c end bs).bytes ≡ splice c.bp (take (end - c.bp) (low_bytes bs)) c.bytes)
      × ((pack_bytes c end bs).bp ≡ min (c.bp + length bs) (end + 1))
pack_bytes_lem [] c end h l =
    rw (pack_bytes_none c end) (rw take-nil (sym (splice-nil c.bp c.bytes)), omega arith)
pack_bytes_lem (b ∷ bs) c end h l = elim (dec_lt c.bp end) [
  | yes lt ↦ pack_bytes_step b bs c end lt l (
      pack_bytes_lem bs (written c 1 (be1 b)) end (omega arith)
        (omega (arith, length-splice c.bp (be1 b) c.bytes)))
  | no ge ↦
      let none_left : end - c.bp ≡ 0 = omega arith in
      rw
        (
          pack_bytes_open c end b bs,
          pack1_at c end b (omega arith),
          pack_bytes_past bs (record c { bp = end + 1 }) end (omega arith),
          none_left,
        )
        (sym (splice-nil c.bp c.bytes), omega arith)
]
