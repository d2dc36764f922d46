-- ===== src/Encrypt/NonceLaws.antt =====
-- The nonce of a sequence number: its bytes, and that it tells the numbers apart. A block that is written
-- again has the nonce of its first version.
use Prim.Native.Nat.{bit_xor, digits, differ, bit_xor-bitwise}
use native.Mathlib.Nat.{div-div-eq-div-mul, pow-suc}
use temp_files.Base.{
  ℕ, zero, suc, ◌+◌, ◌-◌, ◌*◌, ◌/◌, ◌%◌, ◌^◌, ◌≤◌, ◌<◌, ◌≡◌, refl, ap, sym, ◌∙◌, List, length, set,
  get_or, get_elem?, get_elem?-set, length-set, some, none, arith, ◌==◌, if◌then◌else◌, true, false,
}
use temp_files.Encrypt.Nonce.{nonce_loop, generate_nonce}

-- `^` by its lowest digit.
abbrev xor_digits : ℕ → ℕ → ℕ → ℕ
xor_digits n a b = digits (λ b. b) differ n a b

xor_digits_fuel : (n m a b : ℕ) → a ≤ n → a ≤ m → xor_digits n a b ≡ xor_digits m a b
xor_digits_fuel zero zero a b p q = refl
xor_digits_fuel zero (suc m) zero b p q = refl
xor_digits_fuel zero (suc m) (suc a) b p q = absurd (omega arith)
xor_digits_fuel (suc n) zero zero b p q = refl
xor_digits_fuel (suc n) zero (suc a) b p q = absurd (omega arith)
xor_digits_fuel (suc n) (suc m) zero b p q = refl
xor_digits_fuel (suc n) (suc m) (suc a) b p q =
    omega (arith, xor_digits_fuel n m (suc a / 2) (b / 2) (omega arith) (omega arith))

zero-bit_xor : (b : ℕ) → bit_xor 0 b ≡ b
zero-bit_xor b = bit_xor-bitwise 0 b

xor_step : (a b : ℕ) → bit_xor a b ≡ bit_xor (a / 2) (b / 2) * 2 + differ (a % 2) (b % 2)
xor_step zero b = omega (arith, zero-bit_xor b, zero-bit_xor (b / 2))
xor_step (suc a) b = omega (
  arith,
  bit_xor-bitwise (suc a) b,
  bit_xor-bitwise (suc a / 2) (b / 2),
  xor_digits_fuel a (suc a / 2) (suc a / 2) (b / 2) (omega arith) (omega arith),
)

differ-lt : (x y : ℕ) → x < 2 → y < 2 → differ x y < 2
differ-lt zero y h k = k
differ-lt (suc zero) zero h k = omega arith
differ-lt (suc zero) (suc zero) h k = omega arith
differ-lt (suc zero) (suc (suc y)) h k = absurd (omega arith)
differ-lt (suc (suc x)) y h k = absurd (omega arith)

differ_cancel : (x y z : ℕ) → x < 2 → y < 2 → z < 2 → differ x z ≡ differ y z → x ≡ y
differ_cancel zero zero z h k l e = refl
differ_cancel (suc zero) (suc zero) z h k l e = refl
differ_cancel zero (suc zero) zero h k l e = e
differ_cancel zero (suc zero) (suc zero) h k l e = sym e
differ_cancel (suc zero) zero zero h k l e = e
differ_cancel (suc zero) zero (suc zero) h k l e = sym e
differ_cancel zero (suc zero) (suc (suc z)) h k l e = absurd (omega arith)
differ_cancel (suc zero) zero (suc (suc z)) h k l e = absurd (omega arith)
differ_cancel (suc (suc x)) y z h k l e = absurd (omega arith)
differ_cancel zero (suc (suc y)) z h k l e = absurd (omega arith)
differ_cancel (suc zero) (suc (suc y)) z h k l e = absurd (omega arith)

xor_cancel : (n a b c : ℕ) → a ≤ n → b ≤ n → bit_xor a c ≡ bit_xor b c → a ≡ b
xor_cancel zero a b c h k e = omega arith
xor_cancel (suc n) a b c h k e =
    let sa = xor_step a c in
    let sb = xor_step b c in
    let da = differ-lt (a % 2) (c % 2) (omega arith) (omega arith) in
    let db = differ-lt (b % 2) (c % 2) (omega arith) (omega arith) in
    let halves = xor_cancel n (a / 2) (b / 2) (c / 2) (omega arith) (omega arith) (omega arith) in
    let parities =
      differ_cancel (a % 2) (b % 2) (c % 2) (omega arith) (omega arith) (omega arith)
        (omega arith) in
    omega arith

some_cancel : {a b : ℕ} → some a ≡ some b → a ≡ b
some_cancel e = ap (λ o. elim o [ none ↦ 0 | some x ↦ x ]) e

set_same : (xs : List ℕ) (i v : ℕ) → i < length xs → get_elem? (set xs i v) i ≡ some v
set_same xs i v h =
    let same : (i == i) ≡ true = ground arith in
    get_elem?-set xs i v i h ∙ ap (λ b. if b then some v else get_elem? xs i) same

set_other :
    (xs : List ℕ) (i v j : ℕ) → i < length xs → i < j → get_elem? (set xs i v) j ≡ get_elem? xs j
set_other xs i v j h k =
    let other : (j == i) ≡ false = ground arith in
    get_elem?-set xs i v j h ∙ ap (λ b. if b then some v else get_elem? xs j) other

-- The bytes that the loop has passed stay.
loop_keeps :
    (i j : ℕ) (nonce iv : List ℕ) (seq_nr : ℕ)
    → i ≤ j
    → i ≤ length nonce
    → get_elem? (nonce_loop i nonce iv seq_nr) j ≡ get_elem? nonce j
unfolding nonce_loop
loop_keeps zero j nonce iv seq_nr h k = refl
loop_keeps (suc i) j nonce iv seq_nr h k =
    loop_keeps i j (set nonce i (bit_xor (seq_nr % 256) (get_or iv i 0))) iv (seq_nr / 2 ^ 8)
      (omega arith) (omega (arith, length-set nonce i (bit_xor (seq_nr % 256) (get_or iv i 0))))
    ∙ set_other nonce i (bit_xor (seq_nr % 256) (get_or iv i 0)) j (omega arith) (omega arith)

loop_last :
    (i : ℕ) (nonce iv : List ℕ) (seq_nr : ℕ)
    → i < length nonce
    → get_elem? (nonce_loop (suc i) nonce iv seq_nr) i
      ≡ some (bit_xor (seq_nr % 256) (get_or iv i 0))
unfolding nonce_loop
loop_last i nonce iv seq_nr h =
    loop_keeps i i (set nonce i (bit_xor (seq_nr % 256) (get_or iv i 0))) iv (seq_nr / 2 ^ 8)
      (omega arith) (omega (arith, length-set nonce i (bit_xor (seq_nr % 256) (get_or iv i 0))))
    ∙ set_same nonce i (bit_xor (seq_nr % 256) (get_or iv i 0)) h

loop_byte :
    (i d : ℕ) (nonce iv : List ℕ) (seq_nr : ℕ)
    → d < i
    → i ≤ length nonce
    → get_elem? (nonce_loop i nonce iv seq_nr) (i - 1 - d)
      ≡ some (bit_xor (seq_nr / 256 ^ d % 256) (get_or iv (i - 1 - d) 0))
unfolding nonce_loop
loop_byte zero d nonce iv seq_nr h k = absurd (omega arith)
loop_byte (suc i) zero nonce iv seq_nr h k =
    ap (get_elem? (nonce_loop (suc i) nonce iv seq_nr)) (omega arith)
    ∙ loop_last i nonce iv seq_nr (omega arith)
    ∙ ap (λ j. some (bit_xor (seq_nr % 256) (get_or iv j 0))) (omega arith)
    ∙ ap (λ s. some (bit_xor (s % 256) (get_or iv (suc i - 1 - 0) 0))) (omega arith)
loop_byte (suc i) (suc d) nonce iv seq_nr h k =
    let rest = set nonce i (bit_xor (seq_nr % 256) (get_or iv i 0)) in
    let index : suc i - 1 - suc d ≡ i - 1 - d = omega arith in
    let shifted : seq_nr / 2 ^ 8 / 256 ^ d ≡ seq_nr / 256 ^ suc d =
      div-div-eq-div-mul seq_nr 256 (256 ^ d)
      ∙ ap (λ m. seq_nr / m) (omega (arith, pow-suc 256 d)) in
    ap (get_elem? (nonce_loop (suc i) nonce iv seq_nr)) index
    ∙ loop_byte i d rest iv (seq_nr / 2 ^ 8) (omega arith)
        (omega (arith, length-set nonce i (bit_xor (seq_nr % 256) (get_or iv i 0))))
    ∙ ap (λ s. some (bit_xor (s % 256) (get_or iv (i - 1 - d) 0))) shifted
    ∙ ap (λ j. some (bit_xor (seq_nr / 256 ^ suc d % 256) (get_or iv j 0))) (sym index)

loop_distinct :
    (i : ℕ) (nonce1 nonce2 iv : List ℕ) (s t : ℕ)
    → i ≤ length nonce1
    → i ≤ length nonce2
    → s < 256 ^ i
    → t < 256 ^ i
    → ((j : ℕ)
        → j < i
        → get_elem? (nonce_loop i nonce1 iv s) j ≡ get_elem? (nonce_loop i nonce2 iv t) j)
    → s ≡ t
unfolding nonce_loop
loop_distinct zero nonce1 nonce2 iv s t h k a b same = omega arith
loop_distinct (suc i) nonce1 nonce2 iv s t h k a b same =
    let power = pow-suc 256 i in
    let last = some_cancel (
      sym (loop_last i nonce1 iv s (omega arith))
      ∙ same i (omega arith)
      ∙ loop_last i nonce2 iv t (omega arith)) in
    let low = xor_cancel 256 (s % 256) (t % 256) (get_or iv i 0) (omega arith) (omega arith) last in
    let high =
      loop_distinct i (set nonce1 i (bit_xor (s % 256) (get_or iv i 0)))
        (set nonce2 i (bit_xor (t % 256) (get_or iv i 0))) iv (s / 2 ^ 8) (t / 2 ^ 8)
        (omega (arith, length-set nonce1 i (bit_xor (s % 256) (get_or iv i 0))))
        (omega (arith, length-set nonce2 i (bit_xor (t % 256) (get_or iv i 0)))) (omega arith)
        (omega arith) (λ j l. same j (omega arith)) in
    omega arith

-- Where the array has room for the bytes of the initialization vector, each byte of the nonce is that
-- of the vector XOR that of the sequence number in big-endian order, extended by zeros to their number:
-- the byte `d` places from the right is digit `d` of the number in base 256.
pub generate_nonce-big_endian :
    (nonce iv : List ℕ) (iv_size seq_nr d : ℕ)
    → d < iv_size
    → iv_size ≤ length nonce
    → get_elem? (generate_nonce nonce iv iv_size seq_nr) (iv_size - 1 - d)
      ≡ some (bit_xor (seq_nr / 256 ^ d % 256) (get_or iv (iv_size - 1 - d) 0))
unfolding generate_nonce
generate_nonce-big_endian nonce iv iv_size seq_nr d h k = loop_byte iv_size d nonce iv seq_nr h k

-- Two sequence numbers that fit in the bytes of the initialization vector have the same nonce only if
-- they are the same: under one initialization vector generateNonce is injective in the sequence
-- number.
pub generate_nonce-distinct :
    (nonce1 nonce2 iv : List ℕ) (iv_size s t : ℕ)
    → iv_size ≤ length nonce1
    → iv_size ≤ length nonce2
    → s < 256 ^ iv_size
    → t < 256 ^ iv_size
    → ((j : ℕ)
        → j < iv_size
        → get_elem? (generate_nonce nonce1 iv iv_size s) j
          ≡ get_elem? (generate_nonce nonce2 iv iv_size t) j)
    → s ≡ t
unfolding generate_nonce
generate_nonce-distinct nonce1 nonce2 iv iv_size s t h k a b same =
    loop_distinct iv_size nonce1 nonce2 iv s t h k a b same
