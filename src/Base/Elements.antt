-- ===== src/Base/Elements.antt =====
-- Lists by their elements: what `take`, `drop`, `++` and `set` hold at an index, and
-- extensionality. `splice p b c` is `c` with `b` written over it from index `p` on.
use Prim.Native.Nat.{ℕ, zero, suc, ◌+◌, ◌-◌, ◌≤◌, ◌<◌, max}
use mathlib.Core.Path.{◌≡◌, refl, ap, ◌∙◌}
use mathlib.Core.List.{List, [], ◌∷◌, ◌++◌, tail}
use mathlib.Core.Option.{Option, none, some}
use native.Mathlib.Nat.{add-zero}
use native.Mathlib.Omega.{arith}
use temp_files.Base.Lists.{
  length, take, drop, set, length-append, length-take, length-drop, take-append-drop,
}
use temp_files.Base.Tests.{ltb, ◌==◌, if◌then◌else◌}

module _ {ℓ} {A : Type ℓ} where
  abbrev pub get_elem? : List A → ℕ → Option A
  get_elem? [] i = none
  get_elem? (x ∷ xs) zero = some x
  get_elem? (x ∷ xs) (suc i) = get_elem? xs i

  abbrev pub splice : ℕ → List A → List A → List A
  splice p b c = take p c ++ (b ++ drop (p + length b) c)

  pub get_elem?-past : (xs : List A) (i : ℕ) → length xs ≤ i → get_elem? xs i ≡ none
  get_elem?-past [] i h = refl
  get_elem?-past (x ∷ xs) zero h = absurd (omega arith)
  get_elem?-past (x ∷ xs) (suc i) h = get_elem?-past xs i (omega arith)

  pub get_elem?-take :
      (n : ℕ) (xs : List A) (i : ℕ)
      → get_elem? (take n xs) i ≡ (if ltb i n then get_elem? xs i else none)
  get_elem?-take zero xs i = ground arith
  get_elem?-take (suc n) [] i = ground arith
  get_elem?-take (suc n) (x ∷ xs) zero = ground arith
  get_elem?-take (suc n) (x ∷ xs) (suc i) = ground (arith, get_elem?-take n xs i)

  pub get_elem?-drop :
      (n : ℕ) (xs : List A) (i j : ℕ) → j ≡ n + i → get_elem? (drop n xs) i ≡ get_elem? xs j
  get_elem?-drop zero xs i j e = ap (get_elem? xs) (omega arith)
  get_elem?-drop (suc n) [] i j e = refl
  get_elem?-drop (suc n) (x ∷ xs) i zero e = absurd (omega arith)
  get_elem?-drop (suc n) (x ∷ xs) i (suc j) e = get_elem?-drop n xs i j (omega arith)

  pub get_elem?-append :
      (xs ys : List A) (i : ℕ)
      → get_elem? (xs ++ ys) i
        ≡ (if ltb i (length xs) then get_elem? xs i else get_elem? ys (i - length xs))
  get_elem?-append [] ys i = ground arith
  get_elem?-append (x ∷ xs) ys zero = ground arith
  get_elem?-append (x ∷ xs) ys (suc i) = ground (arith, get_elem?-append xs ys i)

  pub get_elem?-set :
      (xs : List A) (i : ℕ) (v : A) (j : ℕ)
      → i < length xs
      → get_elem? (set xs i v) j ≡ (if j == i then some v else get_elem? xs j)
  get_elem?-set [] i v j h = absurd (omega arith)
  get_elem?-set (x ∷ xs) zero v zero h = ground arith
  get_elem?-set (x ∷ xs) zero v (suc j) h = ground arith
  get_elem?-set (x ∷ xs) (suc i) v zero h = ground arith
  get_elem?-set (x ∷ xs) (suc i) v (suc j) h = ground (arith, get_elem?-set xs i v j)

  -- Lists that agree at every index are equal.
  pub list_ext : (xs ys : List A) → ((i : ℕ) → get_elem? xs i ≡ get_elem? ys i) → xs ≡ ys
  list_ext [] [] h = refl
  list_ext [] (y ∷ ys) h = cc (h 0)
  list_ext (x ∷ xs) [] h = cc (h 0)
  list_ext (x ∷ xs) (y ∷ ys) h = ground (arith, h 0, list_ext xs ys (λ i. h (suc i)))

module _ {A : Type 0} where
  pub get_elem?-splice :
      (p : ℕ) (b c : List A) (i : ℕ)
      → p ≤ length c
      → get_elem? (splice p b c) i ≡ (
          if ltb i p
          then get_elem? c i
          else if ltb i (p + length b)
          then get_elem? b (i - p)
          else get_elem? c i)
  get_elem?-splice p b c i h = ground (
    arith,
    get_elem?-append (take p c) (b ++ drop (p + length b) c) i,
    get_elem?-append b (drop (p + length b) c) (i - p),
    get_elem?-take p c i,
    length-take p c,
    get_elem?-drop (p + length b) c (i - p - length b) i,
  )

  pub length-splice :
      (p : ℕ) (b c : List A) → p ≤ length c → length (splice p b c) ≡ max (length c) (p + length b)
  length-splice p b c h = omega (
    arith,
    length-append (take p c) (b ++ drop (p + length b) c),
    length-append b (drop (p + length b) c),
    length-take p c,
    length-drop (p + length b) c,
  )

  pub splice-nil : (p : ℕ) (c : List A) → splice p [] c ≡ c
  splice-nil p c = rw add-zero (take-append-drop p c)

  -- Writing on where the last write ended.
  pub splice-splice_after :
      (p q : ℕ) (a b c : List A)
      → p ≤ length c
      → q ≡ p + length a
      → splice q b (splice p a c) ≡ splice p (a ++ b) c
  splice-splice_after p q a b c h e = list_ext _ _ λ i. ground (
    arith,
    get_elem?-splice q b (splice p a c) i,
    get_elem?-splice p a c i,
    get_elem?-splice p (a ++ b) c i,
    get_elem?-append a b (i - p),
    length-append a b,
    length-splice p a c h,
  )

  -- What a copy of `n` elements from index `q` of `v` says of a part of it.
  pub take-drop-window :
      (buf v : List A) (q n p k : ℕ)
      → take n buf ≡ take n (drop q v)
      → q ≤ p
      → p - q + k ≤ n
      → take k (drop (p - q) buf) ≡ take k (drop p v)
  take-drop-window buf v q n p k e h l = list_ext _ _ λ i. ground (
    arith,
    get_elem?-take k (drop (p - q) buf) i,
    get_elem?-take k (drop p v) i,
    get_elem?-drop (p - q) buf i (p - q + i) refl,
    get_elem?-drop p v i (p + i) refl,
    get_elem?-take n buf (p - q + i),
    get_elem?-take n (drop q v) (p - q + i),
    get_elem?-drop q v (p - q + i) (p + i),
    ap (λ l. get_elem? l (p - q + i)) e,
  )

  pub take-drop-splice :
      (q n : ℕ) (b c : List A) → q ≤ length c → n ≡ length b → take n (drop q (splice q b c)) ≡ b
  take-drop-splice q n b c h e = list_ext _ _ λ i.
      let back : q + i - q ≡ i = omega arith in
      ground (
        arith,
        get_elem?-take n (drop q (splice q b c)) i,
        get_elem?-drop q (splice q b c) i (q + i) refl,
        get_elem?-splice q b c (q + i) h,
        get_elem?-past b i,
        ap (get_elem? b) back,
      )

  pub splice_self :
      (q n : ℕ) (b c : List A) → q + n ≤ length c → b ≡ take n (drop q c) → splice q b c ≡ c
  splice_self q n b c h e = list_ext _ _ λ i. ground (
    arith,
    get_elem?-splice q b c i,
    ap (λ l. get_elem? l (i - q)) e,
    ap (length {0}) e,
    length-take n (drop q c),
    length-drop q c,
    get_elem?-take n (drop q c) (i - q),
    get_elem?-drop q c (i - q) i,
  )

  -- Writing into a buffer that is later written to the file, and writing into the file.
  pub splice-take-splice :
      (q p n m : ℕ) (x buf c : List A)
      → q ≤ length c
      → q ≤ p
      → p ≤ q + n
      → n ≤ length buf
      → p - q + length x ≤ length buf
      → m ≡ max n (p - q + length x)
      → splice q (take m (splice (p - q) x buf)) c ≡ splice p x (splice q (take n buf) c)
  splice-take-splice q p n m x buf c h h1 h2 h3 h4 e = list_ext _ _ λ i.
      let offset : i - q - (p - q) ≡ i - p = omega arith in
      ground (
        arith,
        get_elem?-splice q (take m (splice (p - q) x buf)) c i,
        get_elem?-splice p x (splice q (take n buf) c) i,
        get_elem?-splice q (take n buf) c i,
        length-splice q (take n buf) c,
        length-take n buf,
        length-take m (splice (p - q) x buf),
        length-splice (p - q) x buf,
        get_elem?-take m (splice (p - q) x buf) (i - q),
        get_elem?-take n buf (i - q),
        get_elem?-splice (p - q) x buf (i - q),
        ap (get_elem? x) offset,
      )

  pub take-length-take : (n : ℕ) (xs : List A) → take (length (take n xs)) xs ≡ take n xs
  take-length-take zero xs = refl
  take-length-take (suc n) [] = refl
  take-length-take (suc n) (x ∷ xs) = ap (λ l. x ∷ l) (take-length-take n xs)

  -- A part of a part.
  pub take-drop-take :
      (k m n : ℕ) (xs : List A) → m + k ≤ n → take k (drop m (take n xs)) ≡ take k (drop m xs)
  take-drop-take k m n xs h = list_ext _ _ λ i. ground (
    arith,
    get_elem?-take k (drop m (take n xs)) i,
    get_elem?-take k (drop m xs) i,
    get_elem?-drop m (take n xs) i (m + i) refl,
    get_elem?-drop m xs i (m + i) refl,
    get_elem?-take n xs (m + i),
  )

  pub set-splice : (xs : List A) (i : ℕ) (v : A) → i < length xs → set xs i v ≡ splice i (v ∷ []) xs
  set-splice xs i v h =
      list_ext _ _ λ j. ground (arith, get_elem?-set xs i v j h, get_elem?-splice i (v ∷ []) xs j)

  pub take-append-inj :
      (n m k : ℕ) (x a b : List A)
      → take k x ≡ a ++ b
      → n ≡ length a
      → m ≡ length b
      → k ≡ n + m
      → (take n x ≡ a) × (take m (drop n x) ≡ b)
  take-append-inj zero m k x [] b e f g h = (refl, ap (λ j. take j x) (omega arith) ∙ e)
  take-append-inj zero m k x (y ∷ a) b e f g h = absurd (omega arith)
  take-append-inj (suc n) m k x [] b e f g h = absurd (omega arith)
  take-append-inj (suc n) m zero x (y ∷ a) b e f g h = absurd (omega arith)
  take-append-inj (suc n) m (suc k) [] (y ∷ a) b e f g h = cc
  take-append-inj (suc n) m (suc k) (z ∷ x) (y ∷ a) b e f g h =
      let tails : take k x ≡ a ++ b = ap tail e in
      let heads : z ≡ y = cc in
      let (l, r) = take-append-inj n m k x a b tails (omega arith) g (omega arith) in
      (rw (heads, l), r)
