-- ===== src/Compress/Layout.antt =====
-- What the two files of a compressed file hold, for blocks that `packed` compresses.

use mathlib.Core.List.{append_assoc}
use temp_files.Base.{
  ℕ, ◌+◌, ◌*◌, ◌≡◌, refl, sym, ◌∙◌, ap, List, [], ◌∷◌, ◌++◌, length, take, drop, splice, arith,
  length-append, take-append_left, take-all, drop-append_right,
}
use temp_files.Common.Packed.Layout.{be4, be8}

-- Lists of bytes: a part in the middle, and writing at the end of a part.
pub take-drop-middle :
    (p n : ℕ) (a b c : List ℕ) → p ≡ length a → n ≡ length b → take n (drop p (a ++ (b ++ c))) ≡ b
take-drop-middle p n a b c e f =
    ap (take n) (drop-append_right p 0 a (b ++ c) (omega arith))
    ∙ take-append_left n b c (omega arith)
    ∙ take-all n b (omega arith)

pub splice-append :
    (p : ℕ) (a b c : List ℕ) → p ≡ length a → splice p b (a ++ c) ≡ a ++ (b ++ drop (length b) c)
splice-append p a b c e =
    rw
      (
        take-append_left p a c (omega arith),
        take-all p a (omega arith),
        drop-append_right (p + length b) (length b) a c (omega arith),
      )
      refl

module _ (packed : List ℕ → List ℕ) where
  -- A block as a record of the data file: the size of what it is compressed to, and that.
  abbrev pub stored : List ℕ → List ℕ
  stored b = be4 (length (packed b)) ++ packed b

  abbrev pub records : List (List ℕ) → List ℕ
  records [] = []
  records (b ∷ bs) = stored b ++ records bs

  -- The index entries of blocks whose records start at `off`: where each starts.
  abbrev pub starts : ℕ → List (List ℕ) → List ℕ
  starts off [] = []
  starts off (b ∷ bs) = be8 off ++ starts (off + length (stored b)) bs

  -- The same, and where the last of them ends.
  abbrev pub entries : ℕ → List (List ℕ) → List ℕ
  entries off [] = be8 off
  entries off (b ∷ bs) = be8 off ++ entries (off + length (stored b)) bs

  pub records-append : (xs ys : List (List ℕ)) → records (xs ++ ys) ≡ records xs ++ records ys
  records-append [] ys = refl
  records-append (x ∷ xs) ys =
      ap (λ r. stored x ++ r) (records-append xs ys)
      ∙ sym (append_assoc (stored x) (records xs) (records ys))

  pub length-starts : (off : ℕ) (bs : List (List ℕ)) → length (starts off bs) ≡ 8 * length bs
  length-starts off [] = refl
  length-starts off (b ∷ bs) = omega (
    arith,
    length-append (be8 off) (starts (off + length (stored b)) bs),
    length-starts (off + length (stored b)) bs,
  )

  length-entries : (off : ℕ) (bs : List (List ℕ)) → length (entries off bs) ≡ 8 * length bs + 8
  length-entries off [] = refl
  length-entries off (b ∷ bs) = omega (
    arith,
    length-append (be8 off) (entries (off + length (stored b)) bs),
    length-entries (off + length (stored b)) bs,
  )

  past_record :
      (off : ℕ) (x : List ℕ) (xs : List (List ℕ))
      → off + length (stored x) + length (records xs) ≡ off + length (records (x ∷ xs))
  past_record off x xs = omega (arith, length-append (stored x) (records xs))

  pub entries-append :
      (off : ℕ) (xs ys : List (List ℕ))
      → entries off (xs ++ ys) ≡ starts off xs ++ entries (off + length (records xs)) ys
  entries-append off [] ys = ap (λ o. entries o ys) (omega arith)
  entries-append off (x ∷ xs) ys =
      ap (λ r. be8 off ++ r)
        (entries-append (off + length (stored x)) xs ys
          ∙ ap (λ o. starts (off + length (stored x)) xs ++ entries o ys) (past_record off x xs))

  pub starts-append :
      (off : ℕ) (xs : List (List ℕ)) (y : List ℕ)
      → starts off (xs ++ y ∷ []) ≡ starts off xs ++ be8 (off + length (records xs))
  starts-append off [] y = ap be8 (omega arith)
  starts-append off (x ∷ xs) y =
      ap (λ r. be8 off ++ r)
        (starts-append (off + length (stored x)) xs y
          ∙ ap (λ o. starts (off + length (stored x)) xs ++ be8 o) (past_record off x xs))

  -- The entries start with the offset of the first block.
  pub entries_first :
      (off : ℕ) (bs : List (List ℕ)) → entries off bs ≡ be8 off ++ drop 8 (entries off bs)
  entries_first off [] = refl
  entries_first off (b ∷ bs) = refl
