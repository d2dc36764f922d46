-- ===== src/Common/TwoFiles.antt =====
-- Two objects of one filter that stand for different files: what is done to the one leaves the other
-- alone.
use temp_files.Base.{ℕ, ◌≡◌, List}
use temp_files.Common.Filter.{Filter}
use temp_files.Common.ByteFile.{FileView, IsByteFile}

module _ {World : Type 0} (F : Filter World) (V : FileView F) where
  -- The view of an object beside `that` one, whose contents and position are given.
  abbrev pub beside : (F.This → F.This → World → Type 0) → F.This → List ℕ → ℕ → FileView F
  beside Apart that c p = record V {
    IsOpen = λ this w.
        V.IsOpen this w
        × Apart this that w
        × V.IsOpen that w
        × (V.contents that w ≡ c)
        × (V.pos that w ≡ p);
  }

  -- Beside any other object, an object is a file of bytes: so each call on it keeps the two apart, and
  -- keeps the other open, with its contents and position.
  pub record TwoFiles : Type 1 where
    pub Apart : F.This → F.This → World → Type 0
    pub apart_sym : (a b : F.This) (w : World) → Apart a b w → Apart b a w
    pub framed : (that : F.This) (c : List ℕ) (p : ℕ) → IsByteFile F (beside Apart that c p)
