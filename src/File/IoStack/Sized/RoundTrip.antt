-- ===== src/File/IoStack/Sized/RoundTrip.antt =====
-- A block with its size, written and read back.
use temp_files.Base.{
  ℕ, max, ◌+◌, ◌%◌, ◌^◌, ◌≤◌, ◌<◌, ◌≡◌, refl, sym, ◌∙◌, ap, false, Option, some, List, ◌++◌, length,
  take, drop, splice, arith, length-splice, length-append, take-drop-splice, splice-splice_after,
  take-append-inj, drop-drop, le→ltb,
}
use temp_files.Base.OptionMonad.{◌>>=◌}
use temp_files.Common.Errors.{Error, is_error, error_is_ok, error_ok}
use temp_files.Common.Filter.{Filter}
use temp_files.Common.ByteFile.{FileView, IsByteFile, max_size}
use temp_files.Common.Packed.Layout.{be4}
use temp_files.Common.PassThrough.Writes.{pass_through_write_all-AllWritten}
use temp_files.File.IoStack.{IoStack, file_seek, file_read, file_write, file_put4, file_get4}
use temp_files.File.IoStack.Laws.{
  file_seek_returns, file_write_returns, file_read_returns, read_there,
}
use temp_files.File.IoStack.Effects.{put4_lem, get4_lem}
use temp_files.File.IoStack.Sized.{pass_through_write_sized, pass_through_read_sized}

module _ {World : Type 0} (Next : Filter World) (uninit : ℕ → List ℕ) where
  -- Write a block with its size, go back to `p`, and read a block of up to `size` bytes.
  abbrev pub write_and_read_sized :
      IoStack Next → ℕ → List ℕ → ℕ → World → Option (List ℕ × IoStack Next × Error × World)
  write_and_read_sized this p block size w = do
    (total, this1, error1, w1) ← pass_through_write_sized Next uninit this block error_ok w
    (landing, this2, error2, w2) ← file_seek Next this1 p error1 w1
    pass_through_read_sized Next uninit this2 size error2 w2

  write_sized_returns :
      (this this1 this2 : IoStack Next) (block : List ℕ) (total : ℕ) (w w1 w2 : World)
      → length block % 2 ^ 32 ≡ length block
      → file_put4 Next uninit this (length block) error_ok w ≡ some (false, this1, error_ok, w1)
      → file_write Next this1 block error_ok w1 ≡ some (total, this2, error_ok, w2)
      → pass_through_write_sized Next uninit this block error_ok w
        ≡ some (total, this2, error_ok, w2)
  unfolding pass_through_write_sized is_error error_is_ok
  write_sized_returns this this1 this2 block total w w1 w2 q e f = rw (q, e) f

  read_sized_returns :
      (this this1 this2 : IoStack Next) (size n : ℕ) (block : List ℕ) (w w1 w2 : World)
      → n ≤ size
      → file_get4 Next uninit this error_ok w ≡ some (n, this1, error_ok, w1)
      → file_read Next this1 n error_ok w1 ≡ some (block, this2, error_ok, w2)
      → pass_through_read_sized Next uninit this size error_ok w ≡ some (block, this2, error_ok, w2)
  unfolding pass_through_read_sized is_error error_is_ok
  read_sized_returns this this1 this2 size n block w w1 w2 h e f = rw (e, le→ltb size n h) f

  module _ (u : length (uninit 4) ≡ 4) (V : FileView Next) (L : IsByteFile Next V) where
    pub write_sized_lem :
        (this : IoStack Next) (w : World) (block : List ℕ)
        → V.IsOpen this.next w
        → 0 < length block
        → length block < 2 ^ 32
        → V.pos this.next w + 4 + length block ≤ max_size
        → (next : Next.This) × (w' : World) × (pass_through_write_sized Next uninit this block
              error_ok w
            ≡ some (length block, record this { next = next }, error_ok, w'))
          × V.IsOpen next w'
          × (V.contents next w'
              ≡ splice (V.pos this.next w) (be4 (length block) ++ block) (V.contents this.next w))
          × (V.pos next w' ≡ V.pos this.next w + (4 + length block))
    write_sized_lem this w block o n small fits =
        let same_size : length block % 2 ^ 32 ≡ length block = omega arith in
        let (n1, w1, e1, o1, c1, p1) =
          put4_lem Next uninit u V L this w (length block) o (omega arith) in
        let r = pass_through_write_all-AllWritten Next V L n1 w1 block o1 n (omega arith) in
        (
          r.this',
          r.w',
          write_sized_returns this (record this { next = n1 }) (record this { next = r.this' })
              block (length block) w w1 r.w' same_size e1
              (file_write_returns Next (record this { next = n1 }) w1 r.w' block (length block)
                r.this' r.returns),
          r.opened,
          r.written
              ∙ rw (p1, c1)
                  (splice-splice_after (V.pos this.next w) (V.pos this.next w + 4)
                    (be4 (length block)) block (V.contents this.next w) (L.pos_in this.next w o)
                    refl),
          omega (arith, r.moved, p1),
        )

    -- Where the bytes of a block with its size are, the block is read.
    pub read_sized_lem :
        (this : IoStack Next) (w : World) (block : List ℕ) (size : ℕ)
        → V.IsOpen this.next w
        → 0 < length block
        → length block < 2 ^ 32
        → length block ≤ size
        → V.pos this.next w + (4 + length block) ≤ length (V.contents this.next w)
        → take (4 + length block) (drop (V.pos this.next w) (V.contents this.next w))
          ≡ be4 (length block) ++ block
        → (next : Next.This) × (w' : World) × (pass_through_read_sized Next uninit this size
              error_ok w
            ≡ some (block, record this { next = next }, error_ok, w'))
          × V.IsOpen next w'
          × (V.contents next w' ≡ V.contents this.next w)
          × (V.pos next w' ≡ V.pos this.next w + (4 + length block))
    read_sized_lem this w block size o n small le room there =
        let (front, back) =
          take-append-inj 4 (length block) (4 + length block)
            (drop (V.pos this.next w) (V.contents this.next w)) (be4 (length block)) block there
            refl refl refl in
        let (n4, w4, e4, o4, c4, p4) =
          get4_lem Next uninit u V L this w (length block) o (omega arith) front small in
        let (n5, w5, e5, o5, c5, p5) =
          read_there Next V L n4 w4 (length block) o4 n (rw (c4, p4) (omega arith)) in
        let got : take (length block) (drop (V.pos n4 w4) (V.contents n4 w4)) ≡ block =
          rw (c4, p4)
            (ap (take (length block)) (
                sym (
                  drop-drop (V.pos this.next w) 4 (V.pos this.next w + 4) (V.contents this.next w)
                    refl))
              ∙ back) in
        let e5' = e5 ∙ ap (λ b. some (b, n5, error_ok, w5)) got in
        (
          n5,
          w5,
          read_sized_returns this (record this { next = n4 }) (record this { next = n5 }) size
              (length block) block w w4 w5 le e4
              (file_read_returns Next (record this { next = n4 }) w4 w5 (length block) block n5
                error_ok e5'),
          o5,
          c5 ∙ c4,
          omega (arith, p5, p4),
        )

    -- A non-empty block of less than 2 ^ 32 bytes that is written with its size at the current position is
    -- read back after a seek to there, by a read that allows for at least as many bytes: all three calls
    -- return without an error. The file then has the size in four bytes there, and the block behind it.
    pub read_sized-write_sized :
        (this : IoStack Next) (w : World) (block : List ℕ) (size : ℕ)
        → V.IsOpen this.next w
        → 0 < length block
        → length block < 2 ^ 32
        → length block ≤ size
        → V.pos this.next w + 4 + length block ≤ max_size
        → (this' : IoStack Next) × (w' : World) × (write_and_read_sized this
              (V.pos this.next w)
              block
              size
              w
            ≡ some (block, this', error_ok, w'))
          × (V.contents this'.next w'
              ≡ splice (V.pos this.next w) (be4 (length block) ++ block) (V.contents this.next w))
    read_sized-write_sized this w block size o n small le fits =
        let p = V.pos this.next w in
        let c = V.contents this.next w in
        let (n1, w1, e1, o1, c1, p1) = write_sized_lem this w block o n small fits in
        let sum : length (be4 (length block) ++ block) ≡ 4 + length block =
          length-append (be4 (length block)) block in
        let len : length (V.contents n1 w1) ≡ max (length c) (p + (4 + length block)) =
          ap (length {0}) c1
          ∙ length-splice p (be4 (length block) ++ block) c (L.pos_in this.next w o)
          ∙ ap (λ b. max (length c) (p + b)) sum in
        let s = L.seeks n1 w1 p o1 (omega (arith, len)) in
        let (n2, w2, e2, o2, c2, p2) =
          read_sized_lem (record this { next = s.this' }) s.w' block size s.opened n small le
            (rw (s.moved, s.same, len) (omega arith))
            (rw (s.moved, s.same, c1)
              (take-drop-splice p (4 + length block) (be4 (length block) ++ block) c
                (L.pos_in this.next w o) (sym sum))) in
        (
          record this { next = n2 },
          w2,
          rw (e1, file_seek_returns Next (record this { next = n1 }) w1 s.w' p p s.this' s.returns)
              e2,
          c2 ∙ s.same ∙ c1,
        )
