-- ===== src/File/IoStack/Effects.antt =====
-- The whole effect of putting an integer into a file of bytes, and of getting one.
use temp_files.Base.{
  ℕ, ◌+◌, ◌%◌, ◌^◌, ◌≤◌, ◌<◌, ◌≡◌, refl, ◌∙◌, ap, false, some, List, length, take, drop, splice,
  arith,
}
use temp_files.Common.Errors.{error_ok}
use temp_files.Common.Filter.{Filter}
use temp_files.Common.ByteFile.{FileView, IsByteFile, max_size}
use temp_files.Common.Packed.{unpack4, pack4, unpack8, pack8}
use temp_files.Common.Packed.Layout.{be4, pack4_lem, be8, pack8_lem}
use temp_files.Common.Packed.RoundTrip.{unpack4_lem, unpack8_lem}
use temp_files.Common.PassThrough.Writes.{pass_through_write_all-AllWritten}
use temp_files.File.IoStack.{
  IoStack, file_put4, file_get4, file_put8, file_get8, local_array, read_into,
}
use temp_files.File.IoStack.Laws.{read_there}
use temp_files.File.IoStack.Integers.{put_bytes_returns, get_bytes_returns, whole_array}

module _ {World : Type 0} (Next : Filter World) (uninit : ℕ → List ℕ) (u : length (uninit 4) ≡ 4)
    (V : FileView Next) (L : IsByteFile Next V) where
  -- The whole effect of filePut4.
  pub put4_lem :
      (this : IoStack Next) (w : World) (value : ℕ)
      → V.IsOpen this.next w
      → V.pos this.next w + 4 ≤ max_size
      → (next : Next.This) × (w' : World) × (file_put4 Next uninit this value error_ok w
          ≡ some (false, record this { next = next }, error_ok, w'))
        × V.IsOpen next w'
        × (V.contents next w' ≡ splice (V.pos this.next w) (be4 value) (V.contents this.next w))
        × (V.pos next w' ≡ V.pos this.next w + 4)
  unfolding file_put4
  put4_lem this w value o h =
      let packed : (pack4 (local_array Next uninit 4) 4 value).bytes ≡ be4 value =
        ap (λ c. c.bytes)
          (pack4_lem 4 (local_array Next uninit 4) value (omega arith) (omega arith))
        ∙ whole_array Next uninit 4 (be4 value) u refl in
      let r =
        pass_through_write_all-AllWritten Next V L this.next w (be4 value) o (omega arith)
          (omega arith) in
      (
        r.this',
        r.w',
        rw packed (put_bytes_returns Next uninit this w r.w' (be4 value) 4 r.this' r.returns),
        r.opened,
        r.written,
        r.moved,
      )

  -- The whole effect of fileGet4, where the bytes of a value are.
  pub get4_lem :
      (this : IoStack Next) (w : World) (value : ℕ)
      → V.IsOpen this.next w
      → V.pos this.next w + 4 ≤ length (V.contents this.next w)
      → take 4 (drop (V.pos this.next w) (V.contents this.next w)) ≡ be4 value
      → value < 2 ^ 32
      → (next : Next.This) × (w' : World) × (file_get4 Next uninit this error_ok w
          ≡ some (value, record this { next = next }, error_ok, w'))
        × V.IsOpen next w'
        × (V.contents next w' ≡ V.contents this.next w)
        × (V.pos next w' ≡ V.pos this.next w + 4)
  unfolding file_get4
  get4_lem this w value o h x small =
      let (next, w', e, o', same, moved) = read_there Next V L this.next w 4 o (omega arith) h in
      let e' = e ∙ ap (λ b. some (b, next, error_ok, w')) x in
      let got =
        unpack4_lem 4 (read_into Next uninit 4 (be4 value)) value (omega arith)
          (ap (take 4) (whole_array Next uninit 4 (be4 value) u refl)) in
      let v : (unpack4 (read_into Next uninit 4 (be4 value)) 4).0 % 2 ^ 32 ≡ value =
        ap (λ r. r.0 % 2 ^ 32) got ∙ omega arith in
      (
        next,
        w',
        get_bytes_returns Next uninit 4 (λ c. (unpack4 c 4).0 % 2 ^ 32) _ this w w' (be4 value) next
              e' refl
            ∙ ap (λ n. some (n, record this { next = next }, error_ok, w')) v,
        o',
        same,
        moved,
      )

module _ {World : Type 0} (Next : Filter World) (uninit : ℕ → List ℕ) (u : length (uninit 8) ≡ 8)
    (V : FileView Next) (L : IsByteFile Next V) where
  -- The whole effect of filePut8.
  pub put8_lem :
      (this : IoStack Next) (w : World) (value : ℕ)
      → V.IsOpen this.next w
      → V.pos this.next w + 8 ≤ max_size
      → (next : Next.This) × (w' : World) × (file_put8 Next uninit this value error_ok w
          ≡ some (false, record this { next = next }, error_ok, w'))
        × V.IsOpen next w'
        × (V.contents next w' ≡ splice (V.pos this.next w) (be8 value) (V.contents this.next w))
        × (V.pos next w' ≡ V.pos this.next w + 8)
  unfolding file_put8
  put8_lem this w value o h =
      let packed : (pack8 (local_array Next uninit 8) 8 value).bytes ≡ be8 value =
        ap (λ c. c.bytes)
          (pack8_lem 8 (local_array Next uninit 8) value (omega arith) (omega arith))
        ∙ whole_array Next uninit 8 (be8 value) u refl in
      let r =
        pass_through_write_all-AllWritten Next V L this.next w (be8 value) o (omega arith)
          (omega arith) in
      (
        r.this',
        r.w',
        rw packed (put_bytes_returns Next uninit this w r.w' (be8 value) 8 r.this' r.returns),
        r.opened,
        r.written,
        r.moved,
      )

  -- The whole effect of fileGet8, where the bytes of a value are.
  pub get8_lem :
      (this : IoStack Next) (w : World) (value : ℕ)
      → V.IsOpen this.next w
      → V.pos this.next w + 8 ≤ length (V.contents this.next w)
      → take 8 (drop (V.pos this.next w) (V.contents this.next w)) ≡ be8 value
      → value < 2 ^ 64
      → (next : Next.This) × (w' : World) × (file_get8 Next uninit this error_ok w
          ≡ some (value, record this { next = next }, error_ok, w'))
        × V.IsOpen next w'
        × (V.contents next w' ≡ V.contents this.next w)
        × (V.pos next w' ≡ V.pos this.next w + 8)
  unfolding file_get8
  get8_lem this w value o h x small =
      let (next, w', e, o', same, moved) = read_there Next V L this.next w 8 o (omega arith) h in
      let e' = e ∙ ap (λ b. some (b, next, error_ok, w')) x in
      let got =
        unpack8_lem 8 (read_into Next uninit 8 (be8 value)) value (omega arith)
          (ap (take 8) (whole_array Next uninit 8 (be8 value) u refl)) in
      let v : (unpack8 (read_into Next uninit 8 (be8 value)) 8).0 ≡ value =
        ap (λ r. r.0) got ∙ omega arith in
      (
        next,
        w',
        get_bytes_returns Next uninit 8 (λ c. (unpack8 c 8).0) _ this w w' (be8 value) next e' refl
            ∙ ap (λ n. some (n, record this { next = next }, error_ok, w')) v,
        o',
        same,
        moved,
      )
