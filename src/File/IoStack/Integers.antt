-- ===== src/File/IoStack/Integers.antt =====
-- The integers that are put into a pipeline and got out of it.
use temp_files.Base.{
  ℕ, ◌+◌, ◌%◌, ◌^◌, ◌≤◌, ◌<◌, ◌≡◌, refl, sym, ◌∙◌, ap, Bool, false, String, Option, some, List,
  length, take, drop, splice, arith, [], drop-all, ==_iff, length-splice, take-drop-splice,
}
use temp_files.Base.OptionMonad.{◌>>=◌}
use mathlib.Core.List.{append-nil}
use temp_files.Common.Errors.{Error, error_ok, is_error, error_is_ok, error_is_eof}
use temp_files.Common.Filter.{Filter}
use temp_files.Common.ByteFile.{FileView, IsByteFile, max_size}
use temp_files.Common.Packed.{Cursor, unpack4, unpack8, pack4, pack8}
use temp_files.Common.Packed.Layout.{be4, be8, pack4_lem, pack8_lem}
use temp_files.Common.Packed.RoundTrip.{unpack4_lem, unpack8_lem}
use temp_files.Common.PassThrough.{pass_through_write_all, pass_through_read_all}
use temp_files.Common.PassThrough.Writes.{pass_through_write_all-AllWritten}
use temp_files.File.IoStack.{
  IoStack, file_seek, file_put8, file_get8, file_put4, file_get4, local_array, read_into, put_bytes,
  get_bytes,
}
use temp_files.File.IoStack.Laws.{file_seek_returns, read_there, sought_back}

module _ {World : Type 0} (Next : Filter World) (uninit : ℕ → List ℕ) where
  -- Put a value, go back to `p`, and get one.
  abbrev pub put_and_get_back :
      (IoStack Next → ℕ → Error → World → Option (Bool × IoStack Next × Error × World))
      → (IoStack Next → Error → World → Option (ℕ × IoStack Next × Error × World))
      → IoStack Next
      → ℕ
      → ℕ
      → World
      → Option (ℕ × IoStack Next × Error × World)
  put_and_get_back put get this p value w = do
    (failed, this1, error1, w1) ← put this value error_ok w
    (landing, this2, error2, w2) ← file_seek Next this1 p error1 w1
    get this2 error2 w2

  pub put_bytes_returns :
      (this : IoStack Next) (w w' : World) (bytes : List ℕ) (total : ℕ) (next : Next.This)
      → pass_through_write_all Next this.next bytes error_ok w ≡ some (total, next, error_ok, w')
      → put_bytes Next uninit this bytes error_ok w
        ≡ some (false, record this { next = next }, error_ok, w')
  unfolding is_error error_is_ok
  put_bytes_returns this w w' bytes total next e = rw e refl

  pub get_bytes_returns :
      (n : ℕ) (value : Cursor → ℕ) (failure : String) (this : IoStack Next) (w w' : World)
      (bytes : List ℕ) (next : Next.This)
      → pass_through_read_all Next this.next n error_ok w ≡ some (bytes, next, error_ok, w')
      → length bytes ≡ n
      → get_bytes Next uninit n value failure this error_ok w
        ≡ some (value (read_into Next uninit n bytes), record this { next = next }, error_ok, w')
  unfolding error_is_eof
  get_bytes_returns n value failure this w w' bytes next e l =
      rw e (rw l (rw ((==_iff n n).1 refl) refl))

  pub whole_array :
      (n : ℕ) (bytes : List ℕ)
      → length (uninit n) ≡ n
      → length bytes ≡ n
      → splice 0 bytes (uninit n) ≡ bytes
  whole_array n bytes u l =
      let rest : drop (0 + length bytes) (uninit n) ≡ [] =
        drop-all (0 + length bytes) (uninit n) (omega arith) in
      rw rest (append-nil bytes)

  module _ (V : FileView Next) (L : IsByteFile Next V) where
    put-get :
        (n : ℕ) (bytes : List ℕ) (value : Cursor → ℕ) (v : ℕ) (failure : String)
        → length bytes ≡ n
        → 0 < n
        → value (read_into Next uninit n bytes) ≡ v
        → (this : IoStack Next) (w : World) → V.IsOpen this.next w
        → V.pos this.next w + n ≤ max_size
        → (this' : IoStack Next) × (w' : World) × (put_and_get_back
              (λ this value. put_bytes Next uninit this bytes)
              (get_bytes Next uninit n value failure)
              this
              (V.pos this.next w)
              v
              w
            ≡ some (v, this', error_ok, w'))
          × (V.contents this'.next w' ≡ splice (V.pos this.next w) bytes (V.contents this.next w))
    put-get n bytes value v failure l pos_n x this w o h =
        let r =
          pass_through_write_all-AllWritten Next V L this.next w bytes o (omega arith)
            (omega arith) in
        let (next2, w2, e2, o2, c2, p2) =
          sought_back Next V L this.next w bytes o (omega arith) (omega arith) r in
        let len =
          length-splice (V.pos this.next w) bytes (V.contents this.next w)
            (L.pos_in this.next w o) in
        let (next3, w3, e3, o3, c3, p3) =
          read_there Next V L next2 w2 n o2 pos_n (omega (arith, ap (length {0}) c2)) in
        let same : take n (drop (V.pos next2 w2) (V.contents next2 w2)) ≡ bytes =
          rw (p2, c2)
            (take-drop-splice (V.pos this.next w) n bytes (V.contents this.next w)
              (L.pos_in this.next w o) (sym l)) in
        let e3' = e3 ∙ ap (λ b. some (b, next3, error_ok, w3)) same in
        (
          record this { next = next3 },
          w3,
          rw
              (
                put_bytes_returns this w r.w' bytes (length bytes) r.this' r.returns,
                file_seek_returns Next (record this { next = r.this' }) r.w' w2 (V.pos this.next w)
                    (V.pos this.next w) next2 e2,
              )
              (get_bytes_returns n value failure (record this { next = next2 }) w2 w3 bytes next3
                  e3' l
                ∙ ap (λ v. some (v, record this { next = next3 }, error_ok, w3)) x),
          c3 ∙ c2,
        )

    -- A value that is put into a file of bytes with 8 bytes is got back, modulo 2 ^ 64, after a seek to
    -- where it was put: all three calls return without an error. The file then has the value's bytes
    -- there, the high one first.
    pub file_get8-file_put8 :
        (this : IoStack Next) (w : World) (value : ℕ)
        → V.IsOpen this.next w
        → V.pos this.next w + 8 ≤ max_size
        → length (uninit 8) ≡ 8
        → (this' : IoStack Next) × (w' : World) × (put_and_get_back
              (file_put8 Next uninit)
              (file_get8 Next uninit)
              this
              (V.pos this.next w)
              value
              w
            ≡ some (value % 2 ^ 64, this', error_ok, w'))
          × (V.contents this'.next w'
              ≡ splice (V.pos this.next w) (be8 value) (V.contents this.next w))
    unfolding file_put8 file_get8
    file_get8-file_put8 this w value o h u =
        let whole = whole_array 8 (be8 value) u refl in
        let packed : (pack8 (local_array Next uninit 8) 8 value).bytes ≡ be8 value =
          ap (λ c. c.bytes)
            (pack8_lem 8 (local_array Next uninit 8) value (omega arith) (omega arith))
          ∙ whole in
        let got =
          unpack8_lem 8 (read_into Next uninit 8 (be8 value)) value (omega arith)
            (ap (take 8) whole) in
        rw packed (
          put-get 8 (be8 value) (λ c. (unpack8 c 8).0) (value % 2 ^ 64) _ refl (omega arith)
            (ap (λ r. r.0) got) this w o h)

    -- A value that is put into a file of bytes with 4 bytes is got back, modulo 2 ^ 32, after a seek to
    -- where it was put: all three calls return without an error. The file then has the value's bytes
    -- there, the high one first.
    pub file_get4-file_put4 :
        (this : IoStack Next) (w : World) (value : ℕ)
        → V.IsOpen this.next w
        → V.pos this.next w + 4 ≤ max_size
        → length (uninit 4) ≡ 4
        → (this' : IoStack Next) × (w' : World) × (put_and_get_back
              (file_put4 Next uninit)
              (file_get4 Next uninit)
              this
              (V.pos this.next w)
              value
              w
            ≡ some (value % 2 ^ 32, this', error_ok, w'))
          × (V.contents this'.next w'
              ≡ splice (V.pos this.next w) (be4 value) (V.contents this.next w))
    unfolding file_put4 file_get4
    file_get4-file_put4 this w value o h u =
        let whole = whole_array 4 (be4 value) u refl in
        let packed : (pack4 (local_array Next uninit 4) 4 value).bytes ≡ be4 value =
          ap (λ c. c.bytes)
            (pack4_lem 4 (local_array Next uninit 4) value (omega arith) (omega arith))
          ∙ whole in
        let got =
          unpack4_lem 4 (read_into Next uninit 4 (be4 value)) value (omega arith)
            (ap (take 4) whole) in
        rw packed (
          put-get 4 (be4 value) (λ c. (unpack4 c 4).0 % 2 ^ 32) (value % 2 ^ 32) _ refl
            (omega arith) (ap (λ r. r.0 % 2 ^ 32) got ∙ omega arith) this w o h)
