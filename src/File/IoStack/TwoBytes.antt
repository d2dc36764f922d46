-- ===== src/File/IoStack/TwoBytes.antt =====
-- `fileGet2` unpacks four bytes from an array of two.
use temp_files.Base.{
  ℕ, ◌+◌, ◌*◌, ◌%◌, ◌^◌, ◌≤◌, ◌≡◌, refl, ◌∙◌, ap, some, List, length, take, drop, arith,
  length-take, length-drop, splice,
}
use temp_files.Common.Errors.{error_ok}
use temp_files.Common.Filter.{Filter}
use temp_files.Common.ByteFile.{FileView, IsByteFile}
use temp_files.Common.Packed.{Cursor, unpack1, unpack2, unpack4, shift_or}
use temp_files.Common.Packed.Bits.{bit_or_shifted}
use temp_files.File.IoStack.{IoStack, file_get2}
use temp_files.File.IoStack.Laws.{read_there}
use temp_files.File.IoStack.Integers.{get_bytes_returns}

-- The low half of what is past the end is 0.
shifted : (high : ℕ) → shift_or high 16 0 % 2 ^ 16 ≡ 0
unfolding shift_or
shifted high =
    let cut : high * 2 ^ 16 % 2 ^ 64 ≡ (high % 2 ^ 48) * 2 ^ 16 = omega arith in
    rw (cut, bit_or_shifted 16 (high % 2 ^ 48) 0 (omega arith)) (omega arith)

past_end : (c : Cursor) (end : ℕ) → end ≤ c.bp → (unpack2 c end).0 ≡ 0
unfolding unpack2 unpack1 shift_or
past_end c end h = ground (arith, bit_or_shifted 8 0 0 (omega arith))

two_on : (bytes : List ℕ) → (unpack2 (record { bytes = bytes; bp = 0 }) 2).1.bp ≡ 2
unfolding unpack2 unpack1
two_on bytes = refl

unpack4_short : (bytes : List ℕ) → (unpack4 (record { bytes = bytes; bp = 0 }) 2).0 % 2 ^ 16 ≡ 0
unfolding unpack4
unpack4_short bytes =
    let (high, c1) = unpack2 (record { bytes = bytes; bp = 0 }) 2 in
    rw (past_end (unpack2 (record { bytes = bytes; bp = 0 }) 2).1 2 (omega (arith, two_on bytes)))
      (shifted (unpack2 (record { bytes = bytes; bp = 0 }) 2).0)

module _ {World : Type 0} (Next : Filter World) (uninit : ℕ → List ℕ) (V : FileView Next)
    (L : IsByteFile Next V) where
  -- fileGet2 returns 0 and no error at every place of a file of bytes that has two more bytes, whatever
  -- they are.
  pub file_get2_zero :
      (this : IoStack Next) (w : World)
      → V.IsOpen this.next w
      → V.pos this.next w + 2 ≤ length (V.contents this.next w)
      → (this' : IoStack Next) × (w' : World) × (file_get2 Next uninit this error_ok w
          ≡ some (0, this', error_ok, w'))
  unfolding file_get2
  file_get2_zero this w o h =
      let (next', w', e, o', c', p') = read_there Next V L this.next w 2 o (omega arith) h in
      let bytes = take 2 (drop (V.pos this.next w) (V.contents this.next w)) in
      let two : length bytes ≡ 2 = omega (
        arith,
        length-take 2 (drop (V.pos this.next w) (V.contents this.next w)),
        length-drop (V.pos this.next w) (V.contents this.next w),
      ) in
      (
        record this { next = next' },
        w',
        get_bytes_returns Next uninit 2 (λ c. (unpack4 c 2).0 % 2 ^ 16) _ this w w' bytes next' e
              two
            ∙ ap (λ n. some (n, record this { next = next' }, error_ok, w'))
                (unpack4_short (splice 0 bytes (uninit 2))),
      )
