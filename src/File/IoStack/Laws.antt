-- ===== src/File/IoStack/Laws.antt =====
-- Writing, seeking and reading through the handle of a pipeline whose next filter is a file of bytes.
use temp_files.Base.{
  ℕ, ◌+◌, ◌≤◌, ◌<◌, ◌≡◌, refl, ◌∙◌, ap, Option, some, List, length, take, drop, splice, arith, ltb,
  ◌==◌, ◌&&◌, if◌then◌else◌, length-splice, take-drop-splice,
}
use temp_files.Base.OptionMonad.{◌>>=◌}
use temp_files.Common.Errors.{Error, error_ok, error_eof}
use temp_files.Common.Filter.{Filter}
use temp_files.Common.ByteFile.{FileView, IsByteFile, max_size}
use temp_files.Common.PassThrough.{pass_through_write_all, pass_through_read_all}
use temp_files.Common.PassThrough.Reads.{pass_through_read_all-AllRead}
use temp_files.Common.PassThrough.Writes.{AllWritten, pass_through_write_all-AllWritten}
use temp_files.File.IoStack.{IoStack, file_write, file_read, file_seek}

module _ {World : Type 0} (Next : Filter World) where
  -- Write `buf`, go back to `p`, and read as many bytes as were written.
  abbrev pub write_and_read_back :
      IoStack Next → ℕ → List ℕ → World → Option (List ℕ × IoStack Next × Error × World)
  write_and_read_back this p buf w = do
    (total, this1, error1, w1) ← file_write Next this buf error_ok w
    (landing, this2, error2, w2) ← file_seek Next this1 p error1 w1
    file_read Next this2 total error2 w2

  pub file_seek_returns :
      (this : IoStack Next) (w w' : World) (p landing : ℕ) (next : Next.This)
      → Next.fn_seek this.next p error_ok w ≡ some (landing, next, error_ok, w')
      → file_seek Next this p error_ok w ≡ some (landing, record this { next = next }, error_ok, w')
  unfolding file_seek
  file_seek_returns this w w' p landing next e = rw e refl

  pub file_write_returns :
      (this : IoStack Next) (w w' : World) (buf : List ℕ) (total : ℕ) (next : Next.This)
      → pass_through_write_all Next this.next buf error_ok w ≡ some (total, next, error_ok, w')
      → file_write Next this buf error_ok w
        ≡ some (total, record this { next = next }, error_ok, w')
  unfolding file_write
  file_write_returns this w w' buf total next e = rw e refl

  pub file_read_returns :
      (this : IoStack Next) (w w' : World) (size : ℕ) (bytes : List ℕ) (next : Next.This)
      (error' : Error)
      → pass_through_read_all Next this.next size error_ok w ≡ some (bytes, next, error', w')
      → file_read Next this size error_ok w ≡ some (bytes, record this { next = next }, error', w')
  unfolding file_read
  file_read_returns this w w' size bytes next error' e = rw e refl

  module _ (V : FileView Next) (L : IsByteFile Next V) where
    -- A read of bytes that are all there.
    pub read_there :
        (next : Next.This) (w : World) (size : ℕ)
        → V.IsOpen next w
        → 0 < size
        → V.pos next w + size ≤ length (V.contents next w)
        → (next' : Next.This) × (w' : World) × (pass_through_read_all Next next size error_ok w
            ≡ some (take size (drop (V.pos next w) (V.contents next w)), next', error_ok, w'))
          × V.IsOpen next' w'
          × (V.contents next' w' ≡ V.contents next w)
          × (V.pos next' w' ≡ V.pos next w + size)
    read_there next w size o n h =
        let r =
          pass_through_read_all-AllRead Next V L next w size o
            (omega (arith, L.bounded next w o)) in
        let ok : (if V.pos next w == length (V.contents next w) && ltb 0 size
              then error_eof
              else error_ok)
            ≡ error_ok =
          ground arith in
        (
          r.this',
          r.w',
          r.returns
              ∙ ap
                  (λ e.
                    some (take size (drop (V.pos next w) (V.contents next w)), r.this', e, r.w'))
                  (r.status ∙ ok),
          r.opened,
          r.same,
          omega (arith, r.moved),
        )

    -- What was written is there after a seek back to its start.
    pub sought_back :
        (next : Next.This) (w : World) (buf : List ℕ)
        → V.IsOpen next w
        → 0 < length buf
        → V.pos next w + length buf ≤ max_size
        → (r : AllWritten Next V L next w buf
            (length buf)
            (pass_through_write_all Next next buf error_ok w))
        → (next' : Next.This) × (w' : World) × (Next.fn_seek r.this' (V.pos next w) error_ok r.w'
            ≡ some (V.pos next w, next', error_ok, w'))
          × V.IsOpen next' w'
          × (V.contents next' w' ≡ splice (V.pos next w) buf (V.contents next w))
          × (V.pos next' w' ≡ V.pos next w)
    sought_back next w buf o n h r =
        let len = length-splice (V.pos next w) buf (V.contents next w) (L.pos_in next w o) in
        let s =
          L.seeks r.this' r.w' (V.pos next w) r.opened
            (omega (arith, ap (length {0}) r.written, L.pos_in next w o)) in
        (s.this', s.w', s.returns, s.opened, s.same ∙ r.written, s.moved)

    -- Over a file of bytes, a non-empty buffer that is written at the current position is read back, by
    -- a seek to that position and a read of as many bytes: each of the three calls returns without an
    -- error, and the contents then are the old ones with the buffer written over them.
    pub file_read-file_write :
        (this : IoStack Next) (w : World) (buf : List ℕ)
        → V.IsOpen this.next w
        → 0 < length buf
        → V.pos this.next w + length buf ≤ max_size
        → (this' : IoStack Next) × (w' : World) × (write_and_read_back this
              (V.pos this.next w)
              buf
              w
            ≡ some (buf, this', error_ok, w'))
          × (V.contents this'.next w' ≡ splice (V.pos this.next w) buf (V.contents this.next w))
    file_read-file_write this w buf o n h =
        let r = pass_through_write_all-AllWritten Next V L this.next w buf o n h in
        let (next2, w2, e2, o2, c2, p2) = sought_back this.next w buf o n h r in
        let len =
          length-splice (V.pos this.next w) buf (V.contents this.next w) (L.pos_in this.next w o) in
        let (next3, w3, e3, o3, c3, p3) =
          read_there next2 w2 (length buf) o2 n (omega (arith, ap (length {0}) c2)) in
        let same : take (length buf) (drop (V.pos next2 w2) (V.contents next2 w2)) ≡ buf =
          rw (p2, c2)
            (take-drop-splice (V.pos this.next w) (length buf) buf (V.contents this.next w)
              (L.pos_in this.next w o) refl) in
        (
          record this { next = next3 },
          w3,
          rw
              (
                file_write_returns this w r.w' buf (length buf) r.this' r.returns,
                file_seek_returns (record this { next = r.this' }) r.w' w2 (V.pos this.next w)
                    (V.pos this.next w) next2 e2,
              )
              (file_read_returns (record this { next = next2 }) w2 w3 (length buf) _ next3 error_ok
                  e3
                ∙ ap (λ b. some (b, record this { next = next3 }, error_ok, w3)) same),
          c3 ∙ c2,
        )
