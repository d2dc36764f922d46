-- ===== src/Common/PassThrough/Writes.antt =====
-- passThroughWriteAll over a next filter that is a file of bytes.
use temp_files.Base.{
  ℕ, zero, suc, ◌+◌, ◌^◌, ◌≤◌, ◌<◌, ◌≡◌, sym, ◌∙◌, ap, Option, some, List, [], ◌∷◌, length, take,
  drop, splice, add_size-eq, arith, length-take, length-drop, lt→ltb, splice-splice_after,
  splice-nil, take-append-drop,
}
use native.Mathlib.Nat.{zero-add}
use temp_files.Common.Errors.{Error, error_ok}
use temp_files.Common.Filter.{Filter}
use temp_files.Common.ByteFile.{FileView, IsByteFile, WriteStep, max_size}
use temp_files.Common.PassThrough.{write_all_loop, pass_through_write_all}
use temp_files.Common.PassThrough.Laws.{write_all_loop_done, write_all_loop_round}

module _ {World : Type 0} (next : Filter World) (V : FileView next) (L : IsByteFile next V) where
  open next use {This}

  -- All that a caller can observe of a write of `buf`, its result `total` included.
  pub record AllWritten (this : This) (w : World) (buf : List ℕ) (total : ℕ)
      (r : Option (ℕ × This × Error × World)) : Type 0 where
    pub this' : This
    pub w' : World
    pub returns : r ≡ some (total, this', error_ok, w')
    pub opened : V.IsOpen this' w'
    pub written : V.contents this' w' ≡ splice (V.pos this w) buf (V.contents this w)
    pub moved : V.pos this' w' ≡ V.pos this w + length buf

  left_fits :
      (this : This) (w : World) (buf : List ℕ)
      → V.pos this w + length buf ≤ max_size
      → (s : WriteStep next V this w buf)
      → V.pos s.this' s.w' + length (drop s.count buf) ≤ max_size
  left_fits this w buf h s = omega (arith, s.moved, s.within, length-drop s.count buf)

  -- The parts of `buf` written by one call and by the calls after it.
  parts :
      (this : This) (w : World) (buf : List ℕ) (s : WriteStep next V this w buf)
      → V.IsOpen this w
      → splice (V.pos s.this' s.w') (drop s.count buf) (V.contents s.this' s.w')
        ≡ splice (V.pos this w) buf (V.contents this w)
  parts this w buf s o =
      let p = V.pos this w in
      let c = V.contents this w in
      rw (s.written, s.moved)
        (splice-splice_after p (p + s.count) (take s.count buf) (drop s.count buf) c
            (L.pos_in this w o) (omega (arith, length-take s.count buf, s.within))
          ∙ ap (λ b. splice p b c) (take-append-drop s.count buf))

  AllWritten-step :
      (fuel : ℕ) (this : This) (w : World) (buf : List ℕ) (total : ℕ)
      → V.IsOpen this w
      → V.pos this w + length buf ≤ max_size
      → total + length buf ≤ max_size
      → 0 < length buf
      → (s : WriteStep next V this w buf)
      → ((s : WriteStep next V this w buf)
          → AllWritten s.this' s.w'
              (drop s.count buf)
              (total + s.count + length (drop s.count buf))
              (write_all_loop next fuel s.this' (drop s.count buf) (total + s.count) error_ok s.w'))
      → AllWritten this w buf
          (total + length buf)
          (write_all_loop next (suc fuel) this buf total error_ok w)
  AllWritten-step fuel this w buf total o h t ne s rest =
      let l = rest s in
      let left = length-drop s.count buf in
      record {
        this' = l.this';
        w' = l.w';
        returns =
            rw
              (
                write_all_loop_round next fuel this buf total w ne s.returns,
                add_size-eq total s.count (omega (arith, s.within)),
                l.returns,
              )
              (ap (λ n. some (n, l.this', error_ok, l.w')) (omega (arith, s.within)));
        opened = l.opened;
        written = l.written ∙ parts this w buf s o;
        moved = omega (arith, l.moved, s.moved, s.within);
      }

  write_all_loop_lem :
      (fuel : ℕ) (this : This) (w : World) (buf : List ℕ) (total : ℕ)
      → V.IsOpen this w
      → V.pos this w + length buf ≤ max_size
      → total + length buf ≤ max_size
      → length buf < fuel
      → AllWritten this w buf
          (total + length buf)
          (write_all_loop next fuel this buf total error_ok w)
  write_all_loop_lem zero this w buf total o h t f = absurd (omega arith)
  write_all_loop_lem (suc fuel) this w [] total o h t f = record {
    this' = this;
    w' = w;
    returns =
        write_all_loop_done next fuel this total error_ok w
        ∙ ap (λ n. some (n, this, error_ok, w)) (omega arith);
    opened = o;
    written = sym (splice-nil (V.pos this w) (V.contents this w));
    moved = omega arith;
  }
  write_all_loop_lem (suc fuel) this w (b ∷ bs) total o h t f =
      AllWritten-step fuel this w (b ∷ bs) total o h t (omega arith)
        (L.writes this w (b ∷ bs) o (omega arith) h)
        λ s.
          write_all_loop_lem fuel s.this' s.w' (drop s.count (b ∷ bs)) (total + s.count) s.opened
            (left_fits this w (b ∷ bs) h s) (omega (arith, s.within, length-drop s.count (b ∷ bs)))
            (omega (arith, s.progress, length-drop s.count (b ∷ bs)))

  -- Over a file of bytes passThroughWriteAll of at least one byte returns without an error, after
  -- writing all of `buf` over the contents from the position on, at the position after it. It reports
  -- the length of `buf`.
  pub pass_through_write_all-AllWritten :
      (this : This) (w : World) (buf : List ℕ)
      → V.IsOpen this w
      → 0 < length buf
      → V.pos this w + length buf ≤ max_size
      → AllWritten this w buf (length buf) (pass_through_write_all next this buf error_ok w)
  unfolding pass_through_write_all
  pass_through_write_all-AllWritten this w buf o h k =
      rw (lt→ltb 0 (length buf) h, lt→ltb (length buf) (2 ^ 63) (omega arith))
        (rw zero-add at
          (write_all_loop_lem (suc (length buf)) this w buf 0 o k (omega arith) (omega arith)))
