-- ===== src/Common/PassThrough/Reads.antt =====
-- passThroughReadAll over a next filter that is a file of bytes.
use temp_files.Base.{
  ℕ, zero, suc, ◌+◌, ◌-◌, ◌*◌, ◌≤◌, ◌<◌, ◌≡◌, inl, inr, refl, sym, ◌∙◌, ap, Option, some, List, [],
  ◌++◌, ◌&&◌, ◌==◌, length, take, drop, min, ltb, if◌then◌else◌, sub_size, sub_size-eq, arith,
  drop-drop, drop-all, take-append-take, length-take, length-drop,
}
use mathlib.Core.List.{append_assoc, append-nil}
use temp_files.Common.Errors.{Error, error_ok, error_eof, error_is_eof}
use temp_files.Common.Filter.{Filter}
use temp_files.Common.ByteFile.{FileView, IsByteFile, ReadStep, max_size}
use temp_files.Common.PassThrough.{read_all_loop, pass_through_read_all}
use temp_files.Common.PassThrough.Laws.{read_all_loop_done, read_all_loop_eof, read_all_loop_round}

module _ {World : Type 0} (next : Filter World) (V : FileView next) (L : IsByteFile next V) where
  open next use {This}

  -- What a loop that still wants `size` bytes at `this` comes to, after `got`.
  record ReadLoop (this : This) (w : World) (size : ℕ) (got : List ℕ)
      (r : Option (List ℕ × This × Error × World)) : Type 0 where
    this' : This
    error' : Error
    w' : World
    returns :
        r ≡ some (got ++ take size (drop (V.pos this w) (V.contents this w)), this', error', w')
    opened : V.IsOpen this' w'
    same : V.contents this' w' ≡ V.contents this w
    moved : V.pos this' w' ≡ min (V.pos this w + size) (length (V.contents this w))
    status :
        error'
        ≡ (if ltb (length (V.contents this w) - V.pos this w) size then error_eof else error_ok)

  chunks :
      (got c : List ℕ) (p k p' size : ℕ)
      → p' ≡ p + k
      → k ≤ size
      → got ++ take k (drop p c) ++ take (size - k) (drop p' c) ≡ got ++ take size (drop p c)
  chunks got c p k p' size e h =
      append_assoc got (take k (drop p c)) (take (size - k) (drop p' c))
      ∙ ap (λ l. got ++ l)
          (rw (← drop-drop p k p' c e)
            (take-append-take k (size - k) size (drop p c) (omega arith)))

  size_left :
      {size count : ℕ} (b : List ℕ)
      → size ≤ max_size
      → count ≤ size
      → count ≤ length b
      → sub_size size (length (take count b)) ≡ size - count
  size_left {size} {count} b h k l =
      omega (arith, sub_size-eq size (length (take count b)), length-take count b)

  ReadLoop-step :
      (this : This) (w : World) (size : ℕ) (got : List ℕ)
      → size ≤ max_size
      → V.IsOpen this w
      → (s : ReadStep next V this w size) → {r : Option (List ℕ × This × Error × World)}
      → ReadLoop s.this' s.w'
          (size - s.count)
          (got ++ take s.count (drop (V.pos this w) (V.contents this w)))
          r
      → ReadLoop this w size got r
  ReadLoop-step this w size got h o s l = record {
    this' = l.this';
    error' = l.error';
    w' = l.w';
    returns =
        l.returns
        ∙ ap (λ b. some (b, l.this', l.error', l.w'))
            (rw s.same (
              chunks got (V.contents this w) (V.pos this w) s.count (V.pos s.this' s.w') size
                s.moved s.within));
    opened = l.opened;
    same = l.same ∙ s.same;
    moved = ground (arith, l.moved, s.moved, ap (length {0}) s.same);
    status = ground (arith, l.status, s.moved, ap (length {0}) s.same);
  }

  -- The end of the file ends the loop.
  ReadLoop-eof :
      (fuel : ℕ) (this : This) (w : World) (size : ℕ) (got : List ℕ)
      → V.IsOpen this w
      → 0 < size
      → 0 < fuel
      → V.pos this w ≡ length (V.contents this w)
      → ReadLoop this w size got (read_all_loop next fuel this size got error_eof w)
  ReadLoop-eof zero this w size got o h f e = absurd (omega arith)
  ReadLoop-eof (suc fuel) this w zero got o h f e = absurd (omega arith)
  ReadLoop-eof (suc fuel) this w (suc n) got o h f e = record {
    this' = this;
    error' = error_eof;
    w' = w;
    returns =
        read_all_loop_eof next fuel this (suc n) got w
        ∙ ap (λ b. some (b, this, error_eof, w))
            (rw (drop-all (V.pos this w) (V.contents this w) (omega arith)) (sym (append-nil got)));
    opened = o;
    same = refl;
    moved = omega arith;
    status = ground arith;
  }

  -- One round, and what the others come to.
  ReadLoop-more :
      (fuel : ℕ) (this : This) (w : World) (size : ℕ) (got : List ℕ)
      → V.IsOpen this w
      → 0 < size
      → size ≤ max_size
      → (s : ReadStep next V this w size) → (error : Error) → s.error' ≡ error
      → ReadLoop s.this' s.w'
          (size - s.count)
          (got ++ take s.count (drop (V.pos this w) (V.contents this w)))
          (read_all_loop next fuel s.this'
            (size - s.count)
            (got ++ take s.count (drop (V.pos this w) (V.contents this w)))
            error
            s.w')
      → ReadLoop this w size got (read_all_loop next (suc fuel) this size got error_ok w)
  ReadLoop-more fuel this w size got o pos_size h s error e l =
      rw
        (
          read_all_loop_round next fuel this size got w pos_size s.returns,
          size_left (drop (V.pos this w) (V.contents this w)) h s.within
              (omega (arith, s.in_file, length-drop (V.pos this w) (V.contents this w))),
          e,
        )
        (ReadLoop-step this w size got h o s l)

  read_all_loop_lem :
      (fuel : ℕ) (this : This) (w : World) (size : ℕ) (got : List ℕ)
      → V.IsOpen this w
      → size ≤ max_size
      → 2 * size + V.stall this w + 1 < fuel
      → ReadLoop this w size got (read_all_loop next fuel this size got error_ok w)
  read_all_loop_lem zero this w size got o h f = absurd (omega arith)
  read_all_loop_lem (suc fuel) this w zero got o h f = record {
    this' = this;
    error' = error_ok;
    w' = w;
    returns =
        read_all_loop_done next fuel this got error_ok w
        ∙ ap (λ b. some (b, this, error_ok, w)) (sym (append-nil got));
    opened = o;
    same = refl;
    moved = omega (arith, L.pos_in this w o);
    status = ground arith;
  }
  read_all_loop_lem (suc fuel) this w (suc n) got o h f =
      let s = L.reads this w (suc n) o (omega arith) h in
      let next_round = λ (error : Error) (e : s.error' ≡ error).
        ReadLoop-more fuel this w (suc n) got o (omega arith) h s error e in
      elim s.outcome [
        | inl (e, some_bytes) ↦ next_round error_ok e (
            read_all_loop_lem fuel s.this' s.w' (suc n - s.count) _ s.opened (omega arith)
              (omega (arith, L.stall_le s.this' s.w' s.opened)))
        | inr (inl (e, none_yet, less)) ↦ next_round error_ok e (
            read_all_loop_lem fuel s.this' s.w' (suc n - s.count) _ s.opened (omega arith)
              (omega arith))
        | inr (inr (e, nothing, at_end)) ↦ next_round error_eof e (
            ReadLoop-eof fuel s.this' s.w' (suc n - s.count) _ s.opened (omega arith) (omega arith)
              (omega (arith, s.moved, ap (length {0}) s.same)))
      ]

  -- All that a caller can observe of a read of `size` bytes: the bytes, the error, the new position.
  pub record AllRead (this : This) (w : World) (size : ℕ)
      (r : Option (List ℕ × This × Error × World)) : Type 0 where
    pub this' : This
    pub error' : Error
    pub w' : World
    pub returns : r ≡ some (take size (drop (V.pos this w) (V.contents this w)), this', error', w')
    pub opened : V.IsOpen this' w'
    pub same : V.contents this' w' ≡ V.contents this w
    pub moved : V.pos this' w' ≡ min (V.pos this w + size) (length (V.contents this w))
    pub status :
        error'
        ≡ (if V.pos this w == length (V.contents this w) && ltb 0 size then error_eof else error_ok)

  -- Over a file of bytes passThroughReadAll returns, with the next `size` bytes or all that are left,
  -- at the position after them, the contents unchanged. The error is EOF exactly if bytes were wanted
  -- and none were left, and OK otherwise.
  pub pass_through_read_all-AllRead :
      (this : This) (w : World) (size : ℕ)
      → V.IsOpen this w
      → size ≤ max_size
      → AllRead this w size (pass_through_read_all next this size error_ok w)
  unfolding pass_through_read_all
  pass_through_read_all-AllRead this w size o h =
      let l =
        read_all_loop_lem (2 * size + 3) this w size [] o h (omega (arith, L.stall_le this w o)) in
      let size_read = length-take size (drop (V.pos this w) (V.contents this w)) in
      record {
        this' = l.this';
        error' =
            if error_is_eof l.error'
              && ltb 0 (length (take size (drop (V.pos this w) (V.contents this w))))
            then error_ok
            else l.error';
        w' = l.w';
        returns = rw l.returns;
        opened = l.opened;
        same = l.same;
        moved = l.moved;
        status = ground (
          arith,
          l.status,
          size_read,
          length-drop (V.pos this w) (V.contents this w),
          L.pos_in this w o,
        );
      }
