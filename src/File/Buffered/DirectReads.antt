-- ===== src/File/Buffered/DirectReads.antt =====
-- directRead: whole blocks go to the caller, and a partial block at the end of the file is kept in
-- the buffer.
use temp_files.Base.{
  ℕ, ◌+◌, ◌-◌, ◌%◌, ◌≤◌, ◌<◌, ◌≡◌, ◌≢◌, ◌⊎◌, inl, inr, refl, sym, ◌∙◌, ap, min, max, false, ◌&&◌,
  Option, some, List, length, take, drop, splice, ltb, ◌==◌, if◌then◌else◌, add_size, add_size-eq,
  arith, length-take, length-drop, length-splice, take-drop-splice, mod-sub_mod, mod-add,
  sub-mod_ge, mod-gap, take-drop-take, Bool-cases, take-all, take-take, drop-drop,
}
use temp_files.Common.Errors.{Error, error_ok, error_eof}
use temp_files.Common.Filter.{Filter, size_round_down}
use temp_files.Common.ByteFile.{FileView, IsByteFile, max_size}
use temp_files.Common.PassThrough.{pass_through_read_all}
use temp_files.Common.PassThrough.Reads.{AllRead, pass_through_read_all-AllRead}
use temp_files.File.Buffered.State.{Buffered}
use temp_files.File.Buffered.Buffer.{copy_in}
use native.Mathlib.Nat.{mod-lt, mod-le, le_refl}
use mathlib.Core.Path.{subst}
use native.Mathlib.Decide.{ℕ_discrete}
use temp_files.File.Buffered.Reading.{direct_read}
use temp_files.File.Buffered.View.{contents_of, IsBuffered}
use temp_files.File.Buffered.Refill.{empty_clean}
use temp_files.File.Buffered.CopyIn.{copy_in_lem}
use temp_files.File.Buffered.CopyOut.{ReadAs}

module _ {World : Type 0} (Next : Filter World) (V : FileView Next) (L : IsByteFile Next V) where
  -- How a direct read ends: with bytes, with a partial block in the buffer, or at the end of file.
  abbrev pub DirectOutcome : Buffered Next → World → ℕ → Buffered Next → Error → Type 0
  DirectOutcome this w count this' error' =
      ((error' ≡ error_ok) × (0 < count))
      ⊎ ((error' ≡ error_ok) × (0 < this'.buf_actual) × (this'.buf_actual < this'.block_size))
      ⊎ ((error' ≡ error_eof) × (count ≡ 0) × (this.position ≡ length (contents_of Next V this w)))

  module _ (this : Buffered Next) (w : World) (size : ℕ) (h : IsBuffered Next V this w)
      (n : this.buf_actual ≡ 0) (start : this.position ≡ this.buf_position)
      (big : this.block_size < size) (fits : size ≤ max_size) where
    abbrev c : List ℕ
    c = V.contents this.next w

    abbrev wanted : ℕ
    wanted = size_round_down size this.block_size

    -- What is read below, in whole blocks and in part.
    abbrev bytes : List ℕ
    bytes = take wanted (drop this.position c)

    abbrev part : ℕ
    part = length bytes % this.block_size

    abbrev whole : ℕ
    whole = length bytes - part

    clean : (this.dirty ≡ false) × (V.pos this.next w ≡ this.position)
    clean = let (d, at) = empty_clean Next V L h n in (d, omega (arith, start))

    contents-clean : contents_of Next V this w ≡ c
    contents-clean = rw clean.0

    record Facts : Type 0 where
      wanted_whole : wanted % this.block_size ≡ 0
      wanted_ge : this.block_size ≤ wanted
      wanted_le : wanted ≤ size
      in_c : this.position ≤ length c
      c_le : length c ≤ max_size
      size_bytes : length bytes ≡ min wanted (length c - this.position)
      part_lt : part < this.block_size
      part_le : part ≤ length bytes
      whole_blocks : whole % this.block_size ≡ 0
      part_last : part ≢ 0 → length bytes < wanted

    facts : Facts
    unfolding size_round_down
    facts =
        let size_bytes : length bytes ≡ min wanted (length c - this.position) =
          omega (arith, length-take wanted (drop this.position c), length-drop this.position c) in
        let len = ap (length {0}) contents-clean in
        record {
          wanted_whole = mod-sub_mod size this.block_size h.block_pos;
          wanted_ge = sub-mod_ge size this.block_size h.block_pos (omega arith);
          wanted_le = omega arith;
          in_c = omega (arith, h.in_file, len);
          c_le = omega (arith, h.short, len);
          size_bytes = size_bytes;
          part_lt = mod-lt (length bytes) h.block_pos;
          part_le = mod-le (length bytes) this.block_size;
          whole_blocks = mod-sub_mod (length bytes) this.block_size h.block_pos;
          part_last = λ ne.
              mod-gap wanted this.block_size (length bytes) h.block_pos
                (mod-sub_mod size this.block_size h.block_pos) (omega arith) ne;
        }

    -- What the caller gets, in terms of the contents.
    taken_bytes : take whole bytes ≡ take whole (drop this.position (contents_of Next V this w))
    taken_bytes =
        let f = facts in
        rw contents-clean
          (take-take whole wanted (drop this.position c) (omega (arith, f.size_bytes, f.part_le)))

    read_below :
        AllRead Next V L this.next w wanted (pass_through_read_all Next this.next wanted error_ok w)
    read_below =
        let f = facts in
        pass_through_read_all-AllRead Next V L this.next w wanted h.below
          (omega (arith, f.wanted_le))

    module _
        (rd : AllRead Next V L this.next w wanted
          (pass_through_read_all Next this.next wanted error_ok w)) where
      pos_below : V.pos rd.this' rd.w' ≡ this.position + length bytes
      pos_below = let f = facts in omega (arith, rd.moved, f.size_bytes, f.in_c, clean.1)

      status_below :
          rd.error' ≡ (if this.position == length c && ltb 0 wanted then error_eof else error_ok)
      status_below = rw (← clean.1) rd.status

      -- After the claw-back of `n'` bytes into a buffer `buf'`.
      abbrev after : List ℕ → ℕ → ℕ → Buffered Next
      after buf' n' file_size' = record this {
        next = rd.this';
        buf = buf';
        buf_actual = n';
        position = this.position + whole;
        buf_position = this.position + whole;
        file_size = file_size';
      }

      after-IsBuffered :
          (buf' : List ℕ) (file_size' : ℕ)
          → length buf' ≡ this.block_size
          → take part buf' ≡ take part (drop (this.position + whole) c)
          → IsBuffered Next V (after buf' part file_size') rd.w'
      after-IsBuffered buf' file_size' size same =
          let f = facts in
          let len : length (contents_of Next V (after buf' part file_size') rd.w') ≡ length c =
            rw clean.0 (ap (length {0}) rd.same) in
          record {
            below = rd.opened;
            block_pos = h.block_pos;
            block_le = h.block_le;
            buf_size = size;
            aligned =
                mod-add this.position whole this.block_size (rw start h.aligned) f.whole_blocks;
            filled = omega (arith, f.part_lt);
            behind = le_refl _;
            in_block = ground (arith, h.block_pos);
            in_file = omega (arith, len, f.size_bytes, f.part_le, f.in_c);
            short = omega (arith, len, f.c_le);
            whole = elim (ℕ_discrete part 0) [
              | yes e ↦ inl e
              | no ne ↦ inr (inr (omega (arith, len, f.size_bytes, f.part_le, f.part_last ne)))
            ];
            reads_below = h.reads_below;
            state = inr (clean.0, omega (arith, pos_below, f.part_le), rw rd.same same);
          }

      after_outcome :
          (buf' : List ℕ) (file_size' : ℕ) (error' : Error)
          → error' ≡ rd.error'
          → DirectOutcome this w whole (after buf' part file_size') error'
      after_outcome buf' file_size' error' e =
          let f = facts in
          ground (
            arith,
            status_below,
            e,
            h.block_pos,
            f.wanted_ge,
            f.size_bytes,
            f.part_le,
            f.part_lt,
            f.in_c,
            ap (length {0}) contents-clean,
          )

      after-ReadAs :
          (buf' : List ℕ) (file_size' : ℕ)
          → length buf' ≡ this.block_size
          → take part buf' ≡ take part (drop (this.position + whole) c)
          → {r : Option (List ℕ × Buffered Next × Error × World)}
          → r ≡ some (take whole bytes, after buf' part file_size', rd.error', rd.w')
          → ReadAs Next V L this w size whole r
      after-ReadAs buf' file_size' sized same e =
          let f = facts in
          let len = ap (length {0}) contents-clean in
          record {
            this' = after buf' part file_size';
            error' = rd.error';
            w' = rd.w';
            returns =
                e ∙ ap (λ b. some (b, after buf' part file_size', rd.error', rd.w')) taken_bytes;
            within = omega (arith, f.size_bytes, f.wanted_le);
            in_file = omega (arith, len, f.size_bytes, f.in_c);
            holds = after-IsBuffered buf' file_size' sized same;
            same = rw clean.0 rd.same;
            moved = refl;
          }

      -- The bytes clawed back are those behind the blocks.
      clawed_same :
          take part (splice 0 (drop whole bytes) this.buf)
          ≡ take part (drop (this.position + whole) c)
      clawed_same =
          let f = facts in
          take-drop-splice 0 part (drop whole bytes) this.buf (omega arith)
            (omega (arith, length-drop whole bytes, f.part_le))
          ∙ sym
              (take-all part (drop whole bytes) (omega (arith, length-drop whole bytes, f.part_le)))
          ∙ take-drop-take part whole wanted (drop this.position c)
              (omega (arith, f.size_bytes, f.part_le))
          ∙ ap (take part) (drop-drop this.position whole (this.position + whole) c refl)

      -- copyIn of the partial block fills an empty buffer from its start.
      claw_back :
          copy_in Next (record this { next = rd.this' }) (drop whole bytes)
          ≡ some (
            part,
            record this {
              next = rd.this';
              buf = splice 0 (drop whole bytes) this.buf;
              buf_actual = part;
            },
          )
      claw_back =
          let f = facts in
          let x = drop whole bytes in
          let below = record this { next = rd.this' } in
          let size : length x ≡ part = omega (arith, length-drop whole bytes, f.part_le) in
          let offset : this.position - this.buf_position ≡ 0 = omega arith in
          let k : min (this.block_size - 0) (length x) ≡ part = omega (arith, f.part_lt) in
          let m : max this.buf_actual (part + 0) ≡ part = omega arith in
          copy_in_lem Next below x (omega arith) (omega arith) (omega (arith, f.in_c, f.c_le))
            h.block_le h.filled
          ∙ rw (offset, k, m, take-all part x (omega arith))

      no_part : ltb 0 part ≡ false → part ≡ 0
      no_part e = ground arith

      direct_read-returns :
          (fs : ℕ) × (buf' : List ℕ) × (length buf' ≡ this.block_size)
          × (take part buf' ≡ take part (drop (this.position + whole) c))
          × (direct_read Next this size error_ok w
              ≡ some (take whole bytes, after buf' part fs, rd.error', rd.w'))
      unfolding direct_read
      direct_read-returns =
          let f = facts in
          let p' : add_size this.position whole ≡ this.position + whole =
            add_size-eq this.position whole (omega (arith, f.size_bytes, f.in_c, f.c_le)) in
          let q' : add_size this.buf_position whole ≡ this.position + whole =
            ap (λ k. add_size k whole) (sym start) ∙ p' in
          let got : pass_through_read_all Next this.next wanted error_ok w
              ≡ some (bytes, rd.this', rd.error', rd.w') =
            rw clean.1 at rd.returns in
          elim (Bool-cases (ltb 0 part)) [
            | inl some_part ↦ (
              add_size (this.position + whole) (length bytes),
              splice 0 (drop whole bytes) this.buf,
              omega (
                arith,
                length-splice 0 (drop whole bytes) this.buf,
                length-drop whole bytes,
                f.part_lt,
                f.part_le,
                h.buf_size,
              ),
              clawed_same,
              rw (got, some_part, claw_back, p', q'),
            )
            | inr none_left ↦ (
              this.file_size,
              this.buf,
              h.buf_size,
              subst (λ k. take k this.buf ≡ take k (drop (this.position + whole) c))
                  (sym (no_part none_left)) refl,
              rw (got, none_left, p', q')
                  (ap
                    (λ k.
                      some (take whole bytes, after this.buf k this.file_size, rd.error', rd.w'))
                    (n ∙ sym (no_part none_left))),
            )
          ]

    -- A direct read of more than a block returns whole blocks from the position on.
    pub direct_read-ReadAs :
        (r : ReadAs Next V L this w size whole (direct_read Next this size error_ok w))
        × DirectOutcome this w whole r.this' r.error'
        × (r.this'.block_size ≡ this.block_size)
        × (r.this'.buf_position ≡ r.this'.position)
        × (r.this'.buf_actual < this.block_size)
    unfolding after-ReadAs read_below size_round_down
    direct_read-ReadAs =
        let (fs, buf', sized, same, e) = direct_read-returns read_below in
        (
          after-ReadAs read_below buf' fs sized same e,
          after_outcome read_below buf' fs read_below.error' refl,
          refl,
          refl,
          facts.part_lt,
        )
