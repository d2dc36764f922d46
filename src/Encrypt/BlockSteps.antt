-- ===== src/Encrypt/BlockSteps.antt =====
-- What the calls of the encryption filter return, from what the calls in them return.
use native.Mathlib.Nat.{mul-div_cancel, mul-mod_left}
use temp_files.Base.{
  ℕ, ◌+◌, ◌-◌, ◌*◌, ◌%◌, ◌<◌, ◌≤◌, ◌≡◌, refl, ◌∙◌, ap, false, some, List, [], ◌++◌, length, take,
  drop, ltb, ◌==◌, if◌then◌else◌, arith, add_size, add_size-eq, sub_size, size_mod,
}
use temp_files.Common.Errors.{error_ok, is_error, error_is_ok}
use temp_files.Common.Filter.{Filter, size_min, size_max, file_end_position}
use temp_files.Common.PassThrough.{pass_through_write_all, pass_through_read_all}
use temp_files.Encrypt.Library.{Libcrypto}
use temp_files.Encrypt.State.{AeadFilter}
use temp_files.Encrypt.Cipher.{Coded, aead_encrypt, aead_decrypt}
use temp_files.Encrypt.Blocks.{
  after_block, probe_end, take_block, aead_filter_write, aead_filter_read, seek_plain,
  aead_filter_seek,
}

module _ {World : Type 0} (Next : Filter World) (E : Libcrypto World) (uninit : ℕ → List ℕ) where
  abbrev This : Type 0
  This = AeadFilter Next E

  abbrev Answer : Type 0
  Answer = Coded This World

  -- The filter after it has written a block of `n` bytes.
  abbrev pub past_write : This → Next.This → ℕ → This
  past_write this next n = record this {
    next = next;
    position = add_size this.position n;
    max_write_position = size_max this.max_write_position (add_size this.position n);
    block_nr = add_size this.block_nr 1;
  }

  pub write_returns :
      (this : This) (p : List ℕ) (w w2 : World) (answer : Answer) (total : ℕ) (next : Next.This)
      → take (size_min (length p) this.plain_size) p ≡ p
      → aead_encrypt Next E uninit this p [] (sub_size this.encrypt_size this.tag_size) error_ok w
        ≡ some answer
      → pass_through_write_all Next answer.this.next
          (take answer.size answer.bytes ++ answer.tag)
          answer.error
          answer.world
        ≡ some (total, next, error_ok, w2)
      → aead_filter_write Next E uninit this p error_ok w
        ≡ some (length p, past_write answer.this next (length p), error_ok, w2)
  unfolding aead_filter_write is_error error_is_ok
  write_returns this p w w2 answer total next whole e f = rw (whole, e, f) refl

  pub seek_returns :
      (this : This) (k : ℕ) (w w' : World) (there : ℕ) (next : Next.This)
      → 0 < this.plain_size
      → k * this.plain_size < file_end_position
      → this.header_size + k * this.encrypt_size < size_mod
      → Next.fn_seek this.next (this.header_size + k * this.encrypt_size) error_ok w
        ≡ some (there, next, error_ok, w')
      → aead_filter_seek Next E uninit this (k * this.plain_size) error_ok w
        ≡ some (
          k * this.plain_size,
          record this { next = next; block_nr = k; position = k * this.plain_size },
          error_ok,
          w',
        )
  unfolding aead_filter_seek seek_plain
  seek_returns this k w w' there next positive in_range fits e =
      let not_end : (k * this.plain_size == file_end_position) ≡ false = ground arith in
      let nonzero : (this.plain_size == 0) ≡ false = ground arith in
      let quotient = mul-div_cancel k positive in
      let remainder = mul-mod_left k this.plain_size in
      let product : k * this.encrypt_size % size_mod ≡ k * this.encrypt_size = omega arith in
      let there_position = add_size-eq this.header_size (k * this.encrypt_size) fits in
      let back : add_size (k * this.plain_size) 0 ≡ k * this.plain_size =
        add_size-eq (k * this.plain_size) 0 (omega arith) ∙ omega arith in
      rw (not_end, nonzero, remainder, quotient, product, there_position, e, back) refl

  pub read_returns :
      (this : This) (size : ℕ) (block p : List ℕ) (w w1 : World) (next : Next.This)
      (answer : Answer)
      → pass_through_read_all Next this.next this.encrypt_size error_ok w
        ≡ some (block, next, error_ok, w1)
      → this.tag_size ≤ length block
      → aead_decrypt Next E uninit
          (record this { next = next })
          (take (length block - this.tag_size) block)
          []
          (drop (length block - this.tag_size) block)
          size
          error_ok
          w1
        ≡ some answer
      → answer.error ≡ error_ok
      → take answer.size (answer.bytes ++ drop (length answer.bytes) (uninit size)) ≡ p
      → aead_filter_read Next E uninit this size error_ok w
        ≡ take_block Next E uninit answer.this p error_ok answer.world
  unfolding aead_filter_read is_error error_is_ok
  read_returns this size block p w w1 next answer e h d ok whole =
      let enough : ltb (length block) this.tag_size ≡ false = ground arith in
      rw (e, enough, d, ok, whole) refl

  -- The filter after it has taken a full block from its file.
  abbrev pub counted : This → ℕ → This
  counted this n = record this {
    position = add_size this.position n;
    max_read_position = size_max this.max_read_position (add_size this.position n);
  }

  abbrev pub advanced : This → ℕ → This
  advanced this n = record this {
    max_read_position =
        size_max this.max_read_position (add_size (this.block_nr * this.plain_size % size_mod) n);
    block_nr = if n == this.plain_size then add_size this.block_nr 1 else this.block_nr;
  }

  advance_returns :
      (this : This) (p : List ℕ) (w : World)
      → 0 < length p
      → after_block Next E uninit this p error_ok w
        ≡ some (p, advanced this (length p), error_ok, w)
  unfolding after_block
  advance_returns this p w positive =
      let not_empty : (length p == 0) ≡ false = ground arith in rw not_empty refl

  pub take_full :
      (this : This) (p : List ℕ) (w : World)
      → length p ≡ this.plain_size
      → 0 < length p
      → take_block Next E uninit this p error_ok w
        ≡ some (p, advanced (counted this (length p)) (length p), error_ok, w)
  unfolding take_block
  take_full this p w full positive =
      let not_partial : ltb (length p) this.plain_size ≡ false = ground arith in
      ap
        (λ b.
          if b
          then probe_end Next E uninit
              (record (counted this (length p)) { file_size = add_size this.position (length p) }) p
              error_ok w
          else after_block Next E uninit (counted this (length p)) p error_ok w)
        not_partial
      ∙ advance_returns (counted this (length p)) p w positive
