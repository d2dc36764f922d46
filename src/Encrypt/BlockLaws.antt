-- ===== src/Encrypt/BlockLaws.antt =====
-- A full block that is written, sought and read.

use temp_files.Base.{
  ℕ, ◌+◌, ◌-◌, ◌*◌, ◌<◌, ◌≤◌, ◌≡◌, refl, sym, ◌∙◌, ap, false, ◌&&◌, some, List, [], ◌++◌, length,
  take, drop, splice, ltb, ◌==◌, if◌then◌else◌, arith, length-append, length-take, length-drop,
  length-splice, take-drop-splice, take-all, take-append_left, drop-append_right, sub_size,
  sub_size-eq, size_mod,
}
use temp_files.Common.Errors.{error_ok, error_eof}
use temp_files.Common.Filter.{Filter, size_min, file_end_position}
use temp_files.Common.ByteFile.{FileView, IsByteFile, max_size}
use temp_files.Common.PassThrough.{pass_through_write_all, pass_through_read_all}
use temp_files.Common.PassThrough.Writes.{pass_through_write_all-AllWritten}
use temp_files.Common.PassThrough.Reads.{pass_through_read_all-AllRead}
use temp_files.Encrypt.Library.{Libcrypto}
use temp_files.Encrypt.State.{AeadFilter}
use temp_files.Encrypt.Cipher.{Coded, aead_decrypt, decrypt_record, encrypt_record}
use temp_files.Encrypt.Aead.{Sealed, IsAead}
use temp_files.Encrypt.Blocks.{aead_filter_write, aead_filter_read, aead_filter_seek}
use temp_files.Encrypt.CipherLaws.{nonce_of, sealed, IsSealed, encrypt_record_lem, encrypt_returns}
use temp_files.Encrypt.Quiet.{IsQuiet, encrypt_record-Kept}
use temp_files.Encrypt.DecryptSteps.{record-Reaches, decrypt_returns}
use temp_files.Encrypt.DecryptLaws.{reached_accepts}
use temp_files.Encrypt.BlockSteps.{
  past_write, counted, advanced, write_returns, seek_returns, read_returns, take_full,
}

module _ {World : Type 0} (Next : Filter World) (E : Libcrypto World) (uninit : ℕ → List ℕ)
    (V : FileView Next) (L : IsByteFile Next V) (A : IsAead E) (Q : IsQuiet Next V E) where
  abbrev This : Type 0
  This = AeadFilter Next E

  abbrev Answer : Type 0
  Answer = Coded This World

  -- A filter that has its cipher, and a full block that it encrypts without padding.
  pub record IsBlock (this : This) (c : E.Cipher) (x : E.Context) (p : List ℕ) : Type 0 where
    pub has_cipher : this.cipher ≡ some c
    pub has_ctx : this.ctx ≡ some x
    pub full : length p ≡ this.plain_size
    pub positive : 0 < this.plain_size
    pub text : length (sealed Next E uninit A this c [] p).text ≡ this.plain_size
    pub tag : length (sealed Next E uninit A this c [] p).tag ≡ this.tag_size
    pub whole : this.encrypt_size ≡ this.plain_size + this.tag_size
    pub short : this.encrypt_size < size_mod

  -- The encrypted block.
  abbrev pub block_of : This → E.Cipher → List ℕ → List ℕ
  block_of this c p =
      (sealed Next E uninit A this c [] p).text ++ (sealed Next E uninit A this c [] p).tag

  block_size :
      (this : This) (c : E.Cipher) (x : E.Context) (p : List ℕ)
      → IsBlock this c x p
      → length (block_of this c p) ≡ this.encrypt_size
  block_size this c x p b =
      length-append (sealed Next E uninit A this c [] p).text
        (sealed Next E uninit A this c [] p).tag
      ∙ omega (arith, b.text, b.tag, b.whole)

  whole_block :
      (this : This) (p : List ℕ)
      → length p ≡ this.plain_size
      → take (size_min (length p) this.plain_size) p ≡ p
  unfolding size_min
  whole_block this p e =
      take-all (if ltb (length p) this.plain_size then length p else this.plain_size) p
        (ground arith)

  sealed_block :
      (this : This) (answer : Answer) (s : Sealed)
      → IsSealed Next E uninit A this answer s
      → take answer.size answer.bytes ++ answer.tag ≡ s.text ++ s.tag
  sealed_block this answer s o =
      ap (λ n. take n answer.bytes ++ answer.tag) o.size
      ∙ ap (λ b. take (length s.text) b ++ answer.tag) o.text
      ∙ ap (λ t. take (length s.text) s.text ++ t) o.tag
      ∙ ap (λ b. b ++ s.tag) (take-all (length s.text) s.text (omega arith))

  -- A full block is written at the position of the file below.
  write_lem :
      (this : This) (c : E.Cipher) (x : E.Context) (p : List ℕ) (w : World)
      → IsBlock this c x p
      → V.IsOpen this.next w
      → V.pos this.next w + this.encrypt_size ≤ max_size
      → (x' : E.Context) × (next : Next.This) × (w' : World) × (aead_filter_write Next E uninit this
            p error_ok w
          ≡ some (
            length p,
            past_write Next E uninit (record this { ctx = some x' }) next (length p),
            error_ok,
            w',
          ))
        × V.IsOpen next w'
        × (V.contents next w'
            ≡ splice (V.pos this.next w) (block_of this c p) (V.contents this.next w))
  write_lem this c x p w b o h =
      let room = sub_size this.encrypt_size this.tag_size in
      let room_size =
        sub_size-eq this.encrypt_size this.tag_size b.short (omega (arith, b.whole)) in
      let answer = encrypt_record Next E uninit this c x p [] room error_ok w in
      let s =
        encrypt_record_lem Next E uninit A this c x p [] room w
          (omega (arith, room_size, b.text, b.whole)) (sym b.tag) in
      let (o', bytes, pos) =
        Q.view_kept this.next w answer.world
          (encrypt_record-Kept Next V E uninit Q this c x p [] room w) o in
      let size = block_size this c x p b in
      let r =
        pass_through_write_all-AllWritten Next V L this.next answer.world (block_of this c p) o'
          (omega (arith, b.whole, b.positive)) (omega arith) in
      let written : pass_through_write_all Next answer.this.next
            (take answer.size answer.bytes ++ answer.tag) answer.error answer.world
          ≡ some (length (block_of this c p), r.this', error_ok, r.w') =
        ap
          (λ n.
            pass_through_write_all Next n (take answer.size answer.bytes ++ answer.tag) answer.error
              answer.world)
          (ap (λ t. t.next) s.kept)
        ∙ ap (λ d. pass_through_write_all Next this.next d answer.error answer.world)
            (sealed_block this answer (sealed Next E uninit A this c [] p) s)
        ∙ ap (λ e. pass_through_write_all Next this.next (block_of this c p) e answer.world)
            s.no_error
        ∙ r.returns in
      (
        s.ctx,
        r.this',
        r.w',
        write_returns Next E uninit this p w r.w' answer (length (block_of this c p)) r.this'
              (whole_block this p b.full)
              (encrypt_returns Next E uninit A this c x p [] room w b.has_cipher b.has_ctx) written
            ∙ ap
                (λ t.
                  some (length p, past_write Next E uninit t r.this' (length p), error_ok, r.w'))
                s.kept,
        r.opened,
        r.written
            ∙ ap (λ n. splice n (block_of this c p) (V.contents this.next answer.world)) pos
            ∙ ap (λ d. splice (V.pos this.next w) (block_of this c p) d) bytes,
      )

  not_at_end :
      (n pos : ℕ) (contents block : List ℕ)
      → take n (drop pos contents) ≡ block
      → 0 < length block
      → (pos == length contents) ≡ false
  not_at_end n pos contents block e h =
      let size = ap (length {0}) e in
      let part = length-take n (drop pos contents) in
      let rest = length-drop pos contents in
      let before : pos < length contents = omega arith in ground arith

  -- The block is read from where it stands.
  read_lem :
      (this : This) (c : E.Cipher) (x : E.Context) (p : List ℕ) (size : ℕ) (w : World)
      → IsBlock this c x p
      → V.IsOpen this.next w
      → this.plain_size ≤ size
      → this.encrypt_size ≤ max_size
      → take this.encrypt_size (drop (V.pos this.next w) (V.contents this.next w))
        ≡ block_of this c p
      → (this' : This) × (w' : World) × (aead_filter_read Next E uninit this size error_ok w
          ≡ some (p, this', error_ok, w'))
  read_lem this c x p size w b o le bound there =
      let text = (sealed Next E uninit A this c [] p).text in
      let tag = (sealed Next E uninit A this c [] p).tag in
      let total = block_size this c x p b in
      let r = pass_through_read_all-AllRead Next V L this.next w this.encrypt_size o bound in
      let inside =
        not_at_end this.encrypt_size (V.pos this.next w) (V.contents this.next w)
          (block_of this c p) there (omega (arith, b.whole, b.positive)) in
      let no_error : r.error' ≡ error_ok =
        r.status ∙ ap (λ t. if t && ltb 0 this.encrypt_size then error_eof else error_ok) inside in
      let got : pass_through_read_all Next this.next this.encrypt_size error_ok w
          ≡ some (block_of this c p, r.this', error_ok, r.w') =
        r.returns
        ∙ ap (λ d. some (d, r.this', r.error', r.w')) there
        ∙ ap (λ e. some (block_of this c p, r.this', e, r.w')) no_error in
      let text_size : length (block_of this c p) - this.tag_size ≡ length text =
        omega (arith, b.whole, b.text) in
      let is_text : take (length (block_of this c p) - this.tag_size) (block_of this c p) ≡ text =
        ap (λ n. take n (block_of this c p)) text_size
        ∙ take-append_left (length text) text tag (omega arith)
        ∙ take-all (length text) text (omega arith) in
      let is_tag : drop (length (block_of this c p) - this.tag_size) (block_of this c p) ≡ tag =
        ap (λ n. drop n (block_of this c p)) text_size
        ∙ drop-append_right (length text) 0 text tag (omega arith) in
      let that : This = record this { next = r.this' } in
      let answer = decrypt_record Next E uninit that c x text [] tag size error_ok r.w' in
      let opened =
        reached_accepts Next E uninit A that c [] p (record { text = text; tag = tag }) answer
          (record-Reaches Next E uninit A that c x [] text tag size r.w' (sym b.tag)
            (A.seal_tag c this.key (nonce_of Next E uninit A this) [] p).0
            (A.seal_tag c this.key (nonce_of Next E uninit A this) [] p).1 (omega (arith, b.text)))
          (A.unseal-seal c this.key (nonce_of Next E uninit A this) [] p) in
      let decrypted : aead_decrypt Next E uninit that
            (take (length (block_of this c p) - this.tag_size) (block_of this c p)) []
            (drop (length (block_of this c p) - this.tag_size) (block_of this c p)) size error_ok
            r.w'
          ≡ some answer =
        ap
          (λ t.
            aead_decrypt Next E uninit that t []
              (drop (length (block_of this c p) - this.tag_size) (block_of this c p)) size error_ok
              r.w')
          is_text
        ∙ ap (λ t. aead_decrypt Next E uninit that text [] t size error_ok r.w') is_tag
        ∙ decrypt_returns Next E uninit A that c x [] text tag size r.w' b.has_cipher b.has_ctx in
      let plain : take answer.size (answer.bytes ++ drop (length answer.bytes) (uninit size)) ≡ p =
        ap (λ n. take n (answer.bytes ++ drop (length answer.bytes) (uninit size))) opened.size
        ∙ ap (λ d. take (length p) (d ++ drop (length d) (uninit size))) opened.text
        ∙ take-append_left (length p) p (drop (length p) (uninit size)) (omega arith)
        ∙ take-all (length p) p (omega arith) in
      (
        advanced Next E uninit (counted Next E uninit answer.this (length p)) (length p),
        answer.world,
        read_returns Next E uninit this size (block_of this c p) p w r.w' r.this' answer got
              (omega (arith, b.whole)) decrypted opened.no_error plain
            ∙ take_full Next E uninit answer.this p answer.world
                (b.full ∙ sym (ap (λ t. t.plain_size) opened.kept))
                (omega (arith, b.full, b.positive)),
      )

  past_end :
      (n pos : ℕ) (block contents : List ℕ)
      → pos ≤ length contents
      → n ≡ length block
      → pos ≤ length (splice pos block contents)
  past_end n pos block contents h e = omega (arith, length-splice pos block contents h)

  -- Over a file of bytes that stands at the filter's block, with a cipher that keeps its promises
  -- and leaves files alone, aead_filter_write of a full block that is encrypted without padding
  -- takes all of it, without an error, as long as the file stays in its bounds. Then
  -- aead_filter_seek to the start of the block, at a position below the value that stands for the
  -- end, and aead_filter_read of at least a block return the position and the block, without an
  -- error.
  pub aead_filter_read-aead_filter_write :
      (this : This) (c : E.Cipher) (x : E.Context) (p : List ℕ) (size : ℕ) (w : World)
      → IsBlock this c x p
      → V.IsOpen this.next w
      → V.pos this.next w ≡ this.header_size + this.block_nr * this.encrypt_size
      → V.pos this.next w + this.encrypt_size ≤ max_size
      → this.block_nr * this.plain_size < file_end_position
      → this.plain_size ≤ size
      → (this1 : This) × (this2 : This) × (this3 : This) × (w1 : World) × (w2 : World)
        × (w3 : World) × (aead_filter_write Next E uninit this p error_ok w
            ≡ some (length p, this1, error_ok, w1))
        × (aead_filter_seek Next E uninit this1 (this.block_nr * this.plain_size) error_ok w1
            ≡ some (this.block_nr * this.plain_size, this2, error_ok, w2))
        × (aead_filter_read Next E uninit this2 size error_ok w2 ≡ some (p, this3, error_ok, w3))
  aead_filter_read-aead_filter_write this c x p size w b o at h in_range le =
      let (x', next1, w1, e1, o1, bytes1) = write_lem this c x p w b o h in
      let this1 : This =
        past_write Next E uninit (record this { ctx = some x' }) next1 (length p) in
      let start = V.pos this.next w in
      let room =
        past_end this.encrypt_size start (block_of this c p) (V.contents this.next w)
          (L.pos_in this.next w o) (sym (block_size this c x p b)) in
      let s =
        L.seeks next1 w1 (this.header_size + this.block_nr * this.encrypt_size) o1
          (omega (arith, ap (length {0}) bytes1)) in
      let e2 =
        seek_returns Next E uninit this1 this.block_nr w1 s.w'
          (this.header_size + this.block_nr * this.encrypt_size) s.this' b.positive in_range
          (omega arith) s.returns in
      let this2 : This = record this1 {
        next = s.this';
        block_nr = this.block_nr;
        position = this.block_nr * this.plain_size;
      } in
      let b2 : IsBlock this2 c x' p = record {
        has_cipher = b.has_cipher;
        has_ctx = refl;
        full = b.full;
        positive = b.positive;
        text = b.text;
        tag = b.tag;
        whole = b.whole;
        short = b.short;
      } in
      let there : take this.encrypt_size (drop (V.pos s.this' s.w') (V.contents s.this' s.w'))
          ≡ block_of this c p =
        ap (λ n. take this.encrypt_size (drop n (V.contents s.this' s.w'))) (s.moved ∙ sym at)
        ∙ ap (λ d. take this.encrypt_size (drop start d)) (s.same ∙ bytes1)
        ∙ take-drop-splice start this.encrypt_size (block_of this c p) (V.contents this.next w)
            (L.pos_in this.next w o) (sym (block_size this c x p b)) in
      let (this3, w3, e3) = read_lem this2 c x' p size s.w' b2 s.opened le (omega arith) there in
      (this1, this2, this3, w1, s.w', w3, e1, e2, e3)
