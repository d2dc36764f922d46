-- ===== src/Encrypt/DecryptLaws.antt =====
-- Decrypting what is authentic, and what is not.

use temp_files.Base.{
  ℕ, ◌-◌, ◌≤◌, ◌≡◌, sym, ◌∙◌, ap, false, not, ◌==◌, if◌then◌else◌, some, List, [], ◌++◌, length,
  arith, length-append,
}
use temp_files.Common.Errors.{error_ok, is_error}
use temp_files.Common.Filter.{Filter}
use temp_files.Encrypt.Library.{Libcrypto}
use temp_files.Encrypt.Nonce.{generate_nonce}
use temp_files.Encrypt.State.{AeadFilter}
use temp_files.Encrypt.Cipher.{
  Coded, decrypt_finalised, decrypt_final, decrypt_record, aead_decrypt, aead_encrypt,
}
use temp_files.Encrypt.Aead.{Sealed, IsAead}
use temp_files.Encrypt.CipherLaws.{nonce_of, sealed, IsSealed, aead_encrypt-IsSealed}
use temp_files.Encrypt.DecryptSteps.{Reaches, record-Reaches, decrypt_returns, finalised-ok}

module _ {World : Type 0} (Next : Filter World) (E : Libcrypto World) (uninit : ℕ → List ℕ)
    (A : IsAead E) where
  abbrev This : Type 0
  This = AeadFilter Next E

  abbrev Answer : Type 0
  Answer = Coded This World

  abbrev nonce : This → List ℕ
  nonce this = nonce_of Next E uninit A this

  -- A decryption that gives a text, without an error; of the filter only the context is new.
  pub record IsOpened (this : This) (answer : Answer) (p : List ℕ) : Type 0 where
    pub text : answer.bytes ≡ p
    pub size : answer.size ≡ length p
    pub no_error : answer.error ≡ error_ok
    pub ctx : E.Context
    pub kept : answer.this ≡ record this { ctx = some ctx }

  pub reached_accepts :
      (this : This) (c : E.Cipher) (h p : List ℕ) (s : Sealed) (answer : Answer)
      → Reaches Next E uninit A this c h s answer
      → A.unseal c this.key (nonce this) h s ≡ some p
      → IsOpened this answer p
  unfolding decrypt_final
  reached_accepts this c h p s answer r good =
      let (o, e, ok, size, whole) =
        A.decrypt_final r.ctx c this.key (nonce this) h p r.out s (r.room - length r.out) r.world
          r.decrypted good in
      let returns =
        r.comes
        ∙ ap (decrypt_finalised Next E uninit this (length r.out) r.out error_ok) e
        ∙ finalised-ok Next E uninit A this (length r.out) r.out o ok in
      record {
        text = ap (λ a. a.bytes) returns ∙ whole;
        size =
            ap (λ a. a.size) returns
            ∙ omega (arith, ap (length {0}) whole, length-append r.out o.bytes);
        no_error = ap (λ a. a.error) returns;
        ctx = o.context;
        kept = ap (λ a. a.this) returns;
      }

  -- A decryption that comes to the finalisation of a record that is not authentic, and the finalisation
  -- fails. `code` is what ERR_get_error gives then; the text that was decrypted is held back, with an
  -- error, if and only if it is not 0.
  pub record IsRefused (this : This) (c : E.Cipher) (h : List ℕ) (s : Sealed) (answer : Answer)
      : Type 0 where
    pub ctx : E.Context
    pub room : ℕ
    pub out : List ℕ
    pub world : World
    pub decrypted : A.Decrypted ctx c this.key (nonce this) h s out
    pub refused : (E.cipher_final ctx room world).ok ≡ false
    pub code : ℕ
    pub queued : (E.err_get_error (E.cipher_final ctx room world).world).0 ≡ code
    pub error : is_error answer.error ≡ not (code == 0)
    pub bytes :
        answer.bytes ≡ (if code == 0 then out ++ (E.cipher_final ctx room world).bytes else [])

  same_nonce :
      (this that : This)
      → that.iv ≡ this.iv
      → that.iv_size ≡ this.iv_size
      → that.block_nr ≡ this.block_nr
      → nonce that ≡ nonce this
  same_nonce this that iv iv_size block_nr =
      ap (λ v. generate_nonce (uninit E.max_iv_length) v that.iv_size that.block_nr) iv
      ∙ ap (λ n. generate_nonce (uninit E.max_iv_length) this.iv n that.block_nr) iv_size
      ∙ ap (λ n. generate_nonce (uninit E.max_iv_length) this.iv this.iv_size n) block_nr

  sealed_answer :
      (this : This) (answer : Answer) (s : Sealed)
      → IsSealed Next E uninit A this answer s
      → record { text = answer.bytes; tag = answer.tag } ≡ s
  sealed_answer this answer s o =
      ap (λ t. record { text = t; tag = answer.tag }) o.text
      ∙ ap (λ t. record { text = s.text; tag = t }) o.tag

  -- With a cipher that keeps its promises, aead_decrypt returns, without an error, the text that
  -- aead_encrypt was given, where both have the same header, key, initialization vector, block number,
  -- cipher and tag size, there is room for the encrypted text in both, and neither had an error before.
  pub aead_decrypt-aead_encrypt :
      (this that : This) (c : E.Cipher) (x y : E.Context) (p h : List ℕ) (room room2 : ℕ)
      (w w2 : World)
      → this.cipher ≡ some c
      → this.ctx ≡ some x
      → that.cipher ≡ some c
      → that.ctx ≡ some y
      → that.key ≡ this.key
      → that.iv ≡ this.iv
      → that.iv_size ≡ this.iv_size
      → that.block_nr ≡ this.block_nr
      → that.tag_size ≡ this.tag_size
      → length (sealed Next E uninit A this c h p).text ≤ room
      → length (sealed Next E uninit A this c h p).text ≤ room2
      → this.tag_size ≡ length (sealed Next E uninit A this c h p).tag
      → (answer : Answer) × (answer2 : Answer) × (aead_encrypt Next E uninit this p h room error_ok
            w
          ≡ some answer)
        × (answer.error ≡ error_ok)
        × (aead_decrypt Next E uninit that answer.bytes h answer.tag room2 error_ok w2
            ≡ some answer2)
        × IsOpened that answer2 p
  aead_decrypt-aead_encrypt this that c x y p h room room2 w w2 has_cipher has_ctx has_cipher2
        has_ctx2 key iv iv_size block_nr tag_size fits fits2 t =
      let (answer, e, s) =
        aead_encrypt-IsSealed Next E uninit A this c x p h room w has_cipher has_ctx fits t in
      let good : A.unseal c that.key (nonce that) h
            (record { text = answer.bytes; tag = answer.tag })
          ≡ some p =
        ap (λ s'. A.unseal c that.key (nonce that) h s')
          (sealed_answer this answer (sealed Next E uninit A this c h p) s)
        ∙ ap (λ k. A.unseal c k (nonce that) h (sealed Next E uninit A this c h p)) key
        ∙ ap (λ n. A.unseal c this.key n h (sealed Next E uninit A this c h p))
            (same_nonce this that iv iv_size block_nr)
        ∙ A.unseal-seal c this.key (nonce this) h p in
      let (some_tag, short) = A.seal_tag c this.key (nonce this) h p in
      let same_tag = ap (length {0}) s.tag in
      (
        answer,
        decrypt_record Next E uninit that c y answer.bytes h answer.tag room2 error_ok w2,
        e,
        s.no_error,
        decrypt_returns Next E uninit A that c y h answer.bytes answer.tag room2 w2 has_cipher2
            has_ctx2,
        reached_accepts that c h p (record { text = answer.bytes; tag = answer.tag })
            (decrypt_record Next E uninit that c y answer.bytes h answer.tag room2 error_ok w2)
            (record-Reaches Next E uninit A that c y h answer.bytes answer.tag room2 w2
              (tag_size ∙ t ∙ ap (length {0}) (sym s.tag)) (omega (arith, some_tag, same_tag))
              (omega (arith, short, same_tag)) (omega (arith, ap (length {0}) s.text)))
            good,
      )
