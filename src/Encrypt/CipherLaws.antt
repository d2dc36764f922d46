-- ===== src/Encrypt/CipherLaws.antt =====
-- Encrypting and decrypting one record.
use mathlib.Core.Path.{subst}
use temp_files.Base.{
  ℕ, ◌+◌, ◌-◌, ◌≤◌, ◌≡◌, refl, sym, ◌∙◌, ap, true, some, List, [], ◌∷◌, ◌++◌, length, ltb,
  if◌then◌else◌, arith, length-append,
}
use temp_files.Base.OptionMonad.{◌>>=◌}
use temp_files.Common.Errors.{error_ok}
use temp_files.Common.Filter.{Filter}
use temp_files.Encrypt.Library.{Libcrypto, Output}
use temp_files.Encrypt.Nonce.{generate_nonce}
use temp_files.Encrypt.State.{AeadFilter}
use temp_files.Encrypt.Cipher.{
  Coded, encrypt_tagged, encrypt_finalised, encrypt_final, encrypt_updated, encrypt_text,
  encrypt_ready, encrypt_record, aead_encrypt,
}
use temp_files.Encrypt.Aead.{Sealed, IsAead}

module _ {World : Type 0} (Next : Filter World) (E : Libcrypto World) (uninit : ℕ → List ℕ)
    (A : IsAead E) where
  abbrev This : Type 0
  This = AeadFilter Next E

  abbrev Answer : Type 0
  Answer = Coded This World

  -- The nonce of the filter's block.
  abbrev pub nonce_of : This → List ℕ
  nonce_of this = generate_nonce (uninit E.max_iv_length) this.iv this.iv_size this.block_nr

  -- What a block of the filter is encrypted to.
  abbrev pub sealed : This → E.Cipher → List ℕ → List ℕ → Sealed
  sealed this c h p = A.seal c this.key (nonce_of this) h p

  -- An encryption that gives a record, without an error; of the filter only the context is new.
  pub record IsSealed (this : This) (answer : Answer) (s : Sealed) : Type 0 where
    pub text : answer.bytes ≡ s.text
    pub size : answer.size ≡ length s.text
    pub tag : answer.tag ≡ s.tag
    pub no_error : answer.error ≡ error_ok
    pub ctx : E.Context
    pub kept : answer.this ≡ record this { ctx = some ctx }

  encrypt_finalised-ok :
      (this : This) (n : ℕ) (out : List ℕ) (o : Output E.Context World)
      → o.ok ≡ true
      → encrypt_finalised Next E uninit this n out error_ok o
        ≡ encrypt_tagged Next E uninit this
            (n + o.size)
            (out ++ o.bytes)
            error_ok
            (E.get_tag o.context this.tag_size o.world)
  unfolding encrypt_finalised
  encrypt_finalised-ok this n out o ok = rw ok refl

  encrypt_final_lem :
      (this : This) (x : E.Context) (c : E.Cipher) (k n h p out : List ℕ) (room size : ℕ)
      (w : World)
      → A.Encrypted x c k n h p out
      → size ≡ length out
      → this.tag_size ≡ length (A.seal c k n h p).tag
      → IsSealed this
          (encrypt_final Next E uninit this x room size out error_ok w)
          (A.seal c k n h p)
  unfolding encrypt_final encrypt_tagged
  encrypt_final_lem this x c k n h p out room size w done e t =
      let (o, x', w', final, ok, o_size, whole, tag) =
        A.encrypt_final x c k n h p out (room - size) w done in
      let returns : encrypt_final Next E uninit this x room size out error_ok w
          ≡ encrypt_tagged Next E uninit this (size + o.size) (out ++ o.bytes) error_ok
              (some (A.seal c k n h p).tag, x', w') =
        ap (encrypt_finalised Next E uninit this size out error_ok) final
        ∙ encrypt_finalised-ok this size out o ok
        ∙ ap
            (λ m.
              encrypt_tagged Next E uninit this (size + o.size) (out ++ o.bytes) error_ok
                (E.get_tag o.context m o.world))
            t
        ∙ ap (encrypt_tagged Next E uninit this (size + o.size) (out ++ o.bytes) error_ok) tag in
      record {
        text = ap (λ a. a.bytes) returns ∙ whole;
        size =
            ap (λ a. a.size) returns
            ∙ omega (arith, ap (length {0}) whole, length-append out o.bytes);
        tag = ap (λ a. a.tag) returns;
        no_error = ap (λ a. a.error) returns;
        ctx = x';
        kept = ap (λ a. a.this) returns;
      }

  encrypt_updated-ok :
      (this : This) (room : ℕ) (o : Output E.Context World)
      → o.ok ≡ true
      → encrypt_updated Next E uninit this room error_ok o
        ≡ encrypt_final Next E uninit this o.context room o.size o.bytes error_ok o.world
  unfolding encrypt_updated
  encrypt_updated-ok this room o ok = rw ok refl

  encrypt_text_lem :
      (this : This) (x : E.Context) (c : E.Cipher) (k n h p : List ℕ) (room : ℕ) (w : World)
      → A.Encrypting x c k n h
      → length (A.seal c k n h p).text ≤ room
      → this.tag_size ≡ length (A.seal c k n h p).tag
      → IsSealed this
          (encrypt_text Next E uninit this p room error_ok (true, x, w))
          (A.seal c k n h p)
  unfolding encrypt_text
  encrypt_text_lem this x c k n h [] room w ready fits t =
      encrypt_final_lem this x c k n h [] [] room 0 w (A.encrypt_nothing x c k n h ready) refl t
  encrypt_text_lem this x c k n h (b ∷ p) room w ready fits t =
      let (o, e, ok, size, done) =
        A.encrypt_text x c k n h (b ∷ p) room w ready (omega arith) fits in
      let some_text : ltb 0 (length (b ∷ p)) ≡ true = ground arith in
      subst (λ a. IsSealed this a (A.seal c k n h (b ∷ p)))
        (sym (
          ap
            (λ t.
              if t
              then encrypt_updated Next E uninit this room error_ok
                  (E.cipher_update x room (b ∷ p) w)
              else encrypt_final Next E uninit this x room 0 [] error_ok w)
            some_text
          ∙ ap (encrypt_updated Next E uninit this room error_ok) e
          ∙ encrypt_updated-ok this room o ok))
        (encrypt_final_lem this o.context c k n h (b ∷ p) o.bytes room o.size o.world done size t)

  encrypt_ready_lem :
      (this : This) (c : E.Cipher) (x : E.Context) (p h : List ℕ) (room : ℕ) (w : World)
      → A.Encrypting x c this.key (nonce_of this) []
      → length (sealed this c h p).text ≤ room
      → this.tag_size ≡ length (sealed this c h p).tag
      → IsSealed this
          (encrypt_ready Next E uninit this p h room error_ok (true, x, w))
          (sealed this c h p)
  unfolding encrypt_ready
  encrypt_ready_lem this c x p [] room w ready fits t =
      encrypt_text_lem this x c this.key (nonce_of this) [] p room w ready fits t
  encrypt_ready_lem this c x p (b ∷ h) room w ready fits t =
      let (x', w', e, headed) = A.encrypt_header x c this.key (nonce_of this) (b ∷ h) w ready in
      let some_header : ltb 0 (length (b ∷ h)) ≡ true = ground arith in
      subst (λ a. IsSealed this a (sealed this c (b ∷ h) p))
        (sym (
          ap
            (λ t.
              if t
              then encrypt_text Next E uninit this p room error_ok (E.header_update x (b ∷ h) w)
              else encrypt_text Next E uninit this p room error_ok (true, x, w))
            some_header
          ∙ ap (encrypt_text Next E uninit this p room error_ok) e))
        (encrypt_text_lem this x' c this.key (nonce_of this) (b ∷ h) p room w' headed fits t)

  pub encrypt_record_lem :
      (this : This) (c : E.Cipher) (x : E.Context) (p h : List ℕ) (room : ℕ) (w : World)
      → length (sealed this c h p).text ≤ room
      → this.tag_size ≡ length (sealed this c h p).tag
      → IsSealed this
          (encrypt_record Next E uninit this c x p h room error_ok w)
          (sealed this c h p)
  unfolding encrypt_record
  encrypt_record_lem this c x p h room w fits t =
      let (x', w', e, ready) =
        A.init_encrypt (E.context_reset x w).0 c this.key (nonce_of this) (E.context_reset x w).1 in
      subst (λ a. IsSealed this a (sealed this c h p))
        (sym (ap (encrypt_ready Next E uninit this p h room error_ok) e))
        (encrypt_ready_lem this c x' p h room w' ready fits t)

  pub encrypt_returns :
      (this : This) (c : E.Cipher) (x : E.Context) (p h : List ℕ) (room : ℕ) (w : World)
      → this.cipher ≡ some c
      → this.ctx ≡ some x
      → aead_encrypt Next E uninit this p h room error_ok w
        ≡ some (encrypt_record Next E uninit this c x p h room error_ok w)
  unfolding aead_encrypt
  encrypt_returns this c x p h room w has_cipher has_ctx =
      ap
        (λ o. o >>= λ x'.
          this.cipher >>= λ c'. some (encrypt_record Next E uninit this c' x' p h room error_ok w))
        has_ctx
      ∙ ap (λ o. o >>= λ c'. some (encrypt_record Next E uninit this c' x p h room error_ok w))
          has_cipher

  -- With a cipher that keeps its promises, and room for the whole text, aead_encrypt of a filter that has
  -- its cipher, context and the size of its tags returns without an error what the cipher seals under the
  -- filter's key and the nonce of its block; of the filter only the context changes.
  pub aead_encrypt-IsSealed :
      (this : This) (c : E.Cipher) (x : E.Context) (p h : List ℕ) (room : ℕ) (w : World)
      → this.cipher ≡ some c
      → this.ctx ≡ some x
      → length (sealed this c h p).text ≤ room
      → this.tag_size ≡ length (sealed this c h p).tag
      → (answer : Answer) × (aead_encrypt Next E uninit this p h room error_ok w ≡ some answer)
        × IsSealed this answer (sealed this c h p)
  aead_encrypt-IsSealed this c x p h room w has_cipher has_ctx fits t = (
    encrypt_record Next E uninit this c x p h room error_ok w,
    encrypt_returns this c x p h room w has_cipher has_ctx,
    encrypt_record_lem this c x p h room w fits t,
  )
