-- ===== src/Encrypt/DecryptSteps.antt =====
-- The steps of aead_decrypt up to the finalisation, and its outcomes.
use mathlib.Core.Path.{subst}
use temp_files.Base.{
  ℕ, ◌+◌, ◌≤◌, ◌<◌, ◌≡◌, refl, inl, inr, not, Bool-cases, sym, ◌∙◌, ap, true, false, some, List, [],
  ◌∷◌, ◌++◌, length, ltb, ◌==◌, if◌then◌else◌, arith,
}
use temp_files.Base.OptionMonad.{◌>>=◌}
use temp_files.Common.Errors.{error_ok, error_is_ok, error_is_eof, is_error}
use temp_files.Common.Filter.{Filter}
use temp_files.Encrypt.Library.{Libcrypto, Output}
use temp_files.Encrypt.State.{AeadFilter}
use temp_files.Encrypt.Cipher.{
  Coded, failed_record, open_ssl_error, decrypt_finalised, decrypt_final, decrypt_updated,
  decrypt_text, decrypt_tagged, decrypt_ready, decrypt_record, aead_decrypt,
}
use temp_files.Encrypt.Aead.{Sealed, IsAead}
use temp_files.Encrypt.CipherLaws.{nonce_of}

module _ {World : Type 0} (Next : Filter World) (E : Libcrypto World) (uninit : ℕ → List ℕ)
    (A : IsAead E) where
  abbrev This : Type 0
  This = AeadFilter Next E

  abbrev Answer : Type 0
  Answer = Coded This World

  abbrev pub nonce : This → List ℕ
  nonce this = nonce_of Next E uninit A this

  decrypt_updated-ok :
      (this : This) (room : ℕ) (o : Output E.Context World)
      → o.ok ≡ true
      → decrypt_updated Next E uninit this room error_ok o
        ≡ decrypt_final Next E uninit this o.context room o.size o.bytes error_ok o.world
  unfolding decrypt_updated
  decrypt_updated-ok this room o ok = rw ok refl

  -- A decryption that comes to the finalisation, with all of the record taken.
  pub record Reaches (this : This) (c : E.Cipher) (h : List ℕ) (s : Sealed) (answer : Answer)
      : Type 0 where
    pub ctx : E.Context
    pub room : ℕ
    pub out : List ℕ
    pub world : World
    pub decrypted : A.Decrypted ctx c this.key (nonce this) h s out
    pub comes : answer ≡ decrypt_final Next E uninit this ctx room (length out) out error_ok world

  text-Reaches :
      (this : This) (x : E.Context) (c : E.Cipher) (h text tag : List ℕ) (room : ℕ) (w : World)
      → A.Decrypting x c this.key (nonce this) h tag
      → length text ≤ room
      → Reaches this c h
          (record { text = text; tag = tag })
          (decrypt_text Next E uninit this text room error_ok (true, x, w))
  unfolding decrypt_text
  text-Reaches this x c h [] tag room w ready fits = record {
    ctx = x;
    room = room;
    out = [];
    world = w;
    decrypted = A.decrypt_nothing x c this.key (nonce this) h tag ready;
    comes = refl;
  }
  text-Reaches this x c h (b ∷ text) tag room w ready fits =
      let (o, e, ok, size, done) =
        A.decrypt_text x c this.key (nonce this) h (record { text = b ∷ text; tag = tag }) room w
          ready (omega arith) fits in
      let some_text : ltb 0 (length (b ∷ text)) ≡ true = ground arith in
      record {
        ctx = o.context;
        room = room;
        out = o.bytes;
        world = o.world;
        decrypted = done;
        comes =
            ap
              (λ t.
                if t
                then decrypt_updated Next E uninit this room error_ok
                    (E.cipher_update x room (b ∷ text) w)
                else decrypt_final Next E uninit this x room 0 [] error_ok w)
              some_text
            ∙ ap (decrypt_updated Next E uninit this room error_ok) e
            ∙ decrypt_updated-ok this room o ok
            ∙ ap (λ n. decrypt_final Next E uninit this o.context room n o.bytes error_ok o.world)
                size;
      }

  tagged-Reaches :
      (this : This) (x : E.Context) (c : E.Cipher) (h text tag : List ℕ) (room : ℕ) (w : World)
      → A.Decrypting x c this.key (nonce this) [] tag
      → length text ≤ room
      → Reaches this c h
          (record { text = text; tag = tag })
          (decrypt_tagged Next E uninit this text h room error_ok (true, x, w))
  unfolding decrypt_tagged
  tagged-Reaches this x c [] text tag room w ready fits =
      text-Reaches this x c [] text tag room w ready fits
  tagged-Reaches this x c (b ∷ h) text tag room w ready fits =
      let (x', w', e, headed) = A.decrypt_header x c this.key (nonce this) (b ∷ h) tag w ready in
      let some_header : ltb 0 (length (b ∷ h)) ≡ true = ground arith in
      subst (λ a. Reaches this c (b ∷ h) (record { text = text; tag = tag }) a)
        (sym (
          ap
            (λ t.
              if t
              then decrypt_text Next E uninit this text room error_ok (E.header_update x (b ∷ h) w)
              else decrypt_text Next E uninit this text room error_ok (true, x, w))
            some_header
          ∙ ap (decrypt_text Next E uninit this text room error_ok) e))
        (text-Reaches this x' c (b ∷ h) text tag room w' headed fits)

  ready-Reaches :
      (this : This) (x : E.Context) (c : E.Cipher) (h text tag : List ℕ) (room : ℕ) (w : World)
      → A.Untagged x c this.key (nonce this)
      → this.tag_size ≡ length tag
      → 0 < length tag
      → length tag ≤ 16
      → length text ≤ room
      → Reaches this c h
          (record { text = text; tag = tag })
          (decrypt_ready Next E uninit this text h tag room error_ok (true, x, w))
  unfolding decrypt_ready
  ready-Reaches this x c h text tag room w ready t some_tag short fits =
      let (x', w', e, tagged) =
        A.decrypt_tag x c this.key (nonce this) tag w ready some_tag short in
      subst (λ a. Reaches this c h (record { text = text; tag = tag }) a)
        (sym (
          ap (λ n. decrypt_tagged Next E uninit this text h room error_ok (E.set_tag x n tag w)) t
          ∙ ap (decrypt_tagged Next E uninit this text h room error_ok) e))
        (tagged-Reaches this x' c h text tag room w' tagged fits)

  pub record-Reaches :
      (this : This) (c : E.Cipher) (x : E.Context) (h text tag : List ℕ) (room : ℕ) (w : World)
      → this.tag_size ≡ length tag
      → 0 < length tag
      → length tag ≤ 16
      → length text ≤ room
      → Reaches this c h
          (record { text = text; tag = tag })
          (decrypt_record Next E uninit this c x text h tag room error_ok w)
  unfolding decrypt_record
  record-Reaches this c x h text tag room w t some_tag short fits =
      let (x', w', e, ready) =
        A.init_decrypt (E.context_reset x w).0 c this.key (nonce this) (E.context_reset x w).1 in
      subst (λ a. Reaches this c h (record { text = text; tag = tag }) a)
        (sym (ap (decrypt_ready Next E uninit this text h tag room error_ok) e))
        (ready-Reaches this x' c h text tag room w' ready t some_tag short fits)

  pub decrypt_returns :
      (this : This) (c : E.Cipher) (x : E.Context) (h text tag : List ℕ) (room : ℕ) (w : World)
      → this.cipher ≡ some c
      → this.ctx ≡ some x
      → aead_decrypt Next E uninit this text h tag room error_ok w
        ≡ some (decrypt_record Next E uninit this c x text h tag room error_ok w)
  unfolding aead_decrypt
  decrypt_returns this c x h text tag room w has_cipher has_ctx =
      ap
        (λ o. o >>= λ x'. this.cipher >>= λ c'.
          some (decrypt_record Next E uninit this c' x' text h tag room error_ok w))
        has_ctx
      ∙ ap
          (λ o.
            o >>= λ c'. some (decrypt_record Next E uninit this c' x text h tag room error_ok w))
          has_cipher

  pub finalised-ok :
      (this : This) (n : ℕ) (out : List ℕ) (o : Output E.Context World)
      → o.ok ≡ true
      → decrypt_finalised Next E uninit this n out error_ok o ≡ record {
        size = n + o.size;
        bytes = out ++ o.bytes;
        tag = [];
        this = record this { ctx = some o.context };
        error = error_ok;
        world = o.world;
      }
  unfolding decrypt_finalised
  finalised-ok this n out o ok = rw ok refl

  -- A finalisation that fails is an error exactly where libcrypto has queued one, and what it has
  -- decrypted is given out exactly where it has not.
  pub finalised_refused :
      (this : This) (n : ℕ) (out : List ℕ) (o : Output E.Context World)
      → o.ok ≡ false
      → (is_error (decrypt_finalised Next E uninit this n out error_ok o).error
          ≡ not ((E.err_get_error o.world).0 == 0))
        × ((decrypt_finalised Next E uninit this n out error_ok o).bytes
            ≡ (if (E.err_get_error o.world).0 == 0 then out ++ o.bytes else []))
  unfolding decrypt_finalised failed_record open_ssl_error is_error error_is_ok error_is_eof
  finalised_refused this n out o failed = elim (Bool-cases ((E.err_get_error o.world).0 == 0)) [
    | inl e ↦ rw (failed, e) (refl, refl)
    | inr e ↦ rw (failed, e) (refl, refl)
  ]
