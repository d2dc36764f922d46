-- ===== src/Encrypt/Quiet.antt =====
-- libcrypto leaves files alone, and so do aead_encrypt and aead_decrypt.
use temp_files.Base.{
  ℕ, ◌+◌, ◌-◌, ◌≡◌, inl, inr, Bool, true, false, Option, none, some, List, [], ◌++◌, length, ltb,
  ◌==◌, Bool-cases,
}
use temp_files.Common.Errors.{error_ok, error_is_ok, error_is_eof}
use temp_files.Common.Filter.{Filter}
use temp_files.Common.ByteFile.{FileView}
use temp_files.Encrypt.Library.{Libcrypto, Output}
use temp_files.Encrypt.Nonce.{generate_nonce}
use temp_files.Encrypt.State.{AeadFilter}
use temp_files.Encrypt.Cipher.{
  failed_record, open_ssl_error, encrypt_tagged, encrypt_finalised, encrypt_final, encrypt_updated,
  encrypt_text, encrypt_ready, encrypt_record, decrypt_finalised, decrypt_final, decrypt_updated,
  decrypt_text, decrypt_tagged, decrypt_ready, decrypt_record,
}

-- `Kept w w'`: at most libcrypto's own state differs.
pub record IsQuiet {World : Type 0} (Next : Filter World) (V : FileView Next) (E : Libcrypto World)
    : Type 1 where
  pub Kept : World → World → Type 0
  pub kept_refl : (w : World) → Kept w w
  pub kept_trans : (w1 w2 w3 : World) → Kept w1 w2 → Kept w2 w3 → Kept w1 w3
  pub reset_kept : (x : E.Context) (w : World) → Kept w (E.context_reset x w).1
  pub init_kept :
      (x : E.Context) (c : E.Cipher) (k n : List ℕ) (e : Bool) (w : World)
      → Kept w (E.cipher_init x c k n e w).2
  pub header_kept : (x : E.Context) (h : List ℕ) (w : World) → Kept w (E.header_update x h w).2
  pub update_kept :
      (x : E.Context) (room : ℕ) (p : List ℕ) (w : World)
      → Kept w (E.cipher_update x room p w).world
  pub final_kept : (x : E.Context) (room : ℕ) (w : World) → Kept w (E.cipher_final x room w).world
  pub get_tag_kept : (x : E.Context) (n : ℕ) (w : World) → Kept w (E.get_tag x n w).2
  pub set_tag_kept : (x : E.Context) (n : ℕ) (t : List ℕ) (w : World) → Kept w (E.set_tag x n t w).2
  pub error_kept : (w : World) → Kept w (E.err_get_error w).1
  pub view_kept :
      (f : Next.This) (w w' : World)
      → Kept w w'
      → V.IsOpen f w
      → V.IsOpen f w' × (V.contents f w' ≡ V.contents f w) × (V.pos f w' ≡ V.pos f w)

module _ {World : Type 0} (Next : Filter World) (V : FileView Next) (E : Libcrypto World)
    (uninit : ℕ → List ℕ) (Q : IsQuiet Next V E) where
  abbrev This : Type 0
  This = AeadFilter Next E

  failed-Kept :
      (this : This) (x : E.Context) (w : World)
      → Q.Kept w (failed_record Next E uninit this x error_ok w).world
  unfolding failed_record open_ssl_error error_is_ok error_is_eof
  failed-Kept this x w = Q.error_kept w

  encrypt_tagged-Kept :
      (this : This) (n : ℕ) (b : List ℕ) (a : Option (List ℕ) × E.Context × World)
      → Q.Kept a.2 (encrypt_tagged Next E uninit this n b error_ok a).world
  unfolding encrypt_tagged
  encrypt_tagged-Kept this n b (none, x, w) = failed-Kept this x w
  encrypt_tagged-Kept this n b (some t, x, w) = Q.kept_refl w

  encrypt_finalised-Kept :
      (this : This) (n : ℕ) (b : List ℕ) (o : Output E.Context World)
      → Q.Kept o.world (encrypt_finalised Next E uninit this n b error_ok o).world
  unfolding encrypt_finalised
  encrypt_finalised-Kept this n b o = elim (Bool-cases o.ok) [
    | inl ok ↦ rw ok (
        Q.kept_trans o.world (E.get_tag o.context this.tag_size o.world).2 _
          (Q.get_tag_kept o.context this.tag_size o.world)
          (encrypt_tagged-Kept this (n + o.size) (b ++ o.bytes)
            (E.get_tag o.context this.tag_size o.world)))
    | inr ok ↦ rw ok (failed-Kept this o.context o.world)
  ]

  encrypt_final-Kept :
      (this : This) (x : E.Context) (room n : ℕ) (b : List ℕ) (w : World)
      → Q.Kept w (encrypt_final Next E uninit this x room n b error_ok w).world
  unfolding encrypt_final
  encrypt_final-Kept this x room n b w =
      Q.kept_trans w (E.cipher_final x (room - n) w).world _ (Q.final_kept x (room - n) w)
        (encrypt_finalised-Kept this n b (E.cipher_final x (room - n) w))

  encrypt_updated-Kept :
      (this : This) (room : ℕ) (o : Output E.Context World)
      → Q.Kept o.world (encrypt_updated Next E uninit this room error_ok o).world
  unfolding encrypt_updated
  encrypt_updated-Kept this room o = elim (Bool-cases o.ok) [
    | inl ok ↦ rw ok (encrypt_final-Kept this o.context room o.size o.bytes o.world)
    | inr ok ↦ rw ok (failed-Kept this o.context o.world)
  ]

  encrypt_text-Kept :
      (this : This) (p : List ℕ) (room : ℕ) (a : Bool × E.Context × World)
      → Q.Kept a.2 (encrypt_text Next E uninit this p room error_ok a).world
  unfolding encrypt_text
  encrypt_text-Kept this p room (false, x, w) = failed-Kept this x w
  encrypt_text-Kept this p room (true, x, w) = elim (Bool-cases (ltb 0 (length p))) [
    | inl e ↦ rw e (
        Q.kept_trans w (E.cipher_update x room p w).world _ (Q.update_kept x room p w)
          (encrypt_updated-Kept this room (E.cipher_update x room p w)))
    | inr e ↦ rw e (encrypt_final-Kept this x room 0 [] w)
  ]

  encrypt_ready-Kept :
      (this : This) (p h : List ℕ) (room : ℕ) (a : Bool × E.Context × World)
      → Q.Kept a.2 (encrypt_ready Next E uninit this p h room error_ok a).world
  unfolding encrypt_ready
  encrypt_ready-Kept this p h room (false, x, w) = failed-Kept this x w
  encrypt_ready-Kept this p h room (true, x, w) = elim (Bool-cases (ltb 0 (length h))) [
    | inl e ↦ rw e (
        Q.kept_trans w (E.header_update x h w).2 _ (Q.header_kept x h w)
          (encrypt_text-Kept this p room (E.header_update x h w)))
    | inr e ↦ rw e (encrypt_text-Kept this p room (true, x, w))
  ]

  pub encrypt_record-Kept :
      (this : This) (c : E.Cipher) (x : E.Context) (p h : List ℕ) (room : ℕ) (w : World)
      → Q.Kept w (encrypt_record Next E uninit this c x p h room error_ok w).world
  unfolding encrypt_record
  encrypt_record-Kept this c x p h room w =
      let n = generate_nonce (uninit E.max_iv_length) this.iv this.iv_size this.block_nr in
      let r = E.context_reset x w in
      let i = E.cipher_init r.0 c this.key n true r.1 in
      Q.kept_trans w r.1 _ (Q.reset_kept x w) (
        Q.kept_trans r.1 i.2 _ (Q.init_kept r.0 c this.key n true r.1)
          (encrypt_ready-Kept this p h room i))

  decrypt_finalised-Kept :
      (this : This) (n : ℕ) (b : List ℕ) (o : Output E.Context World)
      → Q.Kept o.world (decrypt_finalised Next E uninit this n b error_ok o).world
  unfolding decrypt_finalised
  decrypt_finalised-Kept this n b o = elim (Bool-cases o.ok) [
    | inl ok ↦ rw ok (Q.kept_refl o.world)
    | inr ok ↦ elim (Bool-cases ((E.err_get_error o.world).0 == 0)) [
      | inl empty ↦ rw (ok, empty) (Q.error_kept o.world)
      | inr queued ↦
          rw (ok, queued)
            (Q.kept_trans o.world (E.err_get_error o.world).1 _ (Q.error_kept o.world)
              (failed-Kept this o.context (E.err_get_error o.world).1))
    ]
  ]

  decrypt_final-Kept :
      (this : This) (x : E.Context) (room n : ℕ) (b : List ℕ) (w : World)
      → Q.Kept w (decrypt_final Next E uninit this x room n b error_ok w).world
  unfolding decrypt_final
  decrypt_final-Kept this x room n b w =
      Q.kept_trans w (E.cipher_final x (room - n) w).world _ (Q.final_kept x (room - n) w)
        (decrypt_finalised-Kept this n b (E.cipher_final x (room - n) w))

  decrypt_updated-Kept :
      (this : This) (room : ℕ) (o : Output E.Context World)
      → Q.Kept o.world (decrypt_updated Next E uninit this room error_ok o).world
  unfolding decrypt_updated
  decrypt_updated-Kept this room o = elim (Bool-cases o.ok) [
    | inl ok ↦ rw ok (decrypt_final-Kept this o.context room o.size o.bytes o.world)
    | inr ok ↦ rw ok (failed-Kept this o.context o.world)
  ]

  decrypt_text-Kept :
      (this : This) (t : List ℕ) (room : ℕ) (a : Bool × E.Context × World)
      → Q.Kept a.2 (decrypt_text Next E uninit this t room error_ok a).world
  unfolding decrypt_text
  decrypt_text-Kept this t room (false, x, w) = failed-Kept this x w
  decrypt_text-Kept this t room (true, x, w) = elim (Bool-cases (ltb 0 (length t))) [
    | inl e ↦ rw e (
        Q.kept_trans w (E.cipher_update x room t w).world _ (Q.update_kept x room t w)
          (decrypt_updated-Kept this room (E.cipher_update x room t w)))
    | inr e ↦ rw e (decrypt_final-Kept this x room 0 [] w)
  ]

  decrypt_tagged-Kept :
      (this : This) (t h : List ℕ) (room : ℕ) (a : Bool × E.Context × World)
      → Q.Kept a.2 (decrypt_tagged Next E uninit this t h room error_ok a).world
  unfolding decrypt_tagged
  decrypt_tagged-Kept this t h room (false, x, w) = failed-Kept this x w
  decrypt_tagged-Kept this t h room (true, x, w) = elim (Bool-cases (ltb 0 (length h))) [
    | inl e ↦ rw e (
        Q.kept_trans w (E.header_update x h w).2 _ (Q.header_kept x h w)
          (decrypt_text-Kept this t room (E.header_update x h w)))
    | inr e ↦ rw e (decrypt_text-Kept this t room (true, x, w))
  ]

  decrypt_ready-Kept :
      (this : This) (t h tag : List ℕ) (room : ℕ) (a : Bool × E.Context × World)
      → Q.Kept a.2 (decrypt_ready Next E uninit this t h tag room error_ok a).world
  unfolding decrypt_ready
  decrypt_ready-Kept this t h tag room (false, x, w) = failed-Kept this x w
  decrypt_ready-Kept this t h tag room (true, x, w) =
      Q.kept_trans w (E.set_tag x this.tag_size tag w).2 _ (Q.set_tag_kept x this.tag_size tag w)
        (decrypt_tagged-Kept this t h room (E.set_tag x this.tag_size tag w))

  pub decrypt_record-Kept :
      (this : This) (c : E.Cipher) (x : E.Context) (t h tag : List ℕ) (room : ℕ) (w : World)
      → Q.Kept w (decrypt_record Next E uninit this c x t h tag room error_ok w).world
  unfolding decrypt_record
  decrypt_record-Kept this c x t h tag room w =
      let n = generate_nonce (uninit E.max_iv_length) this.iv this.iv_size this.block_nr in
      let r = E.context_reset x w in
      let i = E.cipher_init r.0 c this.key n false r.1 in
      Q.kept_trans w r.1 _ (Q.reset_kept x w) (
        Q.kept_trans r.1 i.2 _ (Q.init_kept r.0 c this.key n false r.1)
          (decrypt_ready-Kept this t h tag room i))
