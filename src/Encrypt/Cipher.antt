-- ===== src/Encrypt/Cipher.antt =====
-- Finding the cipher, and encrypting and decrypting one record. Sizes are passed to libcrypto as int,
-- and are taken to be below 2 ^ 31; a call on a missing context or cipher does not return.
use temp_files.Base.{
  ℕ, ◌+◌, ◌-◌, Bool, true, false, not, ◌&&◌, ◌||◌, Option, none, some, List, [], ◌++◌, length, ltb,
  ◌==◌, if◌then◌else◌,
}
use temp_files.Base.OptionMonad.{◌>>=◌}
use temp_files.Common.Errors.{Error, error_is_ok, error_is_eof, error_code_io_stack, io_stack_error}
use temp_files.Common.Filter.{Filter}
use temp_files.Encrypt.Library.{Libcrypto, Output}
use temp_files.Encrypt.Nonce.{generate_nonce}
use temp_files.Encrypt.State.{AeadFilter}

-- What a record is encrypted to, and decrypted to: the size returned, the bytes placed in the output
-- buffer, and the state after the call.
pub record Coded (This World : Type 0) : Type 0 where
  pub size : ℕ
  pub bytes : List ℕ
  pub tag : List ℕ
  pub this : This
  pub error : Error
  pub world : World

module _ {World : Type 0} (Next : Filter World) (E : Libcrypto World) (uninit : ℕ → List ℕ) where
  abbrev This : Type 0
  This = AeadFilter Next E

  abbrev Answer : Type 0
  Answer = Coded This World

  unfoldable pub open_ssl_error : Error → World → Error × World
  unfolding error_is_ok error_is_eof
  open_ssl_error error w =
      let (code, w') = E.err_get_error w in
      if error_is_ok error || error_is_eof error
      then (record { code = error_code_io_stack; msg = E.err_error_string code }, w')
      else (error, w)

  -- `return openSSLError(error)`. The tag, if one was asked for, has not been set.
  unfoldable pub failed_record : This → E.Context → Error → World → Answer
  unfolding open_ssl_error
  failed_record this ctx error w =
      let (error', w') = open_ssl_error error w in
      record {
        size = 0;
        bytes = [];
        tag = uninit this.tag_size;
        this = record this { ctx = some ctx };
        error = error';
        world = w';
      }

  unfoldable pub aead_cipher_setup : This → Error → World → This × Error × World
  unfolding io_stack_error
  aead_cipher_setup this error w =
      let (ctx, w1) = E.context_new w in
      let (found, w2) = E.cipher_fetch this.cipher_name w1 in
      let this1 = record this { ctx = some ctx; cipher = found } in
      elim found [
        | none ↦ (this1, io_stack_error error "Encryption problem - cipher name not recognized", w2)
        | some cipher ↦
            let this2 = record this1 { iv_size = E.iv_length cipher } in
            let this3 = record this2 {
              cipher_block_size = E.block_size cipher;
              has_padding = not (E.block_size cipher == 1);
              tag_size = 16;
            } in
            if this.key_size == E.key_length cipher
            then (this3, error, w2)
            else (this2, io_stack_error error "Cipher key is the wrong size", w2)
      ]

  -- aead_encrypt, from its end: each function takes the answer of the call before it.
  unfoldable pub encrypt_tagged :
      This → ℕ → List ℕ → Error → Option (List ℕ) × E.Context × World → Answer
  unfolding failed_record
  encrypt_tagged this size bytes error (none, ctx, w) = failed_record this ctx error w
  encrypt_tagged this size bytes error (some tag, ctx, w) = record {
    size = size;
    bytes = bytes;
    tag = tag;
    this = record this { ctx = some ctx };
    error = error;
    world = w;
  }

  unfoldable pub encrypt_finalised : This → ℕ → List ℕ → Error → Output E.Context World → Answer
  unfolding failed_record encrypt_tagged
  encrypt_finalised this update_size update_bytes error final =
      if final.ok
      then encrypt_tagged this (update_size + final.size) (update_bytes ++ final.bytes) error
          (E.get_tag final.context this.tag_size final.world)
      else failed_record this final.context error final.world

  unfoldable pub encrypt_final : This → E.Context → ℕ → ℕ → List ℕ → Error → World → Answer
  unfolding encrypt_finalised
  encrypt_final this ctx cipher_size update_size update_bytes error w =
      encrypt_finalised this update_size update_bytes error
        (E.cipher_final ctx (cipher_size - update_size) w)

  unfoldable pub encrypt_updated : This → ℕ → Error → Output E.Context World → Answer
  unfolding failed_record encrypt_final
  encrypt_updated this cipher_size error update =
      if update.ok
      then encrypt_final this update.context cipher_size update.size update.bytes error update.world
      else failed_record this update.context error update.world

  unfoldable pub encrypt_text : This → List ℕ → ℕ → Error → Bool × E.Context × World → Answer
  unfolding failed_record encrypt_final encrypt_updated
  encrypt_text this plain_text cipher_size error (false, ctx, w) = failed_record this ctx error w
  encrypt_text this plain_text cipher_size error (true, ctx, w) =
      if ltb 0 (length plain_text)
      then encrypt_updated this cipher_size error (E.cipher_update ctx cipher_size plain_text w)
      else encrypt_final this ctx cipher_size 0 [] error w

  unfoldable pub encrypt_ready :
      This → List ℕ → List ℕ → ℕ → Error → Bool × E.Context × World → Answer
  unfolding failed_record encrypt_text
  encrypt_ready this plain_text header cipher_size error (false, ctx, w) =
      failed_record this ctx error w
  encrypt_ready this plain_text header cipher_size error (true, ctx, w) =
      if ltb 0 (length header)
      then encrypt_text this plain_text cipher_size error (E.header_update ctx header w)
      else encrypt_text this plain_text cipher_size error (true, ctx, w)

  unfoldable pub encrypt_record :
      This → E.Cipher → E.Context → List ℕ → List ℕ → ℕ → Error → World → Answer
  unfolding generate_nonce encrypt_ready
  encrypt_record this cipher ctx0 plain_text header cipher_size error w0 =
      let (ctx1, w1) = E.context_reset ctx0 w0 in
      let nonce = generate_nonce (uninit E.max_iv_length) this.iv this.iv_size this.block_nr in
      encrypt_ready this plain_text header cipher_size error
        (E.cipher_init ctx1 cipher this.key nonce true w1)

  unfoldable pub aead_encrypt : This → List ℕ → List ℕ → ℕ → Error → World → Option Answer
  unfolding encrypt_record
  aead_encrypt this plain_text header cipher_size error w = do
    ctx ← this.ctx
    cipher ← this.cipher
    some (encrypt_record this cipher ctx plain_text header cipher_size error w)

  -- aead_decrypt, in the same way. A finalisation that fails is an error only if libcrypto queued one.
  unfoldable pub decrypt_finalised : This → ℕ → List ℕ → Error → Output E.Context World → Answer
  unfolding failed_record
  decrypt_finalised this update_size update_bytes error final =
      let (code, w') = E.err_get_error final.world in
      let answer : Answer = record {
        size = update_size + final.size;
        bytes = update_bytes ++ final.bytes;
        tag = [];
        this = record this { ctx = some final.context };
        error = error;
        world = if final.ok then final.world else w';
      } in
      if not final.ok && not (code == 0) then failed_record this final.context error w' else answer

  unfoldable pub decrypt_final : This → E.Context → ℕ → ℕ → List ℕ → Error → World → Answer
  unfolding decrypt_finalised
  decrypt_final this ctx plain_size update_size update_bytes error w =
      decrypt_finalised this update_size update_bytes error
        (E.cipher_final ctx (plain_size - update_size) w)

  unfoldable pub decrypt_updated : This → ℕ → Error → Output E.Context World → Answer
  unfolding failed_record decrypt_final
  decrypt_updated this plain_size error update =
      if update.ok
      then decrypt_final this update.context plain_size update.size update.bytes error update.world
      else failed_record this update.context error update.world

  unfoldable pub decrypt_text : This → List ℕ → ℕ → Error → Bool × E.Context × World → Answer
  unfolding failed_record decrypt_final decrypt_updated
  decrypt_text this cipher_text plain_size error (false, ctx, w) = failed_record this ctx error w
  decrypt_text this cipher_text plain_size error (true, ctx, w) =
      if ltb 0 (length cipher_text)
      then decrypt_updated this plain_size error (E.cipher_update ctx plain_size cipher_text w)
      else decrypt_final this ctx plain_size 0 [] error w

  unfoldable pub decrypt_tagged :
      This → List ℕ → List ℕ → ℕ → Error → Bool × E.Context × World → Answer
  unfolding failed_record decrypt_text
  decrypt_tagged this cipher_text header plain_size error (false, ctx, w) =
      failed_record this ctx error w
  decrypt_tagged this cipher_text header plain_size error (true, ctx, w) =
      if ltb 0 (length header)
      then decrypt_text this cipher_text plain_size error (E.header_update ctx header w)
      else decrypt_text this cipher_text plain_size error (true, ctx, w)

  unfoldable pub decrypt_ready :
      This → List ℕ → List ℕ → List ℕ → ℕ → Error → Bool × E.Context × World → Answer
  unfolding failed_record decrypt_tagged
  decrypt_ready this cipher_text header tag plain_size error (false, ctx, w) =
      failed_record this ctx error w
  decrypt_ready this cipher_text header tag plain_size error (true, ctx, w) =
      decrypt_tagged this cipher_text header plain_size error (E.set_tag ctx this.tag_size tag w)

  unfoldable pub decrypt_record :
      This → E.Cipher → E.Context → List ℕ → List ℕ → List ℕ → ℕ → Error → World → Answer
  unfolding generate_nonce decrypt_ready
  decrypt_record this cipher ctx0 cipher_text header tag plain_size error w0 =
      let (ctx1, w1) = E.context_reset ctx0 w0 in
      let nonce = generate_nonce (uninit E.max_iv_length) this.iv this.iv_size this.block_nr in
      decrypt_ready this cipher_text header tag plain_size error
        (E.cipher_init ctx1 cipher this.key nonce false w1)

  unfoldable pub aead_decrypt : This → List ℕ → List ℕ → List ℕ → ℕ → Error → World → Option Answer
  unfolding decrypt_record
  aead_decrypt this cipher_text header tag plain_size error w = do
    ctx ← this.ctx
    cipher ← this.cipher
    some (decrypt_record this cipher ctx cipher_text header tag plain_size error w)
