-- ===== src/Encrypt/Aead.antt =====
-- What libcrypto documents of the cipher that it finds: authenticated encryption of one record.
use temp_files.Base.{ℕ, ◌<◌, ◌≤◌, ◌≡◌, true, false, Option, none, some, List, [], ◌++◌, length}
use temp_files.Encrypt.Library.{Libcrypto, Output}

-- A record's cipher text and tag.
pub record Sealed : Type 0 where
  pub text : List ℕ
  pub tag : List ℕ

module _ {World : Type 0} (E : Libcrypto World) where
  -- By cipher, key, nonce and header: `seal` encrypts, and `unseal` gives the text of a record that is
  -- authentic. The other relations say how far a context has come. A call is given room enough where the
  -- whole text fits.
  pub record IsAead : Type 1 where
    pub seal : E.Cipher → List ℕ → List ℕ → List ℕ → List ℕ → Sealed
    pub unseal : E.Cipher → List ℕ → List ℕ → List ℕ → Sealed → Option (List ℕ)
    pub unseal-seal : (c : E.Cipher) (k n h p : List ℕ) → unseal c k n h (seal c k n h p) ≡ some p
    -- A tag is of one to sixteen bytes, and only such a one can be set.
    pub seal_tag :
        (c : E.Cipher) (k n h p : List ℕ)
        → (0 < length (seal c k n h p).tag) × (length (seal c k n h p).tag ≤ 16)
    -- Initialised to encrypt; and with the text taken, of which some output has been placed.
    pub Encrypting : E.Context → E.Cipher → List ℕ → List ℕ → List ℕ → Type 0
    pub Encrypted : E.Context → E.Cipher → List ℕ → List ℕ → List ℕ → List ℕ → List ℕ → Type 0
    pub init_encrypt :
        (x : E.Context) (c : E.Cipher) (k n : List ℕ) (w : World)
        → (x' : E.Context) × (w' : World) × (E.cipher_init x c k n true w ≡ (true, x', w'))
          × Encrypting x' c k n []
    pub encrypt_header :
        (x : E.Context) (c : E.Cipher) (k n h : List ℕ) (w : World)
        → Encrypting x c k n []
        → (x' : E.Context) × (w' : World) × (E.header_update x h w ≡ (true, x', w'))
          × Encrypting x' c k n h
    pub encrypt_text :
        (x : E.Context) (c : E.Cipher) (k n h p : List ℕ) (room : ℕ) (w : World)
        → Encrypting x c k n h
        → 0 < length p
        → length (seal c k n h p).text ≤ room
        → (o : Output E.Context World) × (E.cipher_update x room p w ≡ o)
          × (o.ok ≡ true)
          × (o.size ≡ length o.bytes)
          × Encrypted o.context c k n h p o.bytes
    pub encrypt_nothing :
        (x : E.Context) (c : E.Cipher) (k n h : List ℕ)
        → Encrypting x c k n h
        → Encrypted x c k n h [] []
    pub encrypt_final :
        (x : E.Context) (c : E.Cipher) (k n h p out : List ℕ) (room : ℕ) (w : World)
        → Encrypted x c k n h p out
        → (o : Output E.Context World) × (x' : E.Context) × (w' : World) × (E.cipher_final x room w
            ≡ o)
          × (o.ok ≡ true)
          × (o.size ≡ length o.bytes)
          × (out ++ o.bytes ≡ (seal c k n h p).text)
          × (E.get_tag o.context (length (seal c k n h p).tag) o.world
              ≡ (some (seal c k n h p).tag, x', w'))
    -- The same to decrypt, for a tag.
    pub Untagged : E.Context → E.Cipher → List ℕ → List ℕ → Type 0
    pub Decrypting : E.Context → E.Cipher → List ℕ → List ℕ → List ℕ → List ℕ → Type 0
    pub Decrypted : E.Context → E.Cipher → List ℕ → List ℕ → List ℕ → Sealed → List ℕ → Type 0
    pub init_decrypt :
        (x : E.Context) (c : E.Cipher) (k n : List ℕ) (w : World)
        → (x' : E.Context) × (w' : World) × (E.cipher_init x c k n false w ≡ (true, x', w'))
          × Untagged x' c k n
    pub decrypt_tag :
        (x : E.Context) (c : E.Cipher) (k n t : List ℕ) (w : World)
        → Untagged x c k n
        → 0 < length t
        → length t ≤ 16
        → (x' : E.Context) × (w' : World) × (E.set_tag x (length t) t w ≡ (true, x', w'))
          × Decrypting x' c k n [] t
    pub decrypt_header :
        (x : E.Context) (c : E.Cipher) (k n h t : List ℕ) (w : World)
        → Decrypting x c k n [] t
        → (x' : E.Context) × (w' : World) × (E.header_update x h w ≡ (true, x', w'))
          × Decrypting x' c k n h t
    pub decrypt_text :
        (x : E.Context) (c : E.Cipher) (k n h : List ℕ) (s : Sealed) (room : ℕ) (w : World)
        → Decrypting x c k n h s.tag
        → 0 < length s.text
        → length s.text ≤ room
        → (o : Output E.Context World) × (E.cipher_update x room s.text w ≡ o)
          × (o.ok ≡ true)
          × (o.size ≡ length o.bytes)
          × Decrypted o.context c k n h s o.bytes
    pub decrypt_nothing :
        (x : E.Context) (c : E.Cipher) (k n h t : List ℕ)
        → Decrypting x c k n h t
        → Decrypted x c k n h (record { text = []; tag = t }) []
    -- Finalisation succeeds on an authentic record, and then all of its text has been placed.
    pub decrypt_final :
        (x : E.Context) (c : E.Cipher) (k n h p out : List ℕ) (s : Sealed) (room : ℕ) (w : World)
        → Decrypted x c k n h s out
        → unseal c k n h s ≡ some p
        → (o : Output E.Context World) × (E.cipher_final x room w ≡ o)
          × (o.ok ≡ true)
          × (o.size ≡ length o.bytes)
          × (out ++ o.bytes ≡ p)
    pub reject_final :
        (x : E.Context) (c : E.Cipher) (k n h out : List ℕ) (s : Sealed) (room : ℕ) (w : World)
        → Decrypted x c k n h s out
        → unseal c k n h s ≡ none
        → (E.cipher_final x room w).ok ≡ false
