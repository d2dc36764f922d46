-- ===== src/Encrypt/Library.antt =====
-- libcrypto, which src/encrypt/libcrypto/aead.c calls.
use temp_files.Base.{ℕ, String, Bool, Option, List}

-- What EVP_CipherUpdate and EVP_CipherFinal_ex answer: whether they succeeded, the size that they leave,
-- and the bytes that they place in the output buffer.
pub record Output (Context World : Type 0) : Type 0 where
  pub ok : Bool
  pub size : ℕ
  pub bytes : List ℕ
  pub context : Context
  pub world : World

pub record Libcrypto (World : Type 0) : Type 1 where
  pub Cipher : Type 0
  pub Context : Type 0
  -- EVP_MAX_KEY_LENGTH, EVP_MAX_IV_LENGTH, EVP_MAX_BLOCK_LENGTH and EVP_MAX_MD_SIZE
  pub max_key_length : ℕ
  pub max_iv_length : ℕ
  pub max_block_length : ℕ
  pub max_md_size : ℕ
  -- EVP_CIPHER_CTX_new
  pub context_new : World → Context × World
  -- EVP_CIPHER_fetch, by the bytes of the name; `none` is NULL
  pub cipher_fetch : List ℕ → World → Option Cipher × World
  pub iv_length : Cipher → ℕ
  pub key_length : Cipher → ℕ
  pub block_size : Cipher → ℕ
  -- EVP_CIPHER_CTX_reset
  pub context_reset : Context → World → Context × World
  -- EVP_CipherInit_ex2: key, nonce, and whether to encrypt
  pub cipher_init : Context → Cipher → List ℕ → List ℕ → Bool → World → Bool × Context × World
  -- EVP_CipherUpdate without an output buffer: bytes that are authenticated only
  pub header_update : Context → List ℕ → World → Bool × Context × World
  -- EVP_CipherUpdate: the size given for the output, and the input
  pub cipher_update : Context → ℕ → List ℕ → World → Output Context World
  -- EVP_CipherFinal_ex: the size given for the output
  pub cipher_final : Context → ℕ → World → Output Context World
  -- EVP_CIPHER_CTX_ctrl with EVP_CTRL_AEAD_GET_TAG; `none` is a failure
  pub get_tag : Context → ℕ → World → Option (List ℕ) × Context × World
  -- EVP_CIPHER_CTX_ctrl with EVP_CTRL_AEAD_SET_TAG
  pub set_tag : Context → ℕ → List ℕ → World → Bool × Context × World
  -- RAND_bytes
  pub rand_bytes : ℕ → World → List ℕ × World
  -- ERR_get_error, 0 for an empty queue, and ERR_error_string
  pub err_get_error : World → ℕ × World
  pub err_error_string : ℕ → String
