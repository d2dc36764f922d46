-- ===== src/Encrypt/State.antt =====
-- The state of the encryption filter, a new one, and opening.
use temp_files.Base.{
  ℕ, ◌-◌, ◌%◌, String, Bool, true, Option, none, some, List, length, take, splice, leb,
  if◌then◌else◌,
}
use temp_files.Base.OptionMonad.{◌>>=◌}
use temp_files.Common.Errors.{Error, is_error, io_stack_error}
use temp_files.Common.Filter.{Filter, OpenFlags, file_end_position, read_write, may_read, may_write}
use temp_files.File.IoStack.{IoStack}
use temp_files.Encrypt.Library.{Libcrypto}

abbrev pub max_cipher_name : ℕ
max_cipher_name = 64

module _ {World : Type 0} (Next : Filter World) (E : Libcrypto World) where
  -- `struct AeadFilter`, with the filter that it points to. `cipher_name` is the bytes before the
  -- terminating zero. The two buffers are scratch: every call fills what it reads of them, so they are
  -- values of the calls.
  pub record AeadFilter : Type 0 where
    pub next : Next.This
    pub key : List ℕ
    pub cipher_name : List ℕ
    pub plain_size : ℕ
    pub key_size : ℕ
    pub iv_size : ℕ
    pub cipher_block_size : ℕ
    pub tag_size : ℕ
    pub has_padding : Bool
    pub iv : List ℕ
    pub cipher : Option E.Cipher
    pub ctx : Option E.Context
    pub header_size : ℕ
    pub block_nr : ℕ
    pub encrypt_size : ℕ
    pub readable : Bool
    pub writable : Bool
    pub file_size : ℕ
    pub position : ℕ
    pub max_read_position : ℕ
    pub max_write_position : ℕ

  -- The handle by which the shared helpers see this filter: all that they use is the filter behind it.
  abbrev pub as_handle : AeadFilter → IoStack Next
  as_handle this = record { next = this.next; is_open = true }

  -- `fresh` is what malloc returns, with whatever it holds. A failed `assert` does not return.
  unfoldable pub aead_filter_new : AeadFilter → List ℕ → ℕ → List ℕ → Next.This → Option AeadFilter
  aead_filter_new fresh cipher_name record_size key next =
      let made = record fresh {
        next = next;
        key_size = length key;
        key = splice 0 key fresh.key;
        cipher_name = take (max_cipher_name - 1) cipher_name;
        plain_size = record_size;
      } in
      if leb (length key) E.max_key_length then some made else none

  -- The header is read in any case, so write-only becomes read-write.
  unfoldable pub aead_filter_open :
      AeadFilter
      → AeadFilter
      → String
      → OpenFlags
      → ℕ
      → Error
      → World
      → Option (AeadFilter × Error × World)
  unfolding aead_filter_new is_error io_stack_error
  aead_filter_open fresh pipe path oflags mode error w = do
    let oflags' = record oflags { acc_mode = read_write oflags.acc_mode }
    (next, error1, w1) ← Next.fn_open pipe.next path oflags' mode error w
    this ← aead_filter_new fresh pipe.cipher_name pipe.plain_size (take pipe.key_size pipe.key) next
    let appending = io_stack_error error1 "Can't directly append to encrypted file - use buffering"
    let opened = record this {
      writable = may_write oflags'.acc_mode;
      readable = may_read oflags'.acc_mode;
      block_nr = 0;
      max_read_position = 0;
      max_write_position = 0;
      file_size = if oflags'.trunc then 0 else file_end_position;
      position = 0;
    }
    if is_error error1
        then some (this, error1, w1)
        else (if oflags'.append then some (this, appending, w1) else some (opened, error1, w1))

  -- `cipher_block_size` is 1 or more.
  unfoldable pub padding_size : AeadFilter → ℕ → ℕ
  padding_size this record_size =
      if this.has_padding then this.cipher_block_size - record_size % this.cipher_block_size else 0
