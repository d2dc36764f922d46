-- ===== src/Encrypt/Header.antt =====
-- The header of an encrypted file.
use temp_files.Base.{
  ℕ, ◌-◌, ◌*◌, ◌^◌, not, ◌||◌, ◌&&◌, Option, some, List, [], ◌∷◌, length, take, splice, replicate,
  ltb, ◌==◌, if◌then◌else◌, add_size, sub_size,
}
use temp_files.Base.OptionMonad.{◌>>=◌}
use temp_files.Common.Errors.{Error, error_ok, is_error, error_is_eof, io_stack_error}
use temp_files.Common.Filter.{Filter}
use temp_files.Common.Packed.{Cursor, pack1, pack4, pack_bytes, unpack1, unpack4, unpack_bytes}
use temp_files.File.IoStack.Sized.{pass_through_write_sized, pass_through_read_sized}
use temp_files.Encrypt.Library.{Libcrypto}
use temp_files.Encrypt.State.{AeadFilter, as_handle, padding_size, max_cipher_name}
use temp_files.Encrypt.Cipher.{Coded, aead_cipher_setup, aead_encrypt, aead_decrypt}

abbrev pub max_aead_header_size : ℕ
max_aead_header_size = 1024

-- `HEADER_SEQUENCE_NUMBER`, `(size_t)-1`
abbrev pub header_sequence_number : ℕ
header_sequence_number = 2 ^ 64 - 1

abbrev pub max_block_size : ℕ
max_block_size = 16 * 1024 * 1024

-- A C string ends at the first zero.
abbrev c_string : List ℕ → List ℕ
c_string [] = []
c_string (b ∷ bs) = if b == 0 then [] else b ∷ c_string bs

module _ {World : Type 0} (Next : Filter World) (E : Libcrypto World) (uninit : ℕ → List ℕ) where
  abbrev This : Type 0
  This = AeadFilter Next E

  -- The end of aeadHeaderRead: the cipher, and the header without the empty block and the tag.
  -- (A size beyond the array is taken to be all of it.)
  unfoldable pub validate_header :
      This → List ℕ → List ℕ → List ℕ → Error → World → Option (This × Error × World)
  unfolding aead_cipher_setup is_error aead_decrypt padding_size
  validate_header this header empty_block tag error w =
      let (this1, error1, w1) = aead_cipher_setup Next E uninit this error w in
      let validate_size =
        sub_size
          (sub_size (sub_size (sub_size this1.header_size this1.tag_size) 1) (length empty_block))
          1 in
      let tag_bytes = take this1.tag_size (splice 0 tag (uninit E.max_md_size)) in
      let checked = do
        answer ←
            aead_decrypt Next E uninit this1 empty_block (take validate_size header) tag_bytes 0
              error1 w1
        let this2 = answer.this
        let this3 = record this2 {
          encrypt_size =
              add_size (add_size this2.plain_size (padding_size Next E this2 this2.plain_size))
                this2.tag_size;
        }
        some (this3, answer.error, answer.world)
      in if is_error error1 then some (this1, error1, w1) else checked

  -- The empty block and the tag of the header.
  unfoldable pub header_tag : This → Cursor → ℕ → Error → World → Option (This × Error × World)
  unfolding unpack1 unpack_bytes io_stack_error validate_header
  header_tag this c end error w =
      let (empty_size, c1) = unpack1 c end in
      let (empty_block, c2) = unpack_bytes c1 end empty_size in
      let (tag_size, c3) = unpack1 c2 end in
      let this1 = record this { tag_size = tag_size } in
      let (tag, c4) = unpack_bytes c3 end tag_size in
      let invalid = some (this1, io_stack_error error "Invalid AEAD header in file", w) in
      let tag_large = some (this1, io_stack_error error "Authentication tag is too large", w) in
      let block_large =
        some (this, io_stack_error error "Empty cipher block in header is too large", w) in
      let valid = validate_header this1 c.bytes empty_block tag error w in
      if ltb E.max_block_length empty_size
      then block_large
      else (if ltb E.max_md_size tag_size
          then tag_large
          else (if ltb end c4.bp then invalid else valid))

  -- The cipher's name and the initialization vector.
  unfoldable pub header_cipher : This → Cursor → ℕ → Error → World → Option (This × Error × World)
  unfolding unpack1 unpack_bytes io_stack_error header_tag
  header_cipher this c end error w =
      let (name_size, c1) = unpack1 c end in
      let (name, c2) = unpack_bytes c1 end name_size in
      let (iv_size, c3) = unpack1 c2 end in
      let named = record this { cipher_name = c_string name; iv_size = iv_size } in
      let (iv, c4) = unpack_bytes c3 end iv_size in
      let tags = header_tag (record named { iv = splice 0 iv named.iv }) c4 end error w in
      let iv_large = some (named, io_stack_error error "Initialization vector is too large", w) in
      let name_large = some (this, io_stack_error error "Cipher name in header is too large", w) in
      if ltb (max_cipher_name - 1) name_size
      then name_large
      else (if ltb E.max_iv_length iv_size then iv_large else tags)

  -- The fields of a header that has been read. Behind it the array is zero.
  unfoldable pub header_fields : This → List ℕ → Error → World → Option (This × Error × World)
  unfolding unpack4 io_stack_error header_cipher
  header_fields this block error w =
      let header : Cursor = record {
        bytes = splice 0 block (replicate max_aead_header_size 0);
        bp = 0;
      } in
      let (plain_size, c) = unpack4 header (length block) in
      let this1 = record this {
        header_size = add_size (length block) 4;
        plain_size = plain_size;
      } in
      let too_large =
        some (this1, io_stack_error error "AEAD record size in header is > 16MB", w) in
      let rest = header_cipher this1 c (length block) error w in
      if ltb max_block_size plain_size then too_large else rest

  unfoldable pub aead_header_read : This → Error → World → Option (This × Error × World)
  unfolding is_error error_is_eof io_stack_error pass_through_read_sized header_fields
  aead_header_read this error w =
      let got = do
        (block, handle, error1, w1) ←
            pass_through_read_sized Next uninit (as_handle Next E this) max_aead_header_size error w
        let this1 = record this { next = handle.next }
        let unreadable = io_stack_error error1 "Unable to read encrypted file header"
        let rest = header_fields this1 block error1 w1
        if error_is_eof error1
            then some (this1, error1, w1)
            else (if is_error error1 then some (this1, unreadable, w1) else rest)
      in if is_error error then some (this, error, w) else got

  -- The end of aeadHeaderWrite: the empty block and the tag, and writing the header.
  unfoldable pub finish_header : This → Cursor → Coded This World → Option (This × Error × World)
  unfolding pack1 pack_bytes padding_size io_stack_error pass_through_write_sized
  finish_header this c answer =
      let end = max_aead_header_size in
      let c1 = pack1 c end answer.size in
      let c2 = pack_bytes c1 end (take answer.size answer.bytes) in
      let c3 = pack1 c2 end this.tag_size in
      let c4 = pack_bytes c3 end (take this.tag_size answer.tag) in
      let miscalculated = some (
        this,
        io_stack_error answer.error "Size of cipher padding for empty record was miscalculated",
        answer.world,
      ) in
      let too_large =
        some (
          this,
          io_stack_error answer.error "Encryption file header was too large.",
          answer.world,
        ) in
      let written = do
        (size, handle, error', w') ←
            pass_through_write_sized Next uninit (as_handle Next E this) (take c4.bp c4.bytes)
              answer.error answer.world
        some (record this { next = handle.next; header_size = add_size c4.bp 4 }, error', w')
      in if not (answer.size == padding_size Next E this 0) || ltb 256 answer.size
        then miscalculated
        else (if ltb end c4.bp then too_large else written)

  -- The header up to the initialization vector.
  unfoldable pub header_start : This → Cursor
  unfolding pack1 pack4 pack_bytes
  header_start this =
      let end = max_aead_header_size in
      let c : Cursor = record { bytes = uninit max_aead_header_size; bp = 0 } in
      let c1 = pack4 c end this.plain_size in
      let c2 = pack1 c1 end (length this.cipher_name) in
      let c3 = pack_bytes c2 end this.cipher_name in
      let c4 = pack1 c3 end this.iv_size in pack_bytes c4 end (take this.iv_size this.iv)

  -- The whole array is authenticated, `end - header` bytes of it.
  unfoldable pub aead_header_write : This → Error → World → Option (This × Error × World)
  unfolding aead_cipher_setup is_error header_start io_stack_error aead_encrypt finish_header
  aead_header_write this error w =
      let (this1, error1, w1) = aead_cipher_setup Next E uninit this error w in
      let (random, w2) = E.rand_bytes this1.iv_size w1 in
      let this2 = record this1 { iv = splice 0 random this1.iv } in
      let c = header_start this2 in
      let too_large =
        some (this2, io_stack_error error1 "Trying to write a header which is too large", w2) in
      let encrypted = do
        answer ← aead_encrypt Next E uninit this2 [] c.bytes E.max_block_length error1 w2
        finish_header answer.this c answer
      in if is_error error1
        then some (this1, error1, w1)
        else (if ltb max_aead_header_size c.bp then too_large else encrypted)

  unfoldable pub aead_configure : This → Error → World → Option (This × Error × World)
  unfolding aead_header_read aead_header_write error_is_eof is_error io_stack_error
  aead_configure this error w = do
    (this1, error1, w1) ←
        aead_header_read (record this { block_nr = header_sequence_number }) error w
    let unreadable = io_stack_error error1 "AEAD encryption can't read header"
    let written = aead_header_write this1 error_ok w1
    (this2, error2, w2) ←
        if this1.writable && error_is_eof error1
        then written
        else (if is_error error1 then some (this1, unreadable, w1) else some (this1, error1, w1))
    some (record this2 { block_nr = 0 }, error2, w2)
