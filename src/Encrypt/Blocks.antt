-- ===== src/Encrypt/Blocks.antt =====
-- Reading and writing encrypted blocks, seeking, closing, and block sizes.
use temp_files.Base.{
  ℕ, ◌-◌, ◌*◌, ◌/◌, ◌%◌, not, ◌||◌, ◌&&◌, Option, none, some, List, [], ◌++◌, length, take, drop,
  ltb, ◌==◌, if◌then◌else◌, add_size, sub_size, size_mod,
}
use temp_files.Base.OptionMonad.{◌>>=◌}
use temp_files.Common.Errors.{
  Error, error_ok, error_eof, is_error, error_is_eof, set_error, io_stack_error,
}
use temp_files.Common.Filter.{Filter, size_min, size_max, size_round_down, file_end_position}
use temp_files.Common.PassThrough.{pass_through_read_all, pass_through_write_all}
use temp_files.Encrypt.Library.{Libcrypto}
use temp_files.Encrypt.State.{AeadFilter, padding_size}
use temp_files.Encrypt.Cipher.{aead_encrypt, aead_decrypt}
use temp_files.Encrypt.Header.{aead_configure}

module _ {World : Type 0} (Next : Filter World) (E : Libcrypto World) (uninit : ℕ → List ℕ) where
  abbrev This : Type 0
  This = AeadFilter Next E

  -- The caller's buffer of `size` bytes, of which the first are set.
  abbrev in_buffer : ℕ → List ℕ → List ℕ
  in_buffer size bytes = bytes ++ drop (length bytes) (uninit size)

  -- After a block: a partial one must be the last, and an empty one is the end of the file.
  unfoldable pub after_block :
      This → List ℕ → Error → World → Option (List ℕ × This × Error × World)
  unfolding size_max set_error
  after_block this plain error w =
      let this1 = record this {
        max_read_position =
            size_max this.max_read_position
              (add_size (this.block_nr * this.plain_size % size_mod) (length plain));
      } in
      let this2 = record this1 {
        block_nr =
            if length plain == this1.plain_size then add_size this1.block_nr 1 else this1.block_nr;
      } in
      if length plain == 0
      then some ([], this, set_error error error_eof, w)
      else some (plain, this2, error, w)

  unfoldable pub probe_end : This → List ℕ → Error → World → Option (List ℕ × This × Error × World)
  unfolding error_is_eof io_stack_error after_block
  probe_end this plain error w = do
    (extra, next, error1, w1) ← Next.fn_read this.next 1 error w
    let this1 = record this { next = next }
    let appended = io_stack_error error1 "Encrypted file has extra data appended."
    let last = after_block this1 plain error_ok w1
    if error_is_eof error1 then last else some ([], this1, appended, w1)

  unfoldable pub take_block : This → List ℕ → Error → World → Option (List ℕ × This × Error × World)
  unfolding size_max probe_end after_block
  take_block this plain error w =
      let this1 = record this { position = add_size this.position (length plain) } in
      let this2 = record this1 {
        max_read_position = size_max this1.max_read_position this1.position;
      } in
      let partial = probe_end (record this2 { file_size = this2.position }) plain error w in
      let full = after_block this2 plain error w in
      if ltb (length plain) this2.plain_size then partial else full

  -- Fewer bytes than a tag is not handled: the size of the text would wrap, which does not return here.
  unfoldable pub aead_filter_read :
      This → ℕ → Error → World → Option (List ℕ × This × Error × World)
  unfolding pass_through_read_all is_error aead_decrypt take_block
  aead_filter_read this size error w = do
    (block, next, error1, w1) ← pass_through_read_all Next this.next this.encrypt_size error w
    let this1 = record this { next = next }
    let text_size = length block - this1.tag_size
    let opened = do
      answer ←
          aead_decrypt Next E uninit this1 (take text_size block) [] (drop text_size block) size
            error1 w1
      let plain = take answer.size (in_buffer size answer.bytes)
      let taken = take_block answer.this plain answer.error answer.world
      if is_error answer.error then some ([], answer.this, answer.error, answer.world) else taken
    if is_error error1
        then some ([], this1, error1, w1)
        else (if ltb (length block) this1.tag_size then none else opened)

  unfoldable pub aead_filter_write :
      This → List ℕ → Error → World → Option (ℕ × This × Error × World)
  unfolding is_error size_min size_max aead_encrypt pass_through_write_all
  aead_filter_write this buf error w =
      let plain = take (size_min (length buf) this.plain_size) buf in
      let written = do
        answer ←
            aead_encrypt Next E uninit this plain [] (sub_size this.encrypt_size this.tag_size)
              error w
        let this1 = answer.this
        let block = take answer.size answer.bytes ++ answer.tag
        (total, next, error2, w2) ←
            pass_through_write_all Next this1.next block answer.error answer.world
        let this2 = record this1 { next = next; position = add_size this1.position (length plain) }
        let this3 = record this2 {
          max_write_position = size_max this2.max_write_position this2.position;
          block_nr = add_size this2.block_nr 1;
        }
        some (length plain, this3, error2, w2)
      in if is_error error then some (0, this, error, w) else written

  -- Whether an empty block is added at the end. A remainder by 0 does not return.
  unfoldable pub finish_file : This → Error → World → Option (This × Error × World)
  unfolding aead_filter_write
  finish_file this error w =
      let known =
        not (this.file_size == file_end_position) && ltb this.max_write_position this.file_size in
      let sought = do
        (actual_size, next, error1, w1) ← Next.fn_seek this.next file_end_position error w
        let this1 = record this { next = next }
        let blocks = this1.max_write_position / this1.plain_size * this1.encrypt_size % size_mod
        let expected_size = add_size blocks this1.header_size
        let added = do
          (size, this2, error2, w2) ← aead_filter_write this1 [] error1 w1
          some (this2, error2, w2)
        if ltb expected_size actual_size then some (this1, error1, w1) else added
      in let full = if known then some (this, error, w) else sought in
        let whole =
          if this.max_write_position % this.plain_size == 0 then full else some (this, error, w) in
        let divided = if this.plain_size == 0 then none else whole in
        if ltb this.max_write_position this.max_read_position
        then some (this, error, w)
        else divided

  -- The object is freed.
  unfoldable pub aead_filter_close : This → Error → World → Option (Error × World)
  unfolding finish_file
  aead_filter_close this error w = do
    (this1, error1, w1) ← finish_file this error w
    Next.fn_close this1.next error1 w1

  -- To the start of a block. `partial_size` is added to the position that is returned.
  unfoldable pub seek_plain : This → ℕ → ℕ → Error → World → Option (ℕ × This × Error × World)
  unfolding io_stack_error
  seek_plain this plain_position partial_size error w =
      let unaligned = some (0, this, io_stack_error error "Must seek to a block boundary", w) in
      let this1 = record this {
        block_nr = plain_position / this.plain_size;
        position = plain_position;
      } in
      let cipher_position =
        add_size this1.header_size (this1.block_nr * this1.encrypt_size % size_mod) in
      let sought = do
        (there, next, error1, w1) ← Next.fn_seek this1.next cipher_position error w
        some (add_size plain_position partial_size, record this1 { next = next }, error1, w1)
      in if this.plain_size == 0
        then none
        else (if not (plain_position % this.plain_size == 0) then unaligned else sought)

  -- To the last block, which is read for its size.
  unfoldable pub seek_last : This → ℕ → Error → World → Option (ℕ × This × Error × World)
  unfolding size_round_down aead_filter_read error_is_eof seek_plain
  seek_last this data_size0 error w =
      let data_size1 =
        if data_size0 % this.plain_size == 0
        then sub_size data_size0 this.encrypt_size
        else data_size0 in
      let data_size = size_round_down data_size1 this.encrypt_size in
      let sought = do
        (there, next, error1, w1) ←
            Next.fn_seek this.next (add_size this.header_size data_size) error w
        let this1 = record this { next = next; block_nr = data_size / this.encrypt_size }
        let this2 = record this1 { position = this1.block_nr * this1.plain_size % size_mod }
        (last, this3, error2, w2) ← aead_filter_read this2 this2.plain_size error1 w1
        let error3 = if error_is_eof error2 then error_ok else error2
        seek_plain this3 (this3.block_nr * this3.plain_size % size_mod) (length last) error3 w2
      in if this.plain_size == 0 || this.encrypt_size == 0 then none else sought

  unfoldable pub aead_filter_seek : This → ℕ → Error → World → Option (ℕ × This × Error × World)
  unfolding io_stack_error seek_last seek_plain
  aead_filter_seek this plain_position error w =
      let at_end = do
        (cipher_size, next, error1, w1) ← Next.fn_seek this.next file_end_position error w
        let this1 = record this { next = next }
        let data_size = sub_size cipher_size this1.header_size
        let truncated = io_stack_error error1 "Encrypted file truncated - missing final record"
        let found = seek_last this1 data_size error1 w1
        if data_size == 0 then some (0, this1, truncated, w1) else found
      in if plain_position == file_end_position
        then at_end
        else seek_plain this plain_position 0 error w

  unfoldable pub aead_filter_block_size :
      This → ℕ → Error → World → Option (ℕ × This × Error × World)
  unfolding io_stack_error aead_configure padding_size
  aead_filter_block_size this prev_size error w = do
    (next_size, next, error1, w1) ← Next.fn_block_size this.next 1 error w
    let this1 = record this { next = next }
    let unfit = io_stack_error error1 "AEAD Encryption must be followed by a byte stream."
    let sized = do
      (this2, error2, w2) ← aead_configure Next E uninit this1 error1 w1
      let this3 = record this2 {
        encrypt_size =
            add_size (add_size this2.plain_size (padding_size Next E this2 this2.plain_size))
              this2.tag_size;
      }
      some (this3.plain_size, this3, error2, w2)
    if not (next_size == 1) then some (0, this1, unfit, w1) else sized
