-- ===== src/Tests/Encryption.antt =====
-- The theorems on encryption at concrete data: a cipher that leaves the text as it is and has a sum of key,
-- nonce, header and text as its tag.
use mathlib.Core.Path.{subst}
use mathlib.Core.List.{append-nil}
use temp_files.Base.{
  ℕ, ◌+◌, ◌≡◌, sym, refl, ◌∙◌, ap, Bool, true, false, ◌||◌, Option, none, some, List, [], ◌∷◌,
  length, arith, if◌then◌else◌, ◌==◌, replicate, get_elem?,
}
use temp_files.Common.Errors.{error_ok}
use temp_files.Encrypt.Library.{Libcrypto}
use temp_files.Encrypt.Aead.{IsAead}
use temp_files.Encrypt.State.{AeadFilter}
use temp_files.Encrypt.Cipher.{Coded, aead_encrypt, aead_decrypt}
use temp_files.Encrypt.Nonce.{generate_nonce}
use temp_files.Encrypt.NonceLaws.{generate_nonce-big_endian, generate_nonce-distinct}
use temp_files.Encrypt.CipherLaws.{IsSealed, aead_encrypt-IsSealed}
use temp_files.Encrypt.DecryptLaws.{IsOpened, aead_decrypt-aead_encrypt}
use temp_files.Encrypt.Quiet.{IsQuiet}
use temp_files.Encrypt.Blocks.{aead_filter_write, aead_filter_seek, aead_filter_read}
use temp_files.Encrypt.BlockLaws.{aead_filter_read-aead_filter_write}
use temp_files.Base.Int.{pos}
use temp_files.Tests.TwoDisks.{Disks, memory, memory_view, memory-IsByteFile, sink, sink-IsOpenFile}

pub record Engine : Type 0 where
  encrypt : Bool
  key : List ℕ
  nonce : List ℕ
  header : List ℕ
  text : List ℕ
  tag : List ℕ

abbrev total : List ℕ → ℕ
total [] = 0
total (b ∷ bs) = b + total bs

abbrev sum : List ℕ → List ℕ → List ℕ → List ℕ → ℕ
sum k n h p = total k + (total n + (total h + total p))

abbrev first : List ℕ → ℕ
first [] = 0
first (b ∷ bs) = b

abbrev engine_sum : Engine → ℕ
engine_sum x = sum x.key x.nonce x.header x.text

abbrev new_engine : Engine
new_engine = record { encrypt = true; key = []; nonce = []; header = []; text = []; tag = [] }

-- `queue` is what ERR_get_error returns.
abbrev summing : ℕ → Libcrypto Disks
summing queue = record {
  Cipher = ℕ;
  Context = Engine;
  max_key_length = 64;
  max_iv_length = 16;
  max_block_length = 32;
  max_md_size = 64;
  context_new = λ w. (new_engine, w);
  cipher_fetch = λ name w. (some 1, w);
  iv_length = λ c. 2;
  key_length = λ c. 2;
  block_size = λ c. 1;
  context_reset = λ x w. (new_engine, w);
  cipher_init = λ x c k n e w.
      (true, record { encrypt = e; key = k; nonce = n; header = []; text = []; tag = [] }, w);
  header_update = λ x h w. (true, record x { header = h }, w);
  cipher_update = λ x room p w. record {
    ok = true;
    size = length p;
    bytes = p;
    context = record x { text = p };
    world = w;
  };
  cipher_final = λ x room w. record {
    ok = x.encrypt || first x.tag == engine_sum x;
    size = 0;
    bytes = [];
    context = x;
    world = w;
  };
  get_tag = λ x size w. (some (engine_sum x ∷ []), x, w);
  set_tag = λ x size t w. (true, record x { tag = t }, w);
  rand_bytes = λ n w. (replicate n 7, w);
  err_get_error = λ w. (queue, w);
  err_error_string = λ n. "failed";
}

abbrev checked : Bool → List ℕ → Option (List ℕ)
checked ok text = if ok then some text else none

checked-some : (b : Bool) (text p : List ℕ) → checked b text ≡ some p → (b ≡ true) × (text ≡ p)
checked-some true text p e = (refl, ap (λ o. elim o [ none ↦ [] | some x ↦ x ]) e)
checked-some false text p e =
    absurd (omega (arith, ap {B = ℕ} (λ o. elim o [ none ↦ 0 | some x ↦ 1 ]) e))

checked-none : (b : Bool) (text : List ℕ) → checked b text ≡ none → b ≡ false
checked-none true text e =
    absurd (omega (arith, ap {B = ℕ} (λ o. elim o [ none ↦ 0 | some x ↦ 1 ]) e))
checked-none false text e = refl

abbrev at_start : Bool → List ℕ → List ℕ → List ℕ → List ℕ → List ℕ → Engine
at_start e k n h p t = record { encrypt = e; key = k; nonce = n; header = h; text = p; tag = t }

same_sum : (n : ℕ) → (n == n) ≡ true
same_sum n = ground arith

module _ (queue : ℕ) where
  abbrev summing-IsAead : IsAead (summing queue)
  summing-IsAead = record {
    seal = λ c k n h p. record { text = p; tag = sum k n h p ∷ [] };
    unseal = λ c k n h s. checked (first s.tag == sum k n h s.text) s.text;
    unseal-seal = λ c k n h p. ap (λ b. checked b p) (same_sum (sum k n h p));
    seal_tag = λ c k n h p. (omega arith, omega arith);
    Encrypting = λ x c k n h. x ≡ at_start true k n h [] [];
    Encrypted = λ x c k n h p out. (x ≡ at_start true k n h p []) × (out ≡ p);
    init_encrypt = λ x c k n w. (at_start true k n [] [] [], w, refl, refl);
    encrypt_header = λ x c k n h w e.
        (record x { header = h }, w, refl, ap (λ (y : Engine). record y { header = h }) e);
    encrypt_text = λ x c k n h p room w e some_text fits. (
      record { ok = true; size = length p; bytes = p; context = record x { text = p }; world = w },
      refl,
      refl,
      refl,
      (ap (λ (y : Engine). record y { text = p }) e, refl),
    );
    encrypt_nothing = λ x c k n h e. (e, refl);
    encrypt_final = λ x c k n h p out room w done. (
      record {
        ok = x.encrypt || first x.tag == engine_sum x;
        size = 0;
        bytes = [];
        context = x;
        world = w;
      },
      x,
      w,
      refl,
      ap (λ (y : Engine). y.encrypt || first y.tag == engine_sum y) done.0,
      refl,
      append-nil out ∙ done.1,
      ap (λ (y : Engine). (some (engine_sum y ∷ []), x, w)) done.0,
    );
    Untagged = λ x c k n. x ≡ at_start false k n [] [] [];
    Decrypting = λ x c k n h t. x ≡ at_start false k n h [] t;
    Decrypted = λ x c k n h s out. (x ≡ at_start false k n h s.text s.tag) × (out ≡ s.text);
    init_decrypt = λ x c k n w. (at_start false k n [] [] [], w, refl, refl);
    decrypt_tag = λ x c k n t w e some_tag short.
        (record x { tag = t }, w, refl, ap (λ (y : Engine). record y { tag = t }) e);
    decrypt_header = λ x c k n h t w e.
        (record x { header = h }, w, refl, ap (λ (y : Engine). record y { header = h }) e);
    decrypt_text = λ x c k n h s room w e some_text fits. (
      record {
        ok = true;
        size = length s.text;
        bytes = s.text;
        context = record x { text = s.text };
        world = w;
      },
      refl,
      refl,
      refl,
      (ap (λ (y : Engine). record y { text = s.text }) e, refl),
    );
    decrypt_nothing = λ x c k n h t e. (e, refl);
    decrypt_final = λ x c k n h p out s room w done good. (
      record {
        ok = x.encrypt || first x.tag == engine_sum x;
        size = 0;
        bytes = [];
        context = x;
        world = w;
      },
      refl,
      ap (λ (y : Engine). y.encrypt || first y.tag == engine_sum y) done.0
          ∙ (checked-some (first s.tag == sum k n h s.text) s.text p good).0,
      refl,
      append-nil out ∙ done.1 ∙ (checked-some (first s.tag == sum k n h s.text) s.text p good).1,
    );
    reject_final = λ x c k n h out s room w done bad.
        ap (λ (y : Engine). y.encrypt || first y.tag == engine_sum y) done.0
        ∙ checked-none (first s.tag == sum k n h s.text) s.text bad;
  }

abbrev zeros : ℕ → List ℕ
zeros n = replicate n 0

abbrev vector : List ℕ
vector = 5 ∷ 9 ∷ []

-- The third byte from the right of the array is not touched; the last byte is 9 XOR 4.
generate_nonce-big_endian_example : get_elem? (generate_nonce (zeros 3) vector 2 260) 1 ≡ some 13
generate_nonce-big_endian_example =
    generate_nonce-big_endian (zeros 3) vector 2 260 0 (omega arith) (omega arith)

-- The numbers of two blocks that have the same nonce.
generate_nonce-distinct_example : 260 ≡ 256 + 4
generate_nonce-distinct_example =
    generate_nonce-distinct (zeros 2) (zeros 2) vector 2 260 (256 + 4) (omega arith) (omega arith)
      (omega arith) (omega arith) (λ j h. refl)

-- A filter at block 3.
abbrev filter : (queue : ℕ) → AeadFilter memory (summing queue)
filter queue = record {
  next = sink (pos 3);
  key = 1 ∷ 2 ∷ [];
  cipher_name = 97 ∷ [];
  plain_size = 4;
  key_size = 2;
  iv_size = 2;
  cipher_block_size = 1;
  tag_size = 1;
  has_padding = false;
  iv = vector;
  cipher = some 1;
  ctx = some new_engine;
  header_size = 20;
  block_nr = 3;
  encrypt_size = 5;
  readable = true;
  writable = true;
  file_size = 0;
  position = 12;
  max_read_position = 0;
  max_write_position = 12;
}

abbrev word : List ℕ
word = 104 ∷ 105 ∷ []

abbrev empty : Disks
empty = record {
  first = record { bytes = []; offset = 0 };
  second = record { bytes = []; offset = 0 };
}

-- The sum of key 1 2, nonce 5 10, header 7 and text 104 105.
aead_encrypt-IsSealed_example :
    (answer : Coded (AeadFilter memory (summing 0)) Disks) × (aead_encrypt memory
        (summing 0)
        zeros
        (filter 0)
        word
        (7 ∷ [])
        4
        error_ok
        empty
      ≡ some answer)
    × IsSealed memory
        (summing 0)
        zeros
        (summing-IsAead 0)
        (filter 0)
        answer
        (record { text = word; tag = 234 ∷ [] })
unfolding generate_nonce
aead_encrypt-IsSealed_example =
    aead_encrypt-IsSealed memory (summing 0) zeros (summing-IsAead 0) (filter 0) 1 new_engine word
      (7 ∷ []) 4 empty refl refl (omega arith) refl

aead_decrypt-aead_encrypt_example :
    (answer : Coded (AeadFilter memory (summing 0)) Disks) × (answer2 : Coded
      (AeadFilter memory (summing 0))
      Disks)
    × (aead_encrypt memory (summing 0) zeros (filter 0) word (7 ∷ []) 4 error_ok empty
        ≡ some answer)
    × (answer.error ≡ error_ok)
    × (aead_decrypt memory
          (summing 0)
          zeros
          (filter 0)
          answer.bytes
          (7 ∷ [])
          answer.tag
          2
          error_ok
          empty
        ≡ some answer2)
    × IsOpened memory (summing 0) zeros (summing-IsAead 0) (filter 0) answer2 word
aead_decrypt-aead_encrypt_example =
    aead_decrypt-aead_encrypt memory (summing 0) zeros (summing-IsAead 0) (filter 0) (filter 0) 1
      new_engine new_engine word (7 ∷ []) 4 2 empty empty refl refl refl refl refl refl refl refl
      refl (omega arith) (omega arith) refl

abbrev rejected : Option (List ℕ)
rejected = none

-- The library leaves the world as it is.
abbrev summing-IsQuiet : IsQuiet memory memory_view (summing 0)
summing-IsQuiet = record {
  Kept = λ w w'. w' ≡ w;
  kept_refl = λ w. refl;
  kept_trans = λ w1 w2 w3 e f. f ∙ e;
  reset_kept = λ x w. refl;
  init_kept = λ x c k n e w. refl;
  header_kept = λ x h w. refl;
  update_kept = λ x room p w. refl;
  final_kept = λ x room w. refl;
  get_tag_kept = λ x n w. refl;
  set_tag_kept = λ x n t w. refl;
  error_kept = λ w. refl;
  view_kept = λ f w w' e o. (
    subst (λ v. memory_view.IsOpen f v) (sym e) o,
    ap (λ v. memory_view.contents f v) e,
    ap (λ v. memory_view.pos f v) e,
  );
}

-- A file with a header of 20 bytes and three blocks of five.
abbrev three_blocks : Disks
three_blocks = record empty { first = record { bytes = zeros 35; offset = 35 } }

abbrev full_block : List ℕ
full_block = 97 ∷ 98 ∷ 99 ∷ 100 ∷ []

aead_filter_read-aead_filter_write_example :
    (this1 : AeadFilter memory (summing 0)) × (this2 : AeadFilter memory (summing 0))
    × (this3 : AeadFilter memory (summing 0)) × (w1 : Disks) × (w2 : Disks) × (w3 : Disks)
    × (aead_filter_write memory (summing 0) zeros (filter 0) full_block error_ok three_blocks
        ≡ some (4, this1, error_ok, w1))
    × (aead_filter_seek memory (summing 0) zeros this1 12 error_ok w1
        ≡ some (12, this2, error_ok, w2))
    × (aead_filter_read memory (summing 0) zeros this2 4 error_ok w2
        ≡ some (full_block, this3, error_ok, w3))
aead_filter_read-aead_filter_write_example =
    aead_filter_read-aead_filter_write memory (summing 0) zeros memory_view memory-IsByteFile
      (summing-IsAead 0) summing-IsQuiet (filter 0) 1 new_engine full_block 4 three_blocks
      (record {
        has_cipher = refl;
        has_ctx = refl;
        full = refl;
        positive = omega arith;
        text = refl;
        tag = refl;
        whole = refl;
        short = omega arith;
      })
      (sink-IsOpenFile (pos 3) three_blocks (omega arith) (omega arith)) refl (omega arith)
      (omega arith) (omega arith)
