-- ===== src/Encrypt/Interface.antt =====
-- The encryption filter as a filter. Sync, abort and delete are the next filter's.
use temp_files.Base.{ℕ, some, List}
use temp_files.Base.OptionMonad.{◌>>=◌}
use temp_files.Common.Filter.{Filter}
use temp_files.Encrypt.Library.{Libcrypto}
use temp_files.Encrypt.State.{AeadFilter, aead_filter_open}
use temp_files.Encrypt.Blocks.{
  aead_filter_read, aead_filter_write, aead_filter_close, aead_filter_seek, aead_filter_block_size,
}

-- `fresh` is what malloc returns.
abbrev pub aead_filter_interface :
    {World : Type 0} (Next : Filter World) (E : Libcrypto World)
    → (ℕ → List ℕ)
    → AeadFilter Next E
    → Filter World
aead_filter_interface Next E uninit fresh = record {
  This = AeadFilter Next E;
  fn_open = aead_filter_open Next E fresh;
  fn_write = aead_filter_write Next E uninit;
  fn_close = aead_filter_close Next E uninit;
  fn_read = aead_filter_read Next E uninit;
  fn_sync = λ this error w. do
    (next', error', w') ← Next.fn_sync this.next error w
    some (record this { next = next' }, error', w');
  fn_abort = λ this error w. do
    (next', error', w') ← Next.fn_abort this.next error w
    some (record this { next = next' }, error', w');
  fn_block_size = aead_filter_block_size Next E uninit;
  fn_seek = aead_filter_seek Next E uninit;
  fn_delete = λ this path error w. do
    (next', error', w') ← Next.fn_delete this.next path error w
    some (record this { next = next' }, error', w');
}
