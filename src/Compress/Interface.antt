-- ===== src/Compress/Interface.antt =====
-- The compression filter as a filter. It has no sync or abort of its own: the next
-- filter's is called.
use temp_files.Base.{ℕ, String, some, List}
use temp_files.Base.OptionMonad.{◌>>=◌}
use temp_files.Common.Filter.{Filter}
use temp_files.Compress.Library.{Lz4Library}
use temp_files.Compress.State.{
  Lz4Compress, lz4_compress_open, lz4_compress_delete, lz4_compress_block_size, lz4_compress_close,
}
use temp_files.Compress.Records.{lz4_compress_write, lz4_compress_read}
use temp_files.Compress.Seeking.{lz4_compress_seek}

abbrev pub lz4_compress_interface :
    {World : Type 0} → Filter World → (ℕ → List ℕ) → (String → String) → Lz4Library → Filter World
lz4_compress_interface Next uninit index_path lib = record {
  This = Lz4Compress Next;
  fn_open = lz4_compress_open Next index_path;
  fn_write = lz4_compress_write Next uninit lib;
  fn_close = lz4_compress_close Next;
  fn_read = lz4_compress_read Next uninit lib;
  fn_sync = λ this error w. do
    (next', error', w') ← Next.fn_sync this.next error w
    some (record this { next = next' }, error', w');
  fn_abort = λ this error w. do
    (next', error', w') ← Next.fn_abort this.next error w
    some (record this { next = next' }, error', w');
  fn_block_size = lz4_compress_block_size Next lib;
  fn_seek = lz4_compress_seek Next uninit lib;
  fn_delete = lz4_compress_delete Next index_path;
}
