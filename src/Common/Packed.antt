-- ===== src/Common/Packed.antt =====
-- src/common/packed.h: packing values into a buffer, high byte first.
-- `Byte **bp` is a cursor: the memory behind the pointer, and the offset that it points to. `end` is
-- an offset into the same memory. A size_t operand of `|` is evaluated from left to right, an order
-- that C leaves open and that the source relies on.
pub mod Bits
pub mod Layout
pub mod RoundTrip
use temp_files.Base.{
  ℕ, zero, suc, ◌+◌, ◌*◌, ◌/◌, ◌%◌, ◌^◌, List, [], ◌∷◌, ◌++◌, get_or, set, ltb, leb, ◌==◌,
  if◌then◌else◌, size_mod,
}
use Prim.Native.Nat.{bit_or}

pub record Cursor : Type 0 where
  pub bytes : List ℕ
  pub bp : ℕ

-- Past the end nothing is written, and the pointer stops one behind it, which shows the overflow.
unfoldable pub pack1 : Cursor → ℕ → ℕ → Cursor
pack1 c end val = record {
  bytes = if ltb c.bp end then set c.bytes c.bp (val % 256) else c.bytes;
  bp = if leb c.bp end then c.bp + 1 else c.bp;
}

unfoldable pub unpack1 : Cursor → ℕ → ℕ × Cursor
unpack1 c end = (
  if ltb c.bp end then get_or c.bytes c.bp 0 else 0,
  record c { bp = if leb c.bp end then c.bp + 1 else c.bp },
)

unfoldable pub pack2 : Cursor → ℕ → ℕ → Cursor
pack2 c end val = pack1 (pack1 c end (val / 2 ^ 8)) end val

-- `high << bits | low`, on a size_t.
unfoldable pub shift_or : ℕ → ℕ → ℕ → ℕ
shift_or high bits low = bit_or (high * 2 ^ bits % size_mod) low

unfoldable pub unpack2 : Cursor → ℕ → ℕ × Cursor
unpack2 c end =
    let (high, c1) = unpack1 c end in let (low, c2) = unpack1 c1 end in (shift_or high 8 low, c2)

unfoldable pub pack4 : Cursor → ℕ → ℕ → Cursor
pack4 c end val = pack2 (pack2 c end (val / 2 ^ 16)) end val

unfoldable pub unpack4 : Cursor → ℕ → ℕ × Cursor
unpack4 c end =
    let (high, c1) = unpack2 c end in let (low, c2) = unpack2 c1 end in (shift_or high 16 low, c2)

unfoldable pub pack8 : Cursor → ℕ → ℕ → Cursor
pack8 c end val = pack4 (pack4 c end (val / 2 ^ 32)) end val

unfoldable pub unpack8 : Cursor → ℕ → ℕ × Cursor
unpack8 c end =
    let (high, c1) = unpack4 c end in let (low, c2) = unpack4 c1 end in (shift_or high 32 low, c2)

-- `packBytes(bp, end, bytes, size)`, on the `size` bytes. As in unpackBytes the loop's counter is an int:
-- sizes are below 2 ^ 31.
unfoldable pub pack_bytes : Cursor → ℕ → List ℕ → Cursor
pack_bytes c end [] = c
pack_bytes c end (b ∷ bs) = pack_bytes (pack1 c end b) end bs

unfoldable pub unpack_bytes : Cursor → ℕ → ℕ → List ℕ × Cursor
unpack_bytes c end zero = ([], c)
unpack_bytes c end (suc size) =
    let (b, c1) = unpack1 c end in let (bs, c2) = unpack_bytes c1 end size in (b ∷ bs, c2)

-- `packstr`, on the characters before the terminating zero.
unfoldable pub packstr : Cursor → ℕ → List ℕ → Cursor
packstr c end [] = pack1 c end 0
packstr c end (x ∷ str) = packstr (pack1 c end x) end str
