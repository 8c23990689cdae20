-- ===== src/Codec/Bytes.antt =====
-- Buffers, padding and little-endian numbers: ApplyPadding, AddPaddingToSize and SkipPadding of
-- src/DBus.h, and what its `std::memcpy` calls do on a little-endian machine.
use cxx_bus.Base.{
  ℕ, zero, suc, ◌+◌, ◌-◌, ◌*◌, ◌/◌, ◌%◌, List, [], ◌∷◌, ◌++◌, ◌==◌, leb, if◌then◌else◌, length,
  take, drop, replicate, add32, Result, ok, err, out_of_bounds,
}

abbrev pub Bytes : Type 0
Bytes = List ℕ

-- How many bytes are missing up to the next multiple of the alignment.
unfoldable pub padding : ℕ → ℕ → ℕ
padding size alignment =
    let result = size % alignment in if result == 0 then 0 else alignment - result

-- `resize` appends zeros.
unfoldable pub apply_padding : Bytes → ℕ → Bytes
unfolding padding
apply_padding bytes alignment = bytes ++ replicate (padding (length bytes) alignment) 0

-- The new value of the pointer.
unfoldable pub skip_padding : ℕ → ℕ → ℕ
unfolding padding
skip_padding pointer alignment = add32 pointer (padding pointer alignment)

-- The new size, and the result.
unfoldable pub add_padding_to_size : ℕ → ℕ → ℕ × ℕ
unfolding padding
add_padding_to_size size alignment = (add32 size (padding size alignment), padding size alignment)

-- The `n` bytes of a number in memory.
unfoldable pub le_bytes : ℕ → ℕ → Bytes
le_bytes zero w = []
le_bytes (suc n) w = (w % 256) ∷ le_bytes n (w / 256)

unfoldable pub from_le : Bytes → ℕ
from_le [] = 0
from_le (b ∷ bs) = b + 256 * from_le bs

-- `std::memcpy(&value, data + pointer, n)`: a read that leaves the buffer is undefined.
unfoldable pub read_bytes : ℕ → Bytes → ℕ → Result Bytes
read_bytes n bytes pointer =
    if leb (pointer + n) (length bytes) then ok (take n (drop pointer bytes)) else err out_of_bounds

-- `std::memcpy(data + position, &value, n)` into bytes that are there.
unfoldable pub write_bytes : ℕ → Bytes → Bytes → Bytes
write_bytes position new bytes = take position bytes ++ (new ++ drop (position + length new) bytes)
