-- ===== src/Word.antt =====
-- hwpp.h: widths in bits and bytes, and bit masks.
use hwpp.Prelude.{ℕ, ◌+◌, ◌-◌, ◌*◌, ◌/◌, ◌%◌, ◌^◌, ◌≤◌, ◌<◌, arith}

-- `BYTES_TO_BITS`, for counts whose product fits the 32 bits of a BitWidth.
unfoldable pub bytes_to_bits : ℕ → ℕ
bytes_to_bits bytes = bytes * 8 % 2 ^ 32

-- `BITS_TO_BYTES`: BitWidth is 32 bits wide, so the sum wraps.
unfoldable pub bits_to_bytes : ℕ → ℕ
bits_to_bytes bits = (bits + 7) % 2 ^ 32 / 8

-- `MASK`
unfoldable pub mask : ℕ → ℕ
mask nbits = 1 * 2 ^ nbits - 1

-- Rounding a width up to whole bytes loses no bits and adds fewer than eight, for every width that
-- a BitWidth can hold but the last seven, for which the sum wraps.
bytes_to_bits-bits_to_bytes :
    (bits : ℕ)
    → bits + 7 < 2 ^ 32
    → (bits ≤ bytes_to_bits (bits_to_bytes bits)) × (bytes_to_bits (bits_to_bytes bits) < bits + 8)
unfolding bytes_to_bits bits_to_bytes
bytes_to_bits-bits_to_bytes bits h = omega arith
