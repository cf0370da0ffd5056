-- ===== src/Tests/BitBuffers.antt =====
-- util/bit_buffer.h with numbers of a few bytes.
use hwpp.Prelude.{◌%◌, ◌^◌, ◌≤◌, ◌≡◌, refl, [], arith, ok, undefined}
use hwpp.Util.BitBuffer.{BitBuffer, byte_at, byte_count, count_bytes, to_bitbuffer, of_bitbuffer}
use hwpp.Util.BitBuffer.Number.{width_bytes, of_bitbuffer-to_bitbuffer}

two_bytes : byte_count 12 ≤ 3
unfolding byte_count
two_bytes = omega arith

narrow : width_bytes 12 70000 ≤ 2 ^ 31
unfolding width_bytes
narrow = omega arith

of_bitbuffer-to_bitbuffer_example :
    (b : BitBuffer) × (to_bitbuffer 12 70000 ≡ ok b)
    × (of_bitbuffer b ≡ ok (70000 % 256 ^ width_bytes 12 70000))
of_bitbuffer-to_bitbuffer_example = of_bitbuffer-to_bitbuffer 12 70000 narrow

counted : count_bytes 7 7 ≤ 2 ^ 31
unfolding count_bytes
counted = omega arith

-- The index 2^31 is a negative int.
negative_index : byte_at (2 ^ 31) [] ≡ undefined
unfolding byte_at
negative_index = refl
