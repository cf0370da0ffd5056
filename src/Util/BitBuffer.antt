-- ===== src/Util/BitBuffer.antt =====
-- util/bit_buffer.h and util/bit_buffer.cc: a buffer of a fixed bit width, and the conversions of
-- util/bignum.cc between it and a number. A failed ASSERT is `throw assertion`.
pub mod Fill
pub mod Number
use hwpp.Prelude.{
  ℕ, zero, suc, ◌+◌, ◌*◌, ◌/◌, ◌%◌, ◌^◌, not, Option, none, some, [], ◌∷◌, ◌++◌, ltb, eqb,
  if◌then◌else◌, length, set, take, drop, replicate, Bytes, bytes_eq, Outcome, ok, throw, undefined,
  ◌>>=◌, ◌>>◌, raw,
}

pub record BitBuffer : Type 0 where
  pub m_data : Bytes
  pub m_bits : ℕ
  pub m_bytes : ℕ

pub data AssertError : Type 0 where
  assertion : AssertError

-- `(m_bits+(CHAR_BIT-1))/CHAR_BIT`, on a 64-bit size_t.
unfoldable pub byte_count : ℕ → ℕ
byte_count bits = (bits + 7) % 2 ^ 64 / 8

-- `std::vector::resize`
unfoldable pub resize : ℕ → Bytes → Bytes
resize zero buf = []
resize (suc n) [] = 0 ∷ resize n []
resize (suc n) (x ∷ buf) = x ∷ resize n buf

-- `memset` and `memcpy` of the first bytes of a buffer that has so many.
unfoldable pub memset : ℕ → ℕ → Bytes → Bytes
memset n pattern buf = replicate n pattern ++ drop n buf

unfoldable pub memcpy : ℕ → Bytes → Bytes → Bytes
memcpy n source buf = take n source ++ drop n buf

unfoldable pub fill : ℕ → BitBuffer → Outcome AssertError BitBuffer
unfolding memset
fill pattern b =
    if ltb 0 b.m_bytes
    then ok (record b { m_data = memset b.m_bytes pattern b.m_data })
    else throw assertion

-- `fill_from_data`, with `none` for a null pointer; a source that is too short is read past its end.
unfoldable pub fill_from_data : Option Bytes → BitBuffer → Outcome AssertError BitBuffer
unfolding memcpy
fill_from_data none b = throw assertion
fill_from_data (some buf) b =
    if not (ltb 0 b.m_bytes)
    then throw assertion
    else if ltb (length buf) b.m_bytes
    then undefined
    else ok (record b { m_data = memcpy b.m_bytes buf b.m_data })

-- `reset(bits, pattern)`
unfoldable pub reset : ℕ → ℕ → BitBuffer → Outcome AssertError BitBuffer
unfolding byte_count resize fill
reset bits pattern b =
    if ltb 0 (byte_count bits)
    then fill pattern (record {
      m_data = resize (byte_count bits) b.m_data;
      m_bits = bits;
      m_bytes = byte_count bits;
    })
    else ok (record { m_data = []; m_bits = bits; m_bytes = byte_count bits })

unfoldable pub reset_from_data : ℕ → Option Bytes → BitBuffer → Outcome AssertError BitBuffer
unfolding byte_count resize fill_from_data
reset_from_data bits buf b =
    if ltb 0 (byte_count bits)
    then fill_from_data buf (record {
      m_data = resize (byte_count bits) b.m_data;
      m_bits = bits;
      m_bytes = byte_count bits;
    })
    else ok (record { m_data = []; m_bits = bits; m_bytes = byte_count bits })

-- A buffer before its constructor has run.
abbrev pub raw_buffer : BitBuffer
raw_buffer = record { m_data = []; m_bits = 0; m_bytes = 0 }

-- The loop of `BigInt::to_bitbuffer` that counts the bytes of a number; the fuel is the number.
unfoldable pub count_bytes : ℕ → ℕ → ℕ
count_bytes zero tmp = 0
count_bytes (suc fuel) tmp =
    let rest = count_bytes fuel (tmp / 256) in if eqb tmp 0 then 0 else suc rest

-- `byte_at(int index)`: a size_t is cut to an int, and an index that is negative or past the end is
-- undefined.
unfoldable pub byte_at : ℕ → Bytes → Outcome AssertError ℕ
byte_at index buf =
    let low = index % 2 ^ 32 in
    if ltb low (2 ^ 31) then if ltb low (length buf) then ok low else undefined else undefined

-- The loop that stores the bytes, the lowest first.
unfoldable pub store_bytes : ℕ → ℕ → ℕ → Bytes → Outcome AssertError Bytes
unfolding byte_at
store_bytes zero i val buf = ok buf
store_bytes (suc n) i val buf = do
  place ← byte_at i buf
  store_bytes n (suc i) (val / 256) (set buf place (val % 256))

-- `BigInt::to_bitbuffer(bits)` of a number that is not negative.
unfoldable pub to_bitbuffer : ℕ → ℕ → Outcome AssertError BitBuffer
unfolding count_bytes store_bytes reset
to_bitbuffer bits val =
    let bytes = if ltb 0 bits then (bits + 7) % 2 ^ 64 / 8 else count_bytes val val in
    do
      b ← reset (bytes * 8) 0 raw_buffer
      stored ← store_bytes bytes 0 val b.m_data
      ok (record b { m_data = stored })

-- The loop of `BigInt::operator=(const BitBuffer &)`, the highest byte first.
unfoldable pub load_bytes : ℕ → ℕ → Bytes → Outcome AssertError ℕ
unfolding byte_at
load_bytes zero acc buf = ok acc
load_bytes (suc i) acc buf = do
  place ← byte_at i buf
  byte ← raw buf place
  load_bytes i (acc * 256 + byte) buf

unfoldable pub of_bitbuffer : BitBuffer → Outcome AssertError ℕ
unfolding load_bytes
of_bitbuffer b = load_bytes b.m_bytes 0 b.m_data
