-- ===== src/Datatype/Kinds.antt =====
-- datatype_types.h: BitmaskDatatype, StringDatatype, IntDatatype, TransformDatatype and
-- FixedDatatype. The values of bit masks, strings and fixed-point numbers are not negative.
pub mod Texts
use hwpp.Prelude.{
  ℕ, zero, suc, ◌-◌, ◌*◌, ◌/◌, ◌%◌, ◌^◌, bit_and, bit_xor, Bool, ◌&&◌, Option, none, some, [], ◌∷◌,
  ◌++◌, ltb, eqb, if◌then◌else◌, ◌==◌, length, Bytes, codes, bytes_eqb, bytes_eq, Outcome, ok,
  throw, ◌>>=◌, ◌>>◌,
}
use hwpp.Prelude.Int.{ℤ, pos, negsuc, int_to_string, decimal, int_eq}
use hwpp.Util.KeyedVector.{KeyedVector, OutOfRange, size, at, key_at, bounds_check}
use hwpp.Util.KeyedVector
use hwpp.Util.BitBuffer.{
  BitBuffer, AssertError, to_bitbuffer, of_bitbuffer, reset_from_data, raw_buffer,
}
use hwpp.Datatype.{DatatypeError, invalid, out_of_range, Datatype}
use hwpp.Datatype.Enum.{escaping, search}

-- `m_bits` of a BitmaskDatatype, whose values are bit numbers.
pub record BitmaskDatatype : Type 0 where
  pub m_bits : KeyedVector Bytes ℕ

-- A name behind what is there already.
unfoldable pub with_word : Bytes → Bytes → Bytes
with_word [] word = word
with_word ret word = ret ++ b' ' ∷ word

-- The test of one named bit: its name is added, and it is taken off the value.
unfoldable pub take_bit : ℕ → ℕ → BitmaskDatatype → ℕ → Bytes → Outcome DatatypeError (Bytes × ℕ)
unfolding escaping key_at bounds_check with_word
take_bit b i d myval ret =
    let left = bit_xor myval (bit_and myval (2 ^ b)) in
    let named = escaping (key_at i d.m_bits) >>= λ name. ok (with_word ret name, left) in
    if eqb (bit_and myval (2 ^ b)) 0 then ok (ret, myval) else named

-- The loop of `evaluate` over the named bits from an index on, with the number of bits left; it
-- returns the text and the bits that no name took.
unfoldable pub named_bits : ℕ → ℕ → BitmaskDatatype → ℕ → Bytes → Outcome DatatypeError (Bytes × ℕ)
unfolding escaping at bounds_check take_bit
named_bits zero i d myval ret = ok (ret, myval)
named_bits (suc n) i d myval ret =
    let rest = named_bits n (suc i) d in
    let next = escaping (at i d.m_bits) >>= λ b.
    take_bit b i d myval ret >>= λ taken. rest taken.1 taken.0 in
    if eqb myval 0 then ok (ret, myval) else next

-- The loop of `evaluate` over the bits without a name; the fuel is the value.
unfoldable pub unknown_bits : ℕ → ℕ → ℕ → Bytes → Bytes
unfolding with_word decimal
unknown_bits zero unknown myval ret = ret
unknown_bits (suc fuel) unknown myval ret =
    let rest = unknown_bits fuel (suc unknown) (myval / 2) in
    if eqb myval 0
    then ret
    else if eqb (myval % 2) 1
    then rest (with_word ret (codes "<!" ++ decimal unknown ++ codes "!>"))
    else rest ret

-- `BitmaskDatatype::evaluate`
unfoldable pub bitmask_evaluate : ℕ → BitmaskDatatype → Outcome DatatypeError Bytes
unfolding named_bits unknown_bits size
bitmask_evaluate value d = do
  (ret, myval) ← named_bits (size d.m_bits) 0 d value []
  ok (unknown_bits myval 0 myval ret)

-- `m_bits.key_at(i) == str` and `m_bits.at(i) == value`
unfoldable pub bit_key_is : Bytes → BitmaskDatatype → ℕ → Outcome DatatypeError Bool
unfolding escaping key_at bounds_check bytes_eqb
bit_key_is str d i = do k ← escaping (key_at i d.m_bits); ok (k == str)

unfoldable pub bit_value_is : ℕ → BitmaskDatatype → ℕ → Outcome DatatypeError Bool
unfolding escaping at bounds_check
bit_value_is value d i = do b ← escaping (at i d.m_bits); ok (eqb b value)

-- `BitmaskDatatype::lookup(str)` and `BitmaskDatatype::lookup(value)`
unfoldable pub bitmask_lookup_string : Bytes → BitmaskDatatype → Outcome DatatypeError ℕ
unfolding search bit_key_is escaping at bounds_check size
bitmask_lookup_string str d = do
  found ← search (size d.m_bits) 0 (bit_key_is str d)
  elim found [ some i ↦ escaping (at i d.m_bits) | none ↦ throw invalid ]

unfoldable pub bitmask_lookup_value : ℕ → BitmaskDatatype → Outcome DatatypeError ℕ
unfolding search bit_value_is escaping at bounds_check size
bitmask_lookup_value value d = do
  found ← search (size d.m_bits) 0 (bit_value_is value d)
  elim found [ some i ↦ escaping (at i d.m_bits) | none ↦ throw invalid ]

-- `BitmaskDatatype::add_bit`
unfoldable pub add_bit : Bytes → ℕ → BitmaskDatatype → BitmaskDatatype
unfolding KeyedVector.insert bytes_eqb
add_bit name value d = record { m_bits = KeyedVector.insert name value d.m_bits }

-- `StringDatatype::evaluate`: the bytes of the value, the lowest first.
unfoldable pub string_evaluate : ℕ → Outcome AssertError Bytes
unfolding to_bitbuffer
string_evaluate value = do bits ← to_bitbuffer 0 value; ok bits.m_data

-- `StringDatatype::lookup(str)`, with BYTES_TO_BITS written out.
unfoldable pub string_lookup : Bytes → Outcome AssertError ℕ
unfolding reset_from_data of_bitbuffer
string_lookup str = do
  bits ← reset_from_data (length str * 8) (some str) raw_buffer
  of_bitbuffer bits

-- `IntDatatype::evaluate`
unfoldable pub int_evaluate : Bytes → ℤ → Bytes
unfolding int_to_string
int_evaluate units value =
    if eqb (length units) 0 then int_to_string value else int_to_string value ++ b' ' ∷ units

module _ (parse_value : Bytes → Option ℤ) where
  -- `IntDatatype::lookup(str)` and `FixedDatatype::lookup(str)`, with `Value(str)` a parameter.
  unfoldable pub int_lookup : Bytes → Outcome DatatypeError ℤ
  int_lookup str = elim (parse_value str) [ some v ↦ ok v | none ↦ throw invalid ]

module _ (real_type : Datatype) (decode_func encode_func : ℤ → ℤ) where
  -- `TransformDatatype`, as a datatype of its own.
  unfoldable pub transform : Datatype
  transform = record {
    evaluate = λ raw_value. real_type.evaluate (decode_func raw_value);
    lookup_string = λ cooked. real_type.lookup_string cooked >>= λ tmp. ok (encode_func tmp);
    lookup_value = λ cooked. real_type.lookup_value cooked >>= λ tmp. ok (encode_func tmp);
  }

-- The loop of `FixedDatatype::evaluate` that drops trailing zeros; the fuel is the number.
unfoldable pub drop_zeros : ℕ → ℕ → ℕ
drop_zeros zero decimal_part = decimal_part
drop_zeros (suc fuel) decimal_part =
    let rest = drop_zeros fuel (decimal_part / 10) in
    if ltb 0 decimal_part && eqb (decimal_part % 10) 0 then rest else decimal_part

-- `FixedDatatype::evaluate`
unfoldable pub fixed_evaluate : ℕ → Bytes → ℕ → Bytes
unfolding drop_zeros decimal
fixed_evaluate m_nbits units value =
    let numer = bit_and value (2 ^ m_nbits - 1) in
    let decimal_part = numer * 10 ^ m_nbits / 2 ^ m_nbits in
    let ret =
      decimal (value / 2 ^ m_nbits) ++ b'.' ∷ decimal (drop_zeros decimal_part decimal_part) in
    if eqb (length units) 0 then ret else ret ++ b' ' ∷ units
