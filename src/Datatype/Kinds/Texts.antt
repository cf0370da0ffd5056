-- ===== src/Datatype/Kinds/Texts.antt =====
-- Strings as values, and transformed datatypes.
use hwpp.Prelude.{
  ℕ, ◌*◌, ◌^◌, ◌≤◌, ◌≡◌, refl, sym, ap, ◌∙◌, some, arith, length, Bytes, bytes_eq, ok, ◌>>=◌,
}
use hwpp.Prelude.Int.{ℤ}
use hwpp.Util.BitBuffer.{
  byte_count, count_bytes, to_bitbuffer, of_bitbuffer, reset_from_data, raw_buffer,
}
use hwpp.Util.BitBuffer.Fill.{reset_from_data-take}
use hwpp.Util.BitBuffer.Number.{
  le_bytes, width_bytes, of_bitbuffer-to_bitbuffer_whole, to_bitbuffer-le_bytes, byte_count-mul,
  length-le_bytes, take-le_bytes,
}
use hwpp.Datatype.{Datatype}
use hwpp.Datatype.Kinds.{string_evaluate, string_lookup, transform}

-- The buffer that `string_lookup` makes of the bytes of a number is the one that the number is
-- written to.
same_buffer :
    (val : ℕ)
    → count_bytes val val ≤ 2 ^ 31
    → reset_from_data
        (length (le_bytes (count_bytes val val) val) * 8)
        (some (le_bytes (count_bytes val val) val))
        raw_buffer
      ≡ to_bitbuffer 0 val
unfolding width_bytes count_bytes
same_buffer val h =
    let n = count_bytes val val in
    let size_is = length-le_bytes n val in
    let bytes_are : byte_count (length (le_bytes n val) * 8) ≡ n =
      ap (λ x. byte_count (x * 8)) size_is ∙ byte_count-mul n (omega (arith, h)) in
    reset_from_data-take (length (le_bytes n val) * 8) (le_bytes n val) raw_buffer
      (omega (arith, bytes_are, size_is))
    ∙ rw (bytes_are, size_is, take-le_bytes n val) (sym (to_bitbuffer-le_bytes 0 val h))

-- A value that is not negative evaluates to a string that looks up to the value again, if the value
-- has at most 2^31 bytes.
string_lookup-string_evaluate :
    (val : ℕ)
    → count_bytes val val ≤ 2 ^ 31
    → (str : Bytes) × (string_evaluate val ≡ ok str) × (string_lookup str ≡ ok val)
unfolding string_evaluate string_lookup width_bytes count_bytes
string_lookup-string_evaluate val h =
    let (b, written, back) = of_bitbuffer-to_bitbuffer_whole val h in
    let n = count_bytes val val in
    (
      le_bytes n val,
      ap (λ o. o >>= λ bits. ok bits.m_data) (to_bitbuffer-le_bytes 0 val h),
      ap (λ o. o >>= of_bitbuffer) (same_buffer val h ∙ written) ∙ back,
    )

-- A TransformDatatype looks a string up as the encoding of what the real type looks it up as, and
-- evaluates that to the string again, if the real type does and decoding undoes the encoding.
transform-round :
    (real_type : Datatype) (decode_func encode_func : ℤ → ℤ) (str : Bytes) (cooked : ℤ)
    → real_type.lookup_string str ≡ ok cooked
    → real_type.evaluate cooked ≡ ok str
    → decode_func (encode_func cooked) ≡ cooked
    → (Datatype.lookup_string (transform real_type decode_func encode_func) str
        ≡ ok (encode_func cooked))
      × (Datatype.evaluate (transform real_type decode_func encode_func) (encode_func cooked)
          ≡ ok str)
unfolding transform
transform-round real_type decode_func encode_func str cooked looked shown inverse =
    (rw looked refl, rw inverse shown)
