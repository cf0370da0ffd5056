-- ===== src/Util/BitBuffer/Fill.antt =====
-- A buffer has as many bytes as its width needs.
use hwpp.Prelude.{
  ℕ, zero, suc, ◌≤◌, ◌≡◌, refl, inl, inr, false, some, [], ◌∷◌, append-nil, arith, ltb, Bool-cases,
  length, take, drop, replicate, Bytes, bytes_eq, ok,
}
use hwpp.Util.BitBuffer.{
  BitBuffer, byte_count, resize, memset, memcpy, fill, fill_from_data, reset, reset_from_data,
}

drop-resize : (n : ℕ) (buf : Bytes) → drop n (resize n buf) ≡ []
unfolding resize
drop-resize zero buf = refl
drop-resize (suc n) [] = drop-resize n []
drop-resize (suc n) (x ∷ buf) = drop-resize n buf

-- `reset` always returns, whatever the buffer held, with the width and as many copies of the
-- pattern as the width has bytes.
pub reset-replicate :
    (bits pattern : ℕ) (b : BitBuffer)
    → reset bits pattern b
      ≡ ok (record {
        m_data = replicate (byte_count bits) pattern;
        m_bits = bits;
        m_bytes = byte_count bits;
      })
unfolding reset fill memset
reset-replicate bits pattern b = elim (Bool-cases (ltb 0 (byte_count bits))) [
  | inl some_bytes ↦
      rw (some_bytes, memset, drop-resize (byte_count bits) b.m_data, append-nil) refl
  | inr no_bytes ↦
      let zero_bytes : byte_count bits ≡ 0 = ground (arith, no_bytes) in rw (zero_bytes) refl
]

-- `reset_from_data` takes from a source that is long enough the bytes that the width needs.
pub reset_from_data-take :
    (bits : ℕ) (buf : Bytes) (b : BitBuffer)
    → byte_count bits ≤ length buf
    → reset_from_data bits (some buf) b
      ≡ ok
          (record { m_data = take (byte_count bits) buf; m_bits = bits; m_bytes = byte_count bits })
unfolding reset_from_data fill_from_data memcpy
reset_from_data-take bits buf b long = elim (Bool-cases (ltb 0 (byte_count bits))) [
  | inl some_bytes ↦
      let enough : ltb (length buf) (byte_count bits) ≡ false = ground (arith, long) in
      rw (some_bytes, enough, memcpy, drop-resize (byte_count bits) b.m_data, append-nil) refl
  | inr no_bytes ↦
      let zero_bytes : byte_count bits ≡ 0 = ground (arith, no_bytes) in rw (zero_bytes) refl
]
