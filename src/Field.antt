-- ===== src/Field.antt =====
-- field.h and field_types.h: fields, which read and write a value and show it by a datatype. The
-- values written are not negative. A field of procedures calls into device files and is left out.
pub mod Shown
use hwpp.Prelude.{Bytes, Outcome, ◌>>=◌}
use hwpp.Prelude.Int.{ℤ, pos}
use Prim.Native.Nat.{ℕ}
use hwpp.RegBits
use hwpp.RegBits.{RegBits}
use hwpp.Datatype.{Datatype, DatatypeError, compare_string, compare_value}
use hwpp.Datatype

-- A DirectField or a ConstantField.
pub data Field (S : Type 0) : Type 0 where
  direct_field : Datatype → RegBits S → Field S
  constant_field : Datatype → ℤ → Field S

module _ {S : Type 0} where
  -- `m_datatype`
  unfoldable pub datatype_of : Field S → Datatype
  datatype_of (direct_field datatype regbits) = datatype
  datatype_of (constant_field datatype value) = datatype

  unfoldable pub lookup_string : Field S → Bytes → Outcome DatatypeError ℤ
  unfolding datatype_of
  lookup_string f str = Datatype.lookup_string (datatype_of f) str

  unfoldable pub lookup_value : Field S → ℤ → Outcome DatatypeError ℤ
  unfolding datatype_of
  lookup_value f value = Datatype.lookup_value (datatype_of f) value

module _ {S : Type 0} (popcount : ℕ → ℕ) where
  unfoldable pub read : Field S → S → ℤ
  unfolding RegBits.read
  read (direct_field datatype regbits) s = pos (RegBits.read popcount regbits s)
  read (constant_field datatype value) s = value

  -- A constant field discards what is written.
  unfoldable pub write : Field S → ℕ → S → S
  unfolding RegBits.write
  write (direct_field datatype regbits) value s = RegBits.write popcount regbits value s
  write (constant_field datatype constant) value s = s

  unfoldable pub evaluate : Field S → S → Outcome DatatypeError Bytes
  unfolding read datatype_of
  evaluate f s = Datatype.evaluate (datatype_of f) (read f s)

  -- `compare(str)` and `compare(value)`
  unfoldable pub compare_field_string : Field S → Bytes → S → Outcome DatatypeError ℤ
  unfolding read datatype_of compare_string
  compare_field_string f rhs s = compare_string (datatype_of f) (read f s) rhs

  unfoldable pub compare_field_value : Field S → ℤ → S → Outcome DatatypeError ℤ
  unfolding read datatype_of compare_value
  compare_field_value f rhs s = compare_value (datatype_of f) (read f s) rhs
