-- ===== src/Datatype.antt =====
-- datatype.h: what a datatype promises, the default comparison and test; its kinds are in
-- datatype_types.h. A value is an integer of any size.
pub mod Compare
pub mod Multi
pub mod Enum
pub mod Kinds
use hwpp.Prelude.{if◌then◌else◌, Bytes, bytes_eq, Outcome, ok, ◌>>=◌, ◌>>◌}
use hwpp.Prelude.Int.{ℤ, pos, negsuc, ◌-ℤ◌, z_ltb}

-- `Datatype::InvalidError`, or an exception of a container.
pub data DatatypeError : Type 0 where
  invalid out_of_range : DatatypeError

-- The virtual functions, `lookup` by string and by value.
pub record Datatype : Type 0 where
  pub evaluate : ℤ → Outcome DatatypeError Bytes
  pub lookup_string : Bytes → Outcome DatatypeError ℤ
  pub lookup_value : ℤ → Outcome DatatypeError ℤ

-- The sign that `compare` returns for a difference.
unfoldable pub sign_of : ℤ → ℤ
sign_of result =
    if z_ltb result (pos 0) then negsuc 0 else if z_ltb (pos 0) result then pos 1 else pos 0

unfoldable pub compare_string : Datatype → ℤ → Bytes → Outcome DatatypeError ℤ
unfolding sign_of
compare_string d lhs rhs = do value ← d.lookup_string rhs; ok (sign_of (lhs -ℤ value))

unfoldable pub compare_value : Datatype → ℤ → ℤ → Outcome DatatypeError ℤ
unfolding sign_of
compare_value d lhs rhs = do value ← d.lookup_value rhs; ok (sign_of (lhs -ℤ value))
