-- ===== src/Datatype/Enum.antt =====
-- datatype_types.h: EnumDatatype and BoolDatatype. The assertions of the debug build on a duplicate
-- key are hypotheses of the theorems.
pub mod Search
pub mod RoundTrip
use hwpp.Prelude.{
  ℕ, zero, suc, Bool, true, false, Option, none, some, [], if◌then◌else◌, ◌==◌, Bytes, bytes_eqb,
  bytes_eq, Outcome, ok, throw, undefined, ◌>>=◌, ◌>>◌,
}
use hwpp.Prelude.Int.{ℤ, pos, negsuc, z_eqb, int_eq}
use hwpp.Util.KeyedVector
use hwpp.Util.KeyedVector.{KeyedVector, OutOfRange, bounds_check, size, at, key_at}
use hwpp.Datatype.{DatatypeError, invalid, out_of_range}
use hwpp.Datatype.Multi.{unknown_value}

pub record EnumDatatype : Type 0 where
  pub m_values : KeyedVector Bytes ℤ
  pub m_unknown : Bytes
  pub m_custom_unknown : Bool

-- An exception of the container leaves the datatype as it is.
unfoldable pub escaping : {A : Type 0} → Outcome OutOfRange A → Outcome DatatypeError A
escaping (ok a) = ok a
escaping (throw e) = throw out_of_range
escaping undefined = undefined

-- The loop `for (i = 0; i < size(); i++)` up to the first index that passes a test; its first
-- argument is the number of indices left.
unfoldable pub search : ℕ → ℕ → (ℕ → Outcome DatatypeError Bool) → Outcome DatatypeError (Option ℕ)
search zero i test = ok none
search (suc n) i test =
    let rest = search n (suc i) test in do found ← test i; if found then ok (some i) else rest

-- `m_values[i] == value`
unfoldable pub value_is : ℤ → KeyedVector Bytes ℤ → ℕ → Outcome DatatypeError Bool
unfolding escaping at bounds_check size
value_is value kv i = do v ← escaping (at i kv); ok (v == value)

-- `m_values.key_at(i) == str`
unfoldable pub key_is : Bytes → KeyedVector Bytes ℤ → ℕ → Outcome DatatypeError Bool
unfolding escaping key_at bounds_check size bytes_eqb
key_is str kv i = do k ← escaping (key_at i kv); ok (k == str)

unfoldable pub evaluate : ℤ → EnumDatatype → Outcome DatatypeError Bytes
unfolding search value_is escaping key_at bounds_check size unknown_value
evaluate value e = do
  found ← search (size e.m_values) 0 (value_is value e.m_values)
  elim found [
    | some i ↦ escaping (key_at i e.m_values)
    | none ↦ ok (if e.m_custom_unknown then e.m_unknown else unknown_value value)
  ]

unfoldable pub lookup_string : Bytes → EnumDatatype → Outcome DatatypeError ℤ
unfolding search key_is escaping at bounds_check size
lookup_string str e = do
  found ← search (size e.m_values) 0 (key_is str e.m_values)
  elim found [ some i ↦ escaping (at i e.m_values) | none ↦ throw invalid ]

unfoldable pub lookup_value : ℤ → EnumDatatype → Outcome DatatypeError ℤ
unfolding search value_is escaping at bounds_check size
lookup_value value e = do
  found ← search (size e.m_values) 0 (value_is value e.m_values)
  elim found [ some i ↦ escaping (at i e.m_values) | none ↦ throw invalid ]

-- `EnumDatatype()`
unfoldable pub blank : EnumDatatype
unfolding KeyedVector.clear
blank = record { m_values = KeyedVector.clear; m_unknown = []; m_custom_unknown = false }

unfoldable pub add_value : Bytes → ℤ → EnumDatatype → EnumDatatype
unfolding KeyedVector.insert bytes_eqb
add_value name value e = record e { m_values = KeyedVector.insert name value e.m_values }

unfoldable pub set_unknown : Bytes → EnumDatatype → EnumDatatype
set_unknown name e = record e { m_unknown = name; m_custom_unknown = true }

-- `BoolDatatype(true_str, false_str)`
unfoldable pub bool_datatype : Bytes → Bytes → EnumDatatype
unfolding add_value set_unknown blank
bool_datatype true_str false_str =
    set_unknown true_str (add_value false_str (pos 0) (add_value true_str (pos 1) blank))

-- `BoolDatatype::lookup(value)`
unfoldable pub bool_lookup_value : ℤ → ℤ
bool_lookup_value value = if value == pos 0 then pos 0 else pos 1
