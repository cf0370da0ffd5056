-- ===== src/FakeLanguage/Types.antt =====
-- fake_language.cc and fake_language.h: the definition of datatypes in the current context, and the
-- lists of names and ranges that they are made from.
use hwpp.Prelude.{
  false, Option, none, some, List, [], ◌∷◌, ◌++◌, if◌then◌else◌, ◌==◌, Bytes, bytes_eqb, bytes_eq,
  Outcome, ok, throw, undefined,
}
use hwpp.Prelude.Int.{ℤ}
use hwpp.Util.KeyedVector
use hwpp.Util.KeyedVector.{KeyedVector}
use hwpp.Datatype.{Datatype, DatatypeError}
use hwpp.Datatype.Enum.{EnumDatatype, bool_datatype, bool_lookup_value}
use hwpp.Datatype.Enum
use hwpp.Datatype.Multi.{MultiDatatype}
use hwpp.Datatype.Multi
use hwpp.Datatype.Kinds.{int_evaluate, int_lookup, transform}
use hwpp.Scope.{add_datatype, scope_at}
use hwpp.Runtime.{current_context}
use hwpp.Runtime.Action.{
  Act, pure, raise, lift, ◌>>=◌, ◌>>◌, parse_error, datatype_error, assertion,
}
use hwpp.Runtime.Access.{World}
use hwpp.FakeLanguage.{is_token, ask, set_store, check_writable}
use hwpp.FakeLanguage.Define.{update_scope, datatype_by_name}

-- The virtual functions of an IntDatatype, an EnumDatatype, a BoolDatatype and a MultiDatatype.
unfoldable pub int_type : (Bytes → Option ℤ) → Bytes → Datatype
unfolding int_evaluate int_lookup
int_type parse_value units = record {
  evaluate = λ value. ok (int_evaluate units value);
  lookup_string = int_lookup parse_value;
  lookup_value = λ value. ok value;
}

unfoldable pub enum_type : EnumDatatype → Datatype
unfolding Enum.evaluate Enum.lookup_string Enum.lookup_value
enum_type e = record {
  evaluate = λ value. Enum.evaluate value e;
  lookup_string = λ str. Enum.lookup_string str e;
  lookup_value = λ value. Enum.lookup_value value e;
}

unfoldable pub bool_type : EnumDatatype → Datatype
unfolding Enum.evaluate Enum.lookup_string bool_lookup_value
bool_type e = record {
  evaluate = λ value. Enum.evaluate value e;
  lookup_string = λ str. Enum.lookup_string str e;
  lookup_value = λ value. ok (bool_lookup_value value);
}

unfoldable pub multi_type : MultiDatatype → Datatype
unfolding Multi.evaluate Multi.lookup_string Multi.lookup_value
multi_type m = record {
  evaluate = λ value. Multi.evaluate value m;
  lookup_string = λ str. Multi.lookup_string str m;
  lookup_value = λ value. Multi.lookup_value value m;
}

-- `fkl_kvpair`, and the list that `operator,` makes of pairs, with the keys that a WARN reported.
pub record KvPair : Type 0 where
  pub key : Bytes
  pub value : ℤ

unfoldable pub kv_pair : KvPair → KvPair → KeyedVector Bytes ℤ × List Bytes
unfolding KeyedVector.insert KeyedVector.clear bytes_eqb
kv_pair lhs rhs = (
  KeyedVector.insert rhs.key rhs.value (KeyedVector.insert lhs.key lhs.value KeyedVector.clear),
  (if lhs.key == rhs.key then rhs.key ∷ [] else []),
)

unfoldable pub kv_append :
    KeyedVector Bytes ℤ × List Bytes → KvPair → KeyedVector Bytes ℤ × List Bytes
unfolding KeyedVector.insert KeyedVector.has_key bytes_eqb
kv_append (kvs, warned) rhs = (
  KeyedVector.insert rhs.key rhs.value kvs,
  (if KeyedVector.has_key rhs.key kvs then warned ++ rhs.key ∷ [] else warned),
)

-- `fkl_range`
pub record FklRange : Type 0 where
  pub type : Datatype
  pub low : ℤ
  pub high : ℤ

-- The loop of `fkl_multi`.
unfoldable pub add_ranges : List FklRange → MultiDatatype → Outcome DatatypeError MultiDatatype
unfolding Multi.add_range
add_ranges [] m = ok m
add_ranges (r ∷ rs) m = elim (Multi.add_range r.type r.low r.high m) [
  | ok m' ↦ add_ranges rs m'
  | throw e ↦ throw e
  | undefined ↦ undefined
]

module _ {B P S : Type 0} where
  unfoldable pub validate_type_name : Bytes → Act (World B P S) (Unit {0})
  unfolding is_token
  validate_type_name name = if is_token name then pure tt else raise parse_error

  -- The end of each definition: a datatype with a name is added to the current scope.
  unfoldable pub name_datatype : Bytes → Datatype → Act (World B P S) Datatype
  unfolding validate_type_name current_context add_datatype scope_at bytes_eqb
  name_datatype name d = if name == [] then pure d else do
    validate_type_name name
    ctxt ← current_context
    st ← ask (update_scope (add_datatype name d) ctxt.m_scope)
    set_store st
    pure d

  unfoldable pub fkl_int : (Bytes → Option ℤ) → Bytes → Bytes → Act (World B P S) Datatype
  unfolding check_writable int_type name_datatype
  fkl_int parse_value name units = do
    check_writable
    name_datatype name (int_type parse_value units)

  unfoldable pub fkl_enum : Bytes → KeyedVector Bytes ℤ → Act (World B P S) Datatype
  unfolding check_writable enum_type name_datatype
  fkl_enum name kvlist = do
    check_writable
    name_datatype name
        (enum_type (record { m_values = kvlist; m_unknown = []; m_custom_unknown = false }))

  unfoldable pub fkl_bool : Bytes → Bytes → Bytes → Act (World B P S) Datatype
  unfolding check_writable bool_type bool_datatype name_datatype
  fkl_bool name true_str false_str = do
    check_writable
    name_datatype name (bool_type (bool_datatype true_str false_str))

  unfoldable pub fkl_multi : Bytes → List FklRange → Act (World B P S) Datatype
  unfolding check_writable add_ranges multi_type name_datatype
  fkl_multi name rangelist = do
    check_writable
    multi ← lift datatype_error (add_ranges rangelist (record { m_parts = [] }))
    name_datatype name (multi_type multi)

  -- `fkl_xform` of a datatype, and of the name of one; `none` is a null pointer.
  unfoldable pub fkl_xform :
      Bytes → Option Datatype → (ℤ → ℤ) → (ℤ → ℤ) → Act (World B P S) Datatype
  unfolding check_writable transform name_datatype
  fkl_xform name none decode_func encode_func = do check_writable; raise assertion
  fkl_xform name (some real_type) decode_func encode_func = do
    check_writable
    name_datatype name (transform real_type decode_func encode_func)

  unfoldable pub fkl_xform_named : Bytes → Bytes → (ℤ → ℤ) → (ℤ → ℤ) → Act (World B P S) Datatype
  unfolding datatype_by_name fkl_xform
  fkl_xform_named name real_type decode_func encode_func = do
    found ← datatype_by_name real_type
    fkl_xform name found decode_func encode_func
