-- ===== src/Language/Variable/Typed.antt =====
-- Values have the type that they say they have.
use hwpp.Prelude.{◌≡◌, refl, true, if◌then◌else◌, ok, throw}
use hwpp.Language.Types.{
  LanguageType, typed, LanguageTypes, nil, cons, prim_bool, prim_fldfmt, prim_func, prim_int,
  prim_list, prim_string, prim_tuple, prim_var, is_assignable,
}
use hwpp.Language.Variable.{
  type_mismatch, Datum, datum, Content, bool_content, fldfmt_content, undef_func, var_content,
  func_content, int_content, string_content, list_content, tuple_content, Contents, none_left,
  next_variable, primitive_of, arguments_of, type_of, default_datum, take_type, init_tuple,
  check_type_primitive, copy_datum, Variable, assign_from,
}

-- The member that a value has is the one of its type, and the contents of a list or a tuple are typed
-- and can be assigned to the first type argument.
unfoldable mutual
  unfolding primitive_of arguments_of

  pub IsTyped : Datum → Type 0
  IsTyped (datum t content) = Holds t content

  pub Holds : LanguageType → Content → Type 0
  Holds t (bool_content v) = primitive_of t ≡ prim_bool
  Holds t fldfmt_content = primitive_of t ≡ prim_fldfmt
  Holds t undef_func = primitive_of t ≡ prim_func
  Holds t (func_content v) = primitive_of t ≡ prim_func
  Holds t (int_content v) = primitive_of t ≡ prim_int
  Holds t (list_content cs) = (primitive_of t ≡ prim_list) × Fits (arguments_of t) cs
  Holds t (string_content v) = primitive_of t ≡ prim_string
  Holds t (tuple_content cs) = (primitive_of t ≡ prim_tuple) × Fits (arguments_of t) cs
  Holds t var_content = primitive_of t ≡ prim_var

  pub Fits : LanguageTypes → Contents → Type 0
  Fits args none_left = Unit {0}
  Fits nil (next_variable d ds) = ⊥
  Fits (cons a args) (next_variable d ds) =
      (is_assignable a (type_of d) ≡ true) × IsTyped d × Fits (cons a args) ds

-- What the elements of a container satisfy by themselves.
unfoldable pub AllTyped : Contents → Type 0
unfolding IsTyped
AllTyped none_left = Unit {0}
AllTyped (next_variable d ds) = IsTyped d × AllTyped ds

pub default_datum-IsTyped : (t : LanguageType) → IsTyped (default_datum t)
unfolding IsTyped default_datum
default_datum-IsTyped (typed prim_bool c args) = refl
default_datum-IsTyped (typed prim_fldfmt c args) = refl
default_datum-IsTyped (typed prim_func c args) = refl
default_datum-IsTyped (typed prim_int c args) = refl
default_datum-IsTyped (typed prim_list c args) = (refl, tt)
default_datum-IsTyped (typed prim_string c args) = refl
default_datum-IsTyped (typed prim_tuple c args) = (refl, tt)
default_datum-IsTyped (typed prim_var c args) = refl

-- A copy of a typed value is the value.
pub copy_datum-same : (d : Datum) → IsTyped d → copy_datum d ≡ ok d
unfolding copy_datum IsTyped check_type_primitive
copy_datum-same (datum (typed p c args) (bool_content v)) h = rw h refl
copy_datum-same (datum (typed p c args) fldfmt_content) h = rw h refl
copy_datum-same (datum (typed p c args) undef_func) h = rw h refl
copy_datum-same (datum (typed p c args) (func_content v)) h = rw h refl
copy_datum-same (datum (typed p c args) (int_content v)) h = rw h refl
copy_datum-same (datum (typed p c args) (list_content cs)) h = rw (h.0) refl
copy_datum-same (datum (typed p c args) (string_content v)) h = rw h refl
copy_datum-same (datum (typed p c args) (tuple_content cs)) h = rw (h.0) refl
copy_datum-same (datum (typed p c args) var_content) h = rw h refl

-- An undefined value cannot become a tuple: the constructor takes its type for a list.
pub init_tuple-var :
    (t : LanguageType) (cs : Contents)
    → primitive_of t ≡ prim_var
    → init_tuple t cs ≡ throw type_mismatch
unfolding init_tuple take_type
init_tuple-var (typed p c args) cs h = rw h refl

-- An assignment to a variable that is not constant, of a variable with a typed value, returns the
-- variable with that value and of the same constness; a constant one refuses it.
pub assign_from-same :
    (v other : Variable)
    → IsTyped other.m_value
    → assign_from v other
      ≡ (if v.m_is_const then throw type_mismatch else ok (record v { m_value = other.m_value }))
unfolding assign_from
assign_from-same v other h = rw (copy_datum-same other.m_value h) refl
