-- ===== src/Language/Variable.antt =====
-- language/variable.h and language/variable.cc: the values of the definition language and the variables
-- that hold them. A Datum does not change once it is made, so variables that share one are as variables
-- with a copy each. A function is a number that names it.
pub mod Typed
use hwpp.Prelude.{
  ℕ, zero, suc, Bool, false, Option, none, some, [], if◌then◌else◌, Bytes, bytes_eq, Outcome, ok,
  throw, undefined, ◌>>=◌, ◌>>◌,
}
use hwpp.Prelude.Int.{ℤ, pos}
use hwpp.Language.Types.{
  LanguageType, typed, LanguageTypes, nil, cons, Primitive, prim_bool, prim_fldfmt, prim_func,
  prim_int, prim_list, prim_string, prim_tuple, prim_var, Constness, non_const, constness_is_const,
  prim_eqb, is_assignable,
}
use hwpp.Language.Types

-- `Variable::TypeError`
pub data VariableError : Type 0 where
  type_mismatch : VariableError

-- `Variable::Datum`: its type and the member that is valid; the contents of a list or a tuple. What
-- `func_value` gives for a function that is not defined is `undef_func`.
mutual
  pub data Datum : Type 0 where
    datum : LanguageType → Content → Datum

  pub data Content : Type 0 where
    bool_content : Bool → Content
    fldfmt_content undef_func var_content : Content
    func_content : ℕ → Content
    int_content : ℤ → Content
    string_content : Bytes → Content
    list_content tuple_content : Contents → Content

  pub data Contents : Type 0 where
    none_left : Contents
    next_variable : Datum → Contents → Contents

unfoldable pub primitive_of : LanguageType → Primitive
primitive_of (typed p c args) = p

-- `argument(index)`, which checks nothing.
unfoldable pub argument : LanguageTypes → ℕ → Outcome VariableError LanguageType
argument nil index = undefined
argument (cons a args) zero = ok a
argument (cons a args) (suc index) = argument args index

unfoldable pub arguments_of : LanguageType → LanguageTypes
arguments_of (typed p c args) = args

unfoldable pub type_of : Datum → LanguageType
type_of (datum t content) = t

unfoldable pub is_undef : Datum → Bool
unfolding type_of primitive_of prim_eqb
is_undef d = prim_eqb (primitive_of (type_of d)) prim_var

-- `Datum(type)`
unfoldable pub default_content : Primitive → Content
default_content prim_bool = bool_content false
default_content prim_fldfmt = fldfmt_content
default_content prim_func = undef_func
default_content prim_int = int_content (pos 0)
default_content prim_list = list_content none_left
default_content prim_string = string_content []
default_content prim_tuple = tuple_content none_left
default_content prim_var = var_content

unfoldable pub default_datum : LanguageType → Datum
unfolding default_content primitive_of
default_datum t = datum t (default_content (primitive_of t))

-- What a constructor with a value makes of the type: `var` becomes the type of the value, without
-- constness, and another type than that of the value is an error.
unfoldable pub take_type : Primitive → Primitive → LanguageType → Outcome VariableError LanguageType
unfolding prim_eqb primitive_of Types.reinit
take_type from_var wanted t =
    let t' = if prim_eqb (primitive_of t) prim_var then Types.reinit from_var non_const t else t in
    if prim_eqb (primitive_of t') wanted then ok t' else throw type_mismatch

unfoldable pub init_bool : LanguageType → Bool → Outcome VariableError Datum
unfolding take_type
init_bool type value = do t ← take_type prim_bool prim_bool type; ok (datum t (bool_content value))

unfoldable pub init_int : LanguageType → ℤ → Outcome VariableError Datum
unfolding take_type
init_int type value = do t ← take_type prim_int prim_int type; ok (datum t (int_content value))

unfoldable pub init_func : LanguageType → ℕ → Outcome VariableError Datum
unfolding take_type
init_func type value = do t ← take_type prim_func prim_func type; ok (datum t (func_content value))

unfoldable pub init_string : LanguageType → Bytes → Outcome VariableError Datum
unfolding take_type
init_string type value = do
  t ← take_type prim_string prim_string type
  ok (datum t (string_content value))

-- The loop over the contents of a list or a tuple.
unfoldable pub check_contents : LanguageType → Contents → Outcome VariableError (Unit {0})
unfolding is_assignable type_of
check_contents spec_type none_left = ok tt
check_contents spec_type (next_variable d ds) =
    if is_assignable spec_type (type_of d) then check_contents spec_type ds else throw type_mismatch

unfoldable pub init_list : LanguageType → Contents → Outcome VariableError Datum
unfolding take_type argument arguments_of check_contents
init_list type value = do
  t ← take_type prim_list prim_list type
  spec_type ← argument (arguments_of t) 0
  check_contents spec_type value
  ok (datum t (list_content value))

-- A `var` becomes a list here.
unfoldable pub init_tuple : LanguageType → Contents → Outcome VariableError Datum
unfolding take_type argument arguments_of check_contents
init_tuple type value = do
  t ← take_type prim_list prim_tuple type
  spec_type ← argument (arguments_of t) 0
  check_contents spec_type value
  ok (datum t (tuple_content value))

unfoldable pub check_type_primitive : Datum → Primitive → Outcome VariableError (Unit {0})
unfolding prim_eqb primitive_of type_of
check_type_primitive d p =
    if prim_eqb (primitive_of (type_of d)) p then ok tt else throw type_mismatch

-- The member that an accessor reads; a member that is not valid has no value in the model.
unfoldable pub bool_value : Datum → Outcome VariableError Bool
unfolding check_type_primitive
bool_value (datum t content) =
    check_type_primitive (datum t content) prim_bool
    >> (elim content [ bool_content value ↦ ok value | _ ↦ undefined ])

unfoldable pub int_value : Datum → Outcome VariableError ℤ
unfolding check_type_primitive
int_value (datum t content) =
    check_type_primitive (datum t content) prim_int
    >> (elim content [ int_content value ↦ ok value | _ ↦ undefined ])

unfoldable pub string_value : Datum → Outcome VariableError Bytes
unfolding check_type_primitive
string_value (datum t content) =
    check_type_primitive (datum t content) prim_string
    >> (elim content [ string_content value ↦ ok value | _ ↦ undefined ])

unfoldable pub func_value : Datum → Outcome VariableError (Option ℕ)
unfolding check_type_primitive
func_value (datum t content) = check_type_primitive (datum t content) prim_func >> (elim content [
  | func_content value ↦ ok (some value)
  | undef_func ↦ ok none
  | _ ↦ undefined
])

unfoldable pub list_value : Datum → Outcome VariableError Contents
unfolding check_type_primitive
list_value (datum t content) =
    check_type_primitive (datum t content) prim_list
    >> (elim content [ list_content value ↦ ok value | _ ↦ undefined ])

unfoldable pub tuple_value : Datum → Outcome VariableError Contents
unfolding check_type_primitive
tuple_value (datum t content) =
    check_type_primitive (datum t content) prim_tuple
    >> (elim content [ tuple_content value ↦ ok value | _ ↦ undefined ])

-- `Datum(other)`. A container copies its variables so that they share their values.
unfoldable pub copy_datum : Datum → Outcome VariableError Datum
unfolding bool_value int_value string_value list_value tuple_value primitive_of
copy_datum (datum t content) = elim (primitive_of t) [
  | prim_bool ↦ bool_value (datum t content) >>= λ v. ok (datum t (bool_content v))
  | prim_fldfmt ↦ ok (datum t fldfmt_content)
  | prim_func ↦ ok (datum t content)
  | prim_int ↦ int_value (datum t content) >>= λ v. ok (datum t (int_content v))
  | prim_list ↦ list_value (datum t content) >>= λ v. ok (datum t (list_content v))
  | prim_string ↦ string_value (datum t content) >>= λ v. ok (datum t (string_content v))
  | prim_tuple ↦ tuple_value (datum t content) >>= λ v. ok (datum t (tuple_content v))
  | prim_var ↦ ok (datum t var_content)
]

-- `Variable`
pub record Variable : Type 0 where
  pub m_value : Datum
  pub m_is_const : Bool

-- `Variable(type)`, and those with a value, given the datum that they make.
unfoldable pub new_variable : LanguageType → Variable
unfolding default_datum Types.is_const
new_variable type = record { m_value = default_datum type; m_is_const = Types.is_const type }

unfoldable pub of_datum :
    LanguageType → Outcome VariableError Datum → Outcome VariableError Variable
unfolding Types.is_const
of_datum type made = do d ← made; ok (record { m_value = d; m_is_const = Types.is_const type })

-- `Variable(other, constness)`
unfoldable pub reference : Variable → Constness → Variable
unfolding constness_is_const
reference other constness = record other { m_is_const = constness_is_const constness }

unfoldable pub is_assignable_from : Variable → Variable → Bool
unfolding is_assignable type_of
is_assignable_from v other =
    if v.m_is_const then false else is_assignable (type_of v.m_value) (type_of other.m_value)

unfoldable pub assign_from : Variable → Variable → Outcome VariableError Variable
unfolding copy_datum
assign_from v other =
    if v.m_is_const
    then throw type_mismatch
    else (copy_datum other.m_value >>= λ d. ok (record v { m_value = d }))
