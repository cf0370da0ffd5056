-- ===== src/Language/Types.antt =====
-- language/type.h and language/type.cc: the datatypes of the definition language.
pub mod Equality
pub mod Assign
pub mod Arguments
use hwpp.Prelude.{
  ℕ, suc, ◌-◌, ◌^◌, ◌<◌, Bool, true, false, not, ◌&&◌, ◌||◌, [], ◌++◌, ltb, eqb, bool_eqb,
  if◌then◌else◌, Bytes, codes, bytes_eq, Outcome, ok, throw,
}

pub data Primitive : Type 0 where
  prim_bool prim_fldfmt prim_func prim_int prim_list prim_string prim_tuple prim_var : Primitive

-- `m_constness`: 0, CONST or LITERAL.
pub data Constness : Type 0 where
  non_const const literal : Constness

-- `language::Type`, with its type arguments.
mutual
  pub data LanguageType : Type 0 where
    typed : Primitive → Constness → LanguageTypes → LanguageType

  pub data LanguageTypes : Type 0 where
    nil : LanguageTypes
    cons : LanguageType → LanguageTypes → LanguageTypes

pub data TypeError : Type 0 where
  argument_error : TypeError

-- The position in the enumeration, to compare primitives.
unfoldable pub primitive_code : Primitive → ℕ
primitive_code prim_bool = 0
primitive_code prim_fldfmt = 1
primitive_code prim_func = 2
primitive_code prim_int = 3
primitive_code prim_list = 4
primitive_code prim_string = 5
primitive_code prim_tuple = 6
primitive_code prim_var = 7

unfoldable pub prim_eqb : Primitive → Primitive → Bool
unfolding primitive_code
prim_eqb a b = eqb (primitive_code a) (primitive_code b)

unfoldable pub n_arguments : LanguageTypes → ℕ
n_arguments nil = 0
n_arguments (cons a args) = suc (n_arguments args)

unfoldable pub constness_is_const : Constness → Bool
constness_is_const non_const = false
constness_is_const const = true
constness_is_const literal = true

unfoldable pub is_const : LanguageType → Bool
unfolding constness_is_const
is_const (typed p c args) = constness_is_const c

unfoldable pub set_const : LanguageType → LanguageType
set_const (typed p c args) = typed p const args

unfoldable pub is_literal : LanguageType → Bool
is_literal (typed p literal args) = true
is_literal (typed p _ args) = false

-- `reinit(prim)` and `reinit(prim, constness)`
unfoldable pub reinit : Primitive → Constness → LanguageType → LanguageType
reinit prim constness (typed p c args) = typed prim constness nil

pub push_back : LanguageTypes → LanguageType → LanguageTypes
push_back nil arg = cons arg nil
push_back (cons a args) arg = cons a (push_back args arg)

unfoldable pub add_argument : LanguageType → LanguageType → Outcome TypeError LanguageType
unfolding n_arguments push_back
add_argument arg (typed prim_list c args) =
    if ltb 0 (n_arguments args)
    then throw argument_error
    else ok (typed prim_list c (push_back args arg))
add_argument arg (typed prim_tuple c args) = ok (typed prim_tuple c (push_back args arg))
add_argument arg (typed p c args) = throw argument_error

-- `primitive_max_args`, with INT_MAX for a tuple.
unfoldable pub primitive_max_args : Primitive → ℕ
primitive_max_args prim_list = 1
primitive_max_args prim_tuple = 2 ^ 31 - 1
primitive_max_args p = 0

unfoldable pub primitive_to_string : Primitive → Bytes
primitive_to_string prim_bool = codes "bool"
primitive_to_string prim_fldfmt = codes "fldfmt"
primitive_to_string prim_func = codes "func"
primitive_to_string prim_int = codes "int"
primitive_to_string prim_list = codes "list"
primitive_to_string prim_string = codes "string"
primitive_to_string prim_tuple = codes "tuple"
primitive_to_string prim_var = codes "var"

-- `to_string`, and its loop over the arguments behind the first.
unfoldable mutual
  unfolding primitive_to_string primitive_max_args constness_is_const

  pub to_string : LanguageType → Bytes
  to_string (typed p c args) =
      (if constness_is_const c then codes "const " else [])
      ++ primitive_to_string p
      ++ (if ltb 0 (primitive_max_args p) then codes "<" else [])
      ++ arguments_to_string [] args
      ++ (if ltb 0 (primitive_max_args p) then codes ">" else [])

  pub arguments_to_string : Bytes → LanguageTypes → Bytes
  arguments_to_string separator nil = []
  arguments_to_string separator (cons a args) =
      separator ++ to_string a ++ arguments_to_string (codes ", ") args

-- `is_equal_to`, and its loop.
unfoldable mutual
  unfolding constness_is_const prim_eqb n_arguments

  pub is_equal_to : LanguageType → LanguageType → Bool
  is_equal_to (typed p c args) (typed q d bs) =
      bool_eqb (constness_is_const c) (constness_is_const d)
      && prim_eqb p q
      && eqb (n_arguments args) (n_arguments bs)
      && arguments_equal args bs

  pub arguments_equal : LanguageTypes → LanguageTypes → Bool
  arguments_equal (cons a args) (cons b bs) = is_equal_to a b && arguments_equal args bs
  arguments_equal _ _ = true

-- The loop over the arguments of the other type, with a test that each has to pass.
unfoldable pub all_arguments : (LanguageType → Bool) → LanguageTypes → Bool
all_arguments test nil = true
all_arguments test (cons b bs) = test b && all_arguments test bs

-- `is_assignable_from(other, ignore_const)`: `first_assignable` is the loop with which a
-- list takes a tuple, and `arguments_assignable` the loop over the shorter of two argument lists.
unfoldable mutual
  unfolding constness_is_const prim_eqb n_arguments is_literal all_arguments

  pub is_assignable_from : Bool → LanguageType → LanguageType → Bool
  is_assignable_from ignore_const (typed p c args) (typed q d bs) =
      let each = arguments_assignable ignore_const args bs in
      let first = first_assignable ignore_const args bs in
      if not ignore_const && constness_is_const c
      then false
      else if prim_eqb p prim_var || prim_eqb q prim_var
      then true
      else if prim_eqb p prim_list && eqb (n_arguments args) 0
      then prim_eqb q prim_list || prim_eqb q prim_tuple
      else if prim_eqb p prim_tuple && eqb (n_arguments args) 0
      then prim_eqb q prim_tuple
      else if prim_eqb p prim_list && prim_eqb q prim_tuple
      then first
      else if not (prim_eqb p q)
      then false
      else if not (eqb (n_arguments args) (n_arguments bs))
          && not (
              prim_eqb p prim_tuple
              && prim_eqb q prim_tuple
              && ltb (n_arguments bs) (n_arguments args)
              && is_literal (typed q d bs))
      then false
      else each

  -- `m_arguments[0]` and the loop over the arguments of the other type.
  pub first_assignable : Bool → LanguageTypes → LanguageTypes → Bool
  first_assignable ignore_const nil bs = false
  first_assignable ignore_const (cons a args) bs =
      all_arguments (is_assignable_from ignore_const a) bs

  pub arguments_assignable : Bool → LanguageTypes → LanguageTypes → Bool
  arguments_assignable ignore_const (cons a args) (cons b bs) =
      is_assignable_from ignore_const a b && arguments_assignable ignore_const args bs
  arguments_assignable ignore_const _ _ = true

-- `is_assignable_from(other)`
unfoldable pub is_assignable : LanguageType → LanguageType → Bool
unfolding is_assignable_from
is_assignable = is_assignable_from false

unfoldable pub is_initializable_from : LanguageType → LanguageType → Bool
unfolding is_assignable_from
is_initializable_from = is_assignable_from true

unfoldable pub is_comparable_to : LanguageType → LanguageType → Bool
unfolding is_assignable_from
is_comparable_to t other = is_assignable_from true t other || is_assignable_from true other t
