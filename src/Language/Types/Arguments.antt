-- ===== src/Language/Types/Arguments.antt =====
-- `add_argument` and the number of arguments that a type takes.
use hwpp.Prelude.{
  suc, ◌-◌, ◌^◌, ◌≤◌, ◌<◌, ◌≡◌, refl, ap, Bool, true, false, arith, ltb, lt→ltb, ok, throw,
}
use hwpp.Language.Types.{
  Primitive, prim_list, prim_tuple, prim_bool, prim_fldfmt, prim_func, prim_int, prim_string,
  prim_var, LanguageType, typed, LanguageTypes, nil, cons, argument_error, n_arguments, push_back,
  add_argument, primitive_max_args,
}

abbrev pub arguments : LanguageType → LanguageTypes
arguments (typed p c args) = args

abbrev pub primitive : LanguageType → Primitive
primitive (typed p c args) = p

-- No type has more arguments than its primitive takes.
abbrev pub IsWithinArity : LanguageType → Type 0
IsWithinArity t = n_arguments (arguments t) ≤ primitive_max_args (primitive t)

n_arguments-push_back :
    (args : LanguageTypes) (a : LanguageType)
    → n_arguments (push_back args a) ≡ suc (n_arguments args)
unfolding n_arguments push_back
n_arguments-push_back nil a = refl
n_arguments-push_back (cons b args) a = ap suc (n_arguments-push_back args a)

-- What `add_argument` does, by whether the type has room for one more.
abbrev pub AddsArgument : LanguageType → LanguageType → Bool → Type 0
AddsArgument arg (typed p c args) true =
    (add_argument arg (typed p c args) ≡ ok (typed p c (push_back args arg)))
    × IsWithinArity (typed p c (push_back args arg))
AddsArgument arg t false = add_argument arg t ≡ throw argument_error

-- On a type within its arity and with fewer than INT_MAX arguments, `add_argument` adds the
-- argument at the end if `primitive_max_args` leaves room, which gives a type within its arity, and
-- throws otherwise.
add_argument-IsWithinArity :
    (arg t : LanguageType)
    → IsWithinArity t
    → n_arguments (arguments t) < 2 ^ 31 - 1
    → AddsArgument arg t (ltb (n_arguments (arguments t)) (primitive_max_args (primitive t)))
unfolding add_argument primitive_max_args
add_argument-IsWithinArity arg (typed prim_bool c args) within room = ground (arith)
add_argument-IsWithinArity arg (typed prim_fldfmt c args) within room = ground arith
add_argument-IsWithinArity arg (typed prim_func c args) within room = ground arith
add_argument-IsWithinArity arg (typed prim_int c args) within room = ground arith
add_argument-IsWithinArity arg (typed prim_list c args) within room =
    ground (arith, n_arguments-push_back args arg)
add_argument-IsWithinArity arg (typed prim_string c args) within room = ground arith
add_argument-IsWithinArity arg (typed prim_tuple c args) within room =
    rw (lt→ltb (n_arguments args) (2 ^ 31 - 1) room)
      (refl, omega (arith, n_arguments-push_back args arg))
add_argument-IsWithinArity arg (typed prim_var c args) within room = ground arith
