-- ===== src/Tests/LanguageTypes.antt =====
-- language/type.h on lists and tuples.
use hwpp.Prelude.{◌-◌, ◌^◌, ◌<◌, ◌≡◌, refl, ◌↔◌, true, arith}
use hwpp.Language.Types.{
  prim_int, prim_list, prim_tuple, non_const, const, literal, LanguageType, typed, nil, cons,
  is_equal_to, is_assignable, n_arguments, primitive_max_args, primitive_code, prim_eqb,
  is_assignable_from, constness_is_const,
}
use hwpp.Language.Types.Equality.{is_equal_to_iff, forget_literal}
use hwpp.Language.Types.Arguments.{arguments, IsWithinArity}

abbrev an_int : LanguageType
an_int = typed prim_int non_const nil

abbrev a_literal : LanguageType
a_literal = typed prim_int literal nil

abbrev ints : LanguageType
ints = typed prim_list non_const (cons an_int nil)

abbrev pair : LanguageType
pair = typed prim_tuple non_const (cons an_int (cons a_literal nil))

abbrev const_pair : LanguageType
const_pair = typed prim_tuple non_const (cons an_int (cons (typed prim_int const nil) nil))

is_equal_to_iff_example :
    (is_equal_to pair const_pair ≡ true) ↔ (forget_literal pair ≡ forget_literal const_pair)
is_equal_to_iff_example = is_equal_to_iff pair const_pair

pair-within : IsWithinArity pair
unfolding n_arguments primitive_max_args
pair-within = omega arith

pair-room : n_arguments (arguments pair) < 2 ^ 31 - 1
unfolding n_arguments
pair-room = omega arith

ints-assignable : is_assignable ints pair ≡ true
unfolding is_assignable is_assignable_from n_arguments primitive_code prim_eqb constness_is_const
ints-assignable = refl

pair-equal : is_equal_to pair const_pair ≡ true
unfolding is_equal_to n_arguments primitive_code prim_eqb constness_is_const
pair-equal = refl
