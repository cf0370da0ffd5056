-- ===== src/Tests/Variables.antt =====
-- language/variable.h and language/variable.cc on small values.
use hwpp.Prelude.{◌≡◌, refl, [], throw, undefined}
use hwpp.Prelude.Int.{pos}
use hwpp.Language.Types.{
  prim_int, prim_list, prim_var, prim_string, non_const, LanguageType, typed, nil, cons,
}
use hwpp.Language.Variable.{
  type_mismatch, Datum, datum, int_content, tuple_content, Contents, none_left, next_variable,
  init_list, init_tuple, init_int, init_string, init_bool, Variable, new_variable, of_datum,
  reference, assign_from, is_assignable_from, is_undef, int_value,
}
use hwpp.Language.Variable

abbrev an_int : LanguageType
an_int = typed prim_int non_const nil

abbrev ints : LanguageType
ints = typed prim_list non_const (cons an_int nil)

abbrev three : Datum
three = datum an_int (int_content (pos 3))

abbrev threes : Contents
threes = next_variable three (next_variable three none_left)

-- A list of integers takes no string.
a_string_among_integers :
    init_list ints (
      next_variable
        (datum (typed prim_string non_const nil) (Variable.string_content []))
        none_left)
    ≡ throw type_mismatch
unfolding init_list Variable.take_type Variable.argument Variable.check_contents
a_string_among_integers = refl

-- The type argument of an undefined value that becomes a list does not exist.
a_list_from_var : init_list (typed prim_var non_const nil) threes ≡ undefined
unfolding init_list Variable.take_type Variable.argument Variable.check_contents
a_list_from_var = refl

-- An undefined value cannot become a tuple.
a_tuple_from_var : init_tuple (typed prim_var non_const nil) threes ≡ throw type_mismatch
unfolding init_tuple Variable.take_type
a_tuple_from_var = refl
