-- ===== src/Tests/Paths.antt =====
-- path.h and path.cc on short paths.
use hwpp.Prelude.{
  ℕ, ◌≡◌, refl, true, false, List, [], ◌∷◌, ◌++◌, arith, eqb, if◌then◌else◌, Bytes, codes, bytes_eq,
  ok,
}
use hwpp.Prelude.Int.{pos, negsuc}
use hwpp.Path.Element.{
  Element, array_none, array_index, parse, run, step, is_alpha, is_digit, is_alnum, is_xdigit,
  to_lower, hex_value, add_digit, digit_step, octal_step, with_sign, to_string, mode_to_string,
}
use hwpp.Path.Names.{IsName, parse-IsName}
use hwpp.Path.Sequence
use hwpp.Path.Sequence.{HwppPath, push_back, push_back_path, pop_back, equals, of_string}
use hwpp.Path.Sequence.Text.{
  is_plain, starts_with_slash, BoostLaws, AllParseBack, of_string-to_string,
}

abbrev named : Bytes → Element
named name = record {
  m_name = name;
  m_array_mode = array_none;
  m_array_index = pos 0;
  m_is_bookmark = false;
}

abbrev indexed : Element
indexed = record {
  m_name = codes "cpu";
  m_array_mode = array_index;
  m_array_index = negsuc 11;
  m_is_bookmark = false;
}

indexed-parse : parse (codes "cpu[-0xc]") ≡ ok (record indexed { m_array_index = negsuc 1 })
unfolding parse run step is_alpha is_digit is_alnum is_xdigit to_lower hex_value add_digit
    digit_step octal_step with_sign
indexed-parse = refl

parse-IsName_example : IsName (codes "cpu")
parse-IsName_example =
    parse-IsName (codes "cpu[-0xc]") (record indexed { m_array_index = negsuc 1 }) indexed-parse

abbrev pci : HwppPath
pci = record { m_list = named (codes "pci") ∷ []; m_absolute = true }

abbrev bar : HwppPath
bar = record { m_list = named (codes "bar") ∷ named (codes "x") ∷ []; m_absolute = false }

-- White space at the ends is left as it is, which the law allows.
abbrev trim : Bytes → Bytes
trim s = s

abbrev push_char : ℕ → List Bytes → List Bytes
push_char c [] = (c ∷ []) ∷ []
push_char c (w ∷ ws) = (c ∷ w) ∷ ws

-- A string cut at its runs of slashes.
split_slashes : Bytes → List Bytes
split_slashes [] = [] ∷ []
split_slashes (c ∷ cs) =
    let rest = split_slashes cs in
    if eqb c b'/' then (if starts_with_slash cs then rest else [] ∷ rest) else push_char c rest

split_slashes-plain : (s : Bytes) → is_plain s ≡ true → split_slashes s ≡ s ∷ []
unfolding split_slashes
split_slashes-plain [] h = refl
split_slashes-plain (c ∷ s) h = ground (arith, h, split_slashes-plain s)

split_slashes-slash :
    (s rest : Bytes)
    → is_plain s ≡ true
    → starts_with_slash rest ≡ false
    → split_slashes (s ++ b'/' ∷ rest) ≡ s ∷ split_slashes rest
unfolding split_slashes
split_slashes-slash [] rest h no_slash = rw no_slash refl
split_slashes-slash (c ∷ s) rest h no_slash =
    ground (arith, h, split_slashes-slash s rest, no_slash)

split_slashes-laws : BoostLaws trim split_slashes
split_slashes-laws = record {
  trim_dense = λ s h. refl;
  split_plain = split_slashes-plain;
  split_slash = split_slashes-slash;
}

bar-AllParseBack : AllParseBack bar.m_list
unfolding parse run step is_alpha is_digit is_alnum to_string mode_to_string
bar-AllParseBack = (refl, refl, (refl, refl, tt))

of_string-to_string_example : of_string trim split_slashes (Sequence.to_string bar) ≡ ok bar
of_string-to_string_example =
    of_string-to_string trim split_slashes split_slashes-laws bar bar-AllParseBack
