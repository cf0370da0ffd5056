-- ===== src/Path/Element.antt =====
-- Path::Element: one element of a path, its parser and its printer.
use hwpp.Prelude.{
  ℕ, ◌+◌, ◌-◌, ◌*◌, ◌^◌, Bool, true, false, ◌&&◌, ◌||◌, [], ◌∷◌, ◌++◌, ltb, leb, eqb, if◌then◌else◌,
  ◌==◌, Bytes, bytes_eqb, bytes_eq, Outcome, ok, throw, undefined, ◌>>=◌,
}
use hwpp.Prelude.Int.{ℤ, pos, negsuc, neg, int_to_string}

pub data ArrayMode : Type 0 where
  array_none array_index array_append : ArrayMode

pub record Element : Type 0 where
  pub m_name : Bytes
  pub m_array_mode : ArrayMode
  pub m_array_index : ℤ
  pub m_is_bookmark : Bool

-- `Path::InvalidError`; signed overflow of the array index is `undefined`.
pub data InvalidError : Type 0 where
  invalid : InvalidError

-- The character classes of <ctype.h> in the C locale.
unfoldable pub is_alpha : ℕ → Bool
is_alpha c = (leb b'a' c && leb c b'z') || (leb b'A' c && leb c b'Z')

unfoldable pub is_digit : ℕ → Bool
is_digit c = leb b'0' c && leb c b'9'

unfoldable pub is_alnum : ℕ → Bool
unfolding is_alpha is_digit
is_alnum c = is_alpha c || is_digit c

unfoldable pub is_xdigit : ℕ → Bool
unfolding is_digit
is_xdigit c = is_digit c || (leb b'a' c && leb c b'f') || (leb b'A' c && leb c b'F')

unfoldable pub to_lower : ℕ → ℕ
to_lower c = if leb b'A' c && leb c b'Z' then c + 32 else c

pub data State : Type 0 where
  start got_leading_special body got_leading_dot got_array_open got_array_index_negative : State
  detect_array_index_base array_index_digits done : State

-- The locals of `parse` with the element that it fills in. `negative` is `idx_sign == -1`.
pub record Scan : Type 0 where
  pub state : State
  pub idx_base : ℕ
  pub negative : Bool
  pub elem : Element
  pub open elem use *

abbrev pub push_name : Scan → ℕ → State → Scan
push_name s c next = record s { state = next; elem = record s.elem { m_name = s.m_name ++ c ∷ [] } }

abbrev pub goto : Scan → State → Scan
goto s next = record s { state = next }

-- Set the index and go on. The array mode is `array_index` already in every state in which the
-- source sets the index alone.
abbrev pub index_is : Scan → ℤ → State → Scan
index_is s i next = record s {
  state = next;
  elem = record s.elem { m_array_mode = array_index; m_array_index = i };
}

-- The index times the base plus a digit, as an `int`; it is not negative before `]`.
unfoldable pub add_digit : ℤ → ℕ → ℕ → Outcome InvalidError ℤ
add_digit (pos n) base d =
    if ltb (n * base + d) (2 ^ 31) then ok (pos (n * base + d)) else undefined
add_digit (negsuc n) base d = undefined

unfoldable pub digit_step : Scan → ℕ → Outcome InvalidError Scan
unfolding add_digit
digit_step s d = do i ← add_digit s.m_array_index s.idx_base d; ok (index_is s i array_index_digits)

-- The first octal digit, which is added to the index as it stands.
unfoldable pub octal_step : Scan → ℕ → Outcome InvalidError Scan
unfolding add_digit
octal_step s d = do
  i ← add_digit s.m_array_index 1 d
  ok (record (index_is s i array_index_digits) { idx_base = 8 })

-- `m_array_index *= idx_sign`
unfoldable pub with_sign : Bool → ℤ → ℤ
with_sign true (pos n) = neg n
with_sign true (negsuc n) = pos (n + 1)
with_sign false i = i

-- The value that the code gives a hexadecimal digit.
unfoldable pub hex_value : ℕ → ℕ
unfolding to_lower
hex_value c = if leb b'0' c && leb c b'9' then c - b'0' else to_lower c - b'a'

-- The switch of `parse`.
unfoldable pub step : State → Scan → ℕ → Outcome InvalidError Scan
unfolding is_alpha is_digit is_alnum is_xdigit to_lower digit_step octal_step with_sign hex_value
step start s c =
    if eqb c b'%'
    then ok (push_name s c got_leading_special)
    else if eqb c b'$'
    then ok
        (record s { state = got_leading_special; elem = record s.elem { m_is_bookmark = true } })
    else if is_alpha c || eqb c b'_'
    then ok (push_name s c body)
    else if eqb c b'.'
    then ok (push_name s c got_leading_dot)
    else throw invalid
step got_leading_special s c =
    if is_alpha c || eqb c b'_' then ok (push_name s c body) else throw invalid
step body s c =
    if is_alnum c || eqb c b'_' || eqb c b'.'
    then ok (push_name s c body)
    else if eqb c b'['
    then ok (goto s got_array_open)
    else throw invalid
step got_leading_dot s c = if eqb c b'.' then ok (push_name s c done) else throw invalid
step got_array_open s c =
    if eqb c b']'
    then ok (record s { state = done; elem = record s.elem { m_array_mode = array_append } })
    else if eqb c b'-'
    then ok (record s {
      state = got_array_index_negative;
      negative = true;
      elem = record s.elem { m_array_mode = array_index };
    })
    else if eqb c b'0'
    then ok (index_is s (pos 0) detect_array_index_base)
    else if is_digit c
    then ok (record (index_is s (pos (c - b'0')) array_index_digits) { idx_base = 10 })
    else throw invalid
step got_array_index_negative s c =
    if eqb c b'0'
    then ok (index_is s (pos 0) detect_array_index_base)
    else if is_digit c
    then ok (record (index_is s (pos (c - b'0')) array_index_digits) { idx_base = 10 })
    else throw invalid
step detect_array_index_base s c =
    if eqb (to_lower c) b'x'
    then ok (record s { state = array_index_digits; idx_base = 16 })
    else if is_digit c && leb c b'7'
    then octal_step s (c - b'0')
    else if eqb c b']'
    then ok (record (index_is s (with_sign s.negative s.m_array_index) done) { idx_base = 10 })
    else throw invalid
step array_index_digits s c =
    if eqb s.idx_base 10 && is_digit c
    then digit_step s (c - b'0')
    else if eqb s.idx_base 8 && is_digit c && leb c b'7'
    then digit_step s (c - b'0')
    else if eqb s.idx_base 16 && is_xdigit c
    then digit_step s (hex_value c)
    else if eqb c b']'
    then ok (index_is s (with_sign s.negative s.m_array_index) done)
    else throw invalid
step done s c = throw invalid

-- The loop of `parse`, and the test behind it.
unfoldable pub run : Scan → Bytes → Outcome InvalidError Element
unfolding bytes_eqb
run s [] = if s.m_name == [] then throw invalid else ok s.elem
run s (c ∷ cs) = do s' ← step s.state s c; run s' cs

abbrev pub blank : Element
blank = record {
  m_name = [];
  m_array_mode = array_none;
  m_array_index = pos 0;
  m_is_bookmark = false;
}

abbrev pub initial : Scan
initial = record { state = start; idx_base = 10; negative = false; elem = blank }

unfoldable pub parse : Bytes → Outcome InvalidError Element
parse = run initial

-- `to_string`, by the array mode.
unfoldable pub mode_to_string : ArrayMode → Element → Bytes
unfolding int_to_string
mode_to_string array_none e = if e.m_is_bookmark then b'$' ∷ e.m_name else e.m_name
mode_to_string array_index e = e.m_name ++ b'[' ∷ (int_to_string e.m_array_index ++ b']' ∷ [])
mode_to_string array_append e = e.m_name ++ b'[' ∷ b']' ∷ []

unfoldable pub to_string : Element → Bytes
unfolding mode_to_string
to_string e = mode_to_string e.m_array_mode e

unfoldable pub equals : Element → Element → Bool
unfolding bytes_eqb
equals e other = to_string e == to_string other
