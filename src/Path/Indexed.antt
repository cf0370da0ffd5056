-- ===== src/Path/Indexed.antt =====
-- Array accesses in a path: printing an index in decimal and reading it back.
use hwpp.Prelude.{
  ℕ, zero, suc, ◌+◌, ◌-◌, ◌*◌, ◌/◌, ◌%◌, ◌^◌, ◌≤◌, ◌<◌, ◌≡◌, refl, sym, ap, ◌∙◌, inl, inr, Bool,
  true, false, ◌&&◌, ◌||◌, [], ◌∷◌, ◌++◌, append-nil, append_assoc, arith, ltb, eqb, ltb→lt, lt→ltb,
  Bool-cases, Bytes, bytes_eqb, bytes_eq, ok, and-true,
}
use hwpp.Prelude.Int.{pos, decimal, decimal_onto}
use hwpp.Path.Element.{
  Element, Scan, array_none, array_index, State, start, body, got_array_open, array_index_digits,
  is_alpha, is_digit, is_alnum, step, run, parse, add_digit, digit_step, with_sign, to_lower,
}

-- The characters that go on a name.
unfoldable pub is_body_char : ℕ → Bool
unfolding is_alnum
is_body_char c = is_alnum c || eqb c b'_' || eqb c b'.'

abbrev pub all_body_chars : Bytes → Bool
all_body_chars [] = true
all_body_chars (c ∷ cs) = is_body_char c && all_body_chars cs

-- A name of a letter or `_` and of letters, digits, `_` and `.`.
abbrev pub is_ident : Bytes → Bool
is_ident [] = false
is_ident (c ∷ cs) = (is_alpha c || eqb c b'_') && all_body_chars cs

-- A scan that has read a name, and an index if there is one.
abbrev named : State → Bytes → Scan
named state name = record {
  state = state;
  idx_base = 10;
  negative = false;
  elem = record {
    m_name = name;
    m_array_mode = array_none;
    m_array_index = pos 0;
    m_is_bookmark = false;
  };
}

abbrev pub indexed : Bytes → ℕ → Element
indexed name n = record {
  m_name = name;
  m_array_mode = array_index;
  m_array_index = pos n;
  m_is_bookmark = false;
}

abbrev counted : State → Bytes → ℕ → Scan
counted state name n = record {
  state = state;
  idx_base = 10;
  negative = false;
  elem = indexed name n;
}

run-body :
    (cs name rest : Bytes)
    → all_body_chars cs ≡ true
    → run (named body name) (cs ++ rest) ≡ run (named body (name ++ cs)) rest
unfolding run step is_body_char
run-body [] name rest h = ap (λ n. run (named body n) rest) (sym (append-nil name))
run-body (c ∷ cs) name rest h =
    let (char, chars) = and-true (is_body_char c) (all_body_chars cs) h in
    rw char (
      run-body cs (name ++ c ∷ []) rest chars
      ∙ ap (λ n. run (named body n) rest) (append_assoc name (c ∷ []) cs))

digit-is_digit : (d : ℕ) → d < 10 → is_digit (b'0' + d) ≡ true
unfolding is_digit
digit-is_digit d h = ground arith

digit-value : (d : ℕ) → b'0' + d - b'0' ≡ d
digit-value d = omega arith

step-first :
    (name : Bytes) (d : ℕ)
    → 0 < d
    → d < 10
    → step got_array_open (named got_array_open name) (b'0' + d)
      ≡ ok (counted array_index_digits name d)
unfolding step
step-first name d more below =
    let no_close : eqb (b'0' + d) b']' ≡ false = ground arith in
    let no_minus : eqb (b'0' + d) b'-' ≡ false = ground arith in
    let no_zero : eqb (b'0' + d) b'0' ≡ false = ground arith in
    rw (no_close, no_minus, no_zero, digit-is_digit d below, digit-value d) refl

step-digit :
    (name : Bytes) (m d : ℕ)
    → d < 10
    → m * 10 + d < 2 ^ 31
    → step array_index_digits (counted array_index_digits name m) (b'0' + d)
      ≡ ok (counted array_index_digits name (m * 10 + d))
unfolding step digit_step add_digit
step-digit name m d digit below =
    let fits : ltb (m * 10 + d) (2 ^ 31) ≡ true = lt→ltb (m * 10 + d) (2 ^ 31) below in
    rw (digit-is_digit d digit, digit-value d, fits) refl

run-step :
    (s s' : Scan) (c : ℕ) (cs : Bytes) → step s.state s c ≡ ok s' → run s (c ∷ cs) ≡ run s' cs
unfolding run
run-step s s' c cs h = rw h refl

run-decimal :
    (f n : ℕ) (name rest : Bytes)
    → n ≤ f
    → 0 < n
    → n < 2 ^ 31
    → run (named got_array_open name) (decimal_onto f n rest)
      ≡ run (counted array_index_digits name n) rest
unfolding decimal_onto
run-decimal zero n name rest fuel more below = absurd (omega arith)
run-decimal (suc f) n name rest fuel more below = elim (Bool-cases (ltb n 10)) [
  | inl one ↦ rw one (
      run-step (named got_array_open name) (counted array_index_digits name n) (b'0' + n) rest
        (step-first name n more (ltb→lt n 10 one)))
  | inr two ↦
      let big : 10 ≤ n = ground (arith, two) in
      rw two (
        run-decimal f (n / 10) name ((b'0' + n % 10) ∷ rest) (omega arith) (omega arith)
          (omega arith)
        ∙ run-step (counted array_index_digits name (n / 10))
            (counted array_index_digits name (n / 10 * 10 + n % 10)) (b'0' + n % 10) rest
            (step-digit name (n / 10) (n % 10) (omega arith) (omega arith))
        ∙ ap (λ m. run (counted array_index_digits name m) rest) (omega arith))
]

decimal_onto-append :
    (f n : ℕ) (xs rest : Bytes) → decimal_onto f n xs ++ rest ≡ decimal_onto f n (xs ++ rest)
unfolding decimal_onto
decimal_onto-append zero n xs rest = refl
decimal_onto-append (suc f) n xs rest = elim (Bool-cases (ltb n 10)) [
  | inl one ↦ rw one refl
  | inr two ↦ rw two (decimal_onto-append f (n / 10) ((b'0' + n % 10) ∷ xs) rest)
]

-- The last bracket.
run-close :
    (c : ℕ) (cs : Bytes) (n : ℕ)
    → run (counted array_index_digits (c ∷ cs) n) (b']' ∷ []) ≡ ok (indexed (c ∷ cs) n)
unfolding run step with_sign bytes_eqb is_digit
run-close c cs n = refl

run-zero :
    (c : ℕ) (cs : Bytes)
    → run (named got_array_open (c ∷ cs)) (b'0' ∷ b']' ∷ []) ≡ ok (indexed (c ∷ cs) 0)
unfolding run step with_sign bytes_eqb is_digit to_lower
run-zero c cs = refl

run-index :
    (c : ℕ) (cs : Bytes) (n : ℕ)
    → n < 2 ^ 31
    → run (named got_array_open (c ∷ cs)) (decimal n ++ b']' ∷ []) ≡ ok (indexed (c ∷ cs) n)
unfolding decimal decimal_onto
run-index c cs zero below = run-zero c cs
run-index c cs (suc m) below =
    ap (run (named got_array_open (c ∷ cs))) (decimal_onto-append (suc m) (suc m) [] (b']' ∷ []))
    ∙ run-decimal (suc m) (suc m) (c ∷ cs) (b']' ∷ []) (omega arith) (omega arith) below
    ∙ run-close c cs (suc m)

step-start :
    (c : ℕ)
    → (is_alpha c || eqb c b'_') ≡ true
    → step start (named start []) c ≡ ok (named body (c ∷ []))
unfolding step is_alpha
step-start c h =
    let no_percent : eqb c b'%' ≡ false = ground (arith, h) in
    let no_dollar : eqb c b'$' ≡ false = ground (arith, h) in rw (no_percent, no_dollar, h) refl

step-open : (name : Bytes) → step body (named body name) b'[' ≡ ok (named got_array_open name)
unfolding step is_alnum is_alpha is_digit
step-open name = refl

-- An array access that is printed from a name and an index is parsed to that name and that index: the
-- name starts with a letter or `_` and goes on with letters, digits, `_` and `.`, and the index fits
-- an `int`.
pub parse-indexed :
    (name : Bytes) (n : ℕ)
    → is_ident name ≡ true
    → n < 2 ^ 31
    → parse (name ++ b'[' ∷ (decimal n ++ b']' ∷ [])) ≡ ok (indexed name n)
unfolding parse
parse-indexed [] n ident below = cc
parse-indexed (c ∷ cs) n ident below =
    let (first, chars) = and-true (is_alpha c || eqb c b'_') (all_body_chars cs) ident in
    let close = decimal n ++ b']' ∷ [] in
    run-step (named start []) (named body (c ∷ [])) c (cs ++ b'[' ∷ close) (step-start c first)
    ∙ run-body cs (c ∷ []) (b'[' ∷ close) chars
    ∙ run-step (named body (c ∷ cs)) (named got_array_open (c ∷ cs)) b'[' close (step-open (c ∷ cs))
    ∙ run-index c cs n below
