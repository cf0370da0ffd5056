-- ===== src/Path/Names.antt =====
-- The names that `Path::Element` accepts.
use hwpp.Prelude.{
  ℕ, ◌-◌, ◌≡◌, refl, sym, ◌∙◌, subst, inl, inr, Bool, true, false, ◌&&◌, ◌||◌, [], ◌∷◌, ◌++◌, arith,
  eqb, if◌then◌else◌, eqb_iff, Bool-cases, ◌==◌, Bytes, bytes_eq, Outcome, ok, throw, undefined,
  ◌>>=◌, and-true,
}
use hwpp.Path.Element.{
  Element, InvalidError, invalid, Scan, index_is, add_digit, State, start, got_leading_special,
  body, got_leading_dot, got_array_open, got_array_index_negative, detect_array_index_base,
  array_index_digits, done, is_alpha, is_digit, is_alnum, digit_step, octal_step, hex_value, step,
  run, initial, parse,
}

-- The characters that a name can have.
unfoldable pub is_name_char : ℕ → Bool
unfolding is_alnum
is_name_char c = is_alnum c || eqb c b'_' || eqb c b'.' || eqb c b'%'

abbrev pub all_name_chars : Bytes → Bool
all_name_chars [] = true
all_name_chars (c ∷ cs) = is_name_char c && all_name_chars cs

-- A property of what an operation returns, if it returns.
abbrev pub Returns : {E A : Type 0} → (A → Type 0) → Outcome E A → Type 0
Returns P (ok a) = P a
Returns P _ = Unit

if-Returns :
    {E A : Type 0} (P : A → Type 0) (test : Bool) (x y : Outcome E A)
    → (test ≡ true → Returns P x)
    → (test ≡ false → Returns P y)
    → Returns P (if test then x else y)
if-Returns P true x y hx hy = hx refl
if-Returns P false x y hx hy = hy refl

>>=-Returns :
    {E A B : Type 0} (P : B → Type 0) (o : Outcome E A) (f : A → Outcome E B)
    → ((a : A) → Returns P (f a))
    → Returns P (o >>= f)
>>=-Returns P (ok a) f h = h a
>>=-Returns P (throw e) f h = tt
>>=-Returns P undefined f h = tt

all_name_chars-append_one :
    (name : Bytes) (c : ℕ)
    → all_name_chars name ≡ true
    → is_name_char c ≡ true
    → all_name_chars (name ++ c ∷ []) ≡ true
all_name_chars-append_one [] c h char = rw char refl
all_name_chars-append_one (x ∷ name) c h char =
    let (first, rest) = and-true (is_name_char x) (all_name_chars name) h in
    rw (first, all_name_chars-append_one name c rest char) refl

-- The scan keeps a name of name characters.
abbrev KeepsName : Scan → Type 0
KeepsName s = all_name_chars s.m_name ≡ true

ident-char : (c : ℕ) → (is_alpha c || eqb c b'_') ≡ true → is_name_char c ≡ true
unfolding is_name_char is_alnum is_alpha is_digit
ident-char c h = elim (Bool-cases (is_alpha c)) [
  | inl letter ↦ rw letter refl
  | inr no_letter ↦
      let underscore : c ≡ b'_' = (eqb_iff c b'_').0 (sym (rw no_letter refl) ∙ h) in
      rw underscore refl
]

body-char : (c : ℕ) → (is_alnum c || eqb c b'_' || eqb c b'.') ≡ true → is_name_char c ≡ true
unfolding is_name_char
body-char c h = rw h refl

dot-char : (c : ℕ) → eqb c b'.' ≡ true → is_name_char c ≡ true
unfolding is_name_char is_alnum is_alpha is_digit
dot-char c h = rw ((eqb_iff c b'.').0 h) refl

special-char : (c : ℕ) → eqb c b'%' ≡ true → is_name_char c ≡ true
unfolding is_name_char is_alnum is_alpha is_digit
special-char c h = rw ((eqb_iff c b'%').0 h) refl

digit_step-KeepsName : (s : Scan) (d : ℕ) → KeepsName s → Returns KeepsName (digit_step s d)
unfolding digit_step
digit_step-KeepsName s d h =
    >>=-Returns KeepsName (add_digit s.m_array_index s.idx_base d)
      (λ i. ok (index_is s i array_index_digits)) (λ i. h)

octal_step-KeepsName : (s : Scan) (d : ℕ) → KeepsName s → Returns KeepsName (octal_step s d)
unfolding octal_step
octal_step-KeepsName s d h =
    >>=-Returns KeepsName (add_digit s.m_array_index 1 d)
      (λ i. ok (record (index_is s i array_index_digits) { idx_base = 8 })) (λ i. h)

step-KeepsName : (st : State) (s : Scan) (c : ℕ) → KeepsName s → Returns KeepsName (step st s c)
unfolding step
step-KeepsName start s c h =
    ground (arith, all_name_chars-append_one s.m_name c h, special-char c, ident-char c, dot-char c)
step-KeepsName got_leading_special s c h =
    ground (arith, all_name_chars-append_one s.m_name c h, ident-char c)
step-KeepsName body s c h = ground (arith, all_name_chars-append_one s.m_name c h, body-char c)
step-KeepsName got_leading_dot s c h =
    ground (arith, all_name_chars-append_one s.m_name c h, dot-char c)
step-KeepsName got_array_open s c h = ground (arith, h)
step-KeepsName got_array_index_negative s c h = ground (arith, h)
step-KeepsName detect_array_index_base s c h =
    ground (arith, h, octal_step-KeepsName s (c - b'0') h)
step-KeepsName array_index_digits s c h =
    ground (arith, h, digit_step-KeepsName s (c - b'0') h, digit_step-KeepsName s (hex_value c) h)
step-KeepsName done s c h = tt

-- A name that is not empty and has name characters only.
abbrev pub IsName : Bytes → Type 0
IsName name = ((name == []) ≡ false) × (all_name_chars name ≡ true)

continue :
    (o : Outcome InvalidError Scan) (cs : Bytes)
    → Returns KeepsName o
    → ((s' : Scan) → KeepsName s' → Returns (λ e. IsName e.m_name) (run s' cs))
    → Returns (λ e. IsName e.m_name) (o >>= λ s'. run s' cs)
continue (ok s') cs h after = after s' h
continue (throw e) cs h after = tt
continue undefined cs h after = tt

run-IsName : (cs : Bytes) (s : Scan) → KeepsName s → Returns (λ e. IsName e.m_name) (run s cs)
unfolding run
run-IsName [] s h =
    if-Returns (λ e. IsName e.m_name) (s.m_name == []) (throw invalid) (ok s.elem) (λ _. tt)
      (λ t. (t, h))
run-IsName (c ∷ cs) s h =
    continue (step s.state s c) cs (step-KeepsName s.state s c h) (λ s'. run-IsName cs s')

-- What `parse` returns, if it returns, has a name that is not empty, of letters, digits, `_`, `.` and
-- `%` only; so no name contains the path's `/` or the brackets of an array.
pub parse-IsName : (input : Bytes) (e : Element) → parse input ≡ ok e → IsName e.m_name
unfolding parse
parse-IsName input e h = subst (Returns (λ x. IsName x.m_name)) h (run-IsName input initial refl)
