-- ===== src/Language/Types/Equality.antt =====
-- When `is_equal_to` holds.
use hwpp.Prelude.{
  ℕ, suc, ◌≡◌, refl, sym, ap, ap₂, ◌∙◌, ◌↔◌, true, arith, eqb, bool_eqb, if◌then◌else◌, eqb_iff,
  and-true,
}
use hwpp.Language.Types.{
  Primitive, prim_bool, prim_fldfmt, prim_func, prim_int, prim_list, prim_string, prim_tuple,
  prim_var, Constness, non_const, const, literal, LanguageType, typed, LanguageTypes, nil, cons,
  primitive_code, prim_eqb, n_arguments, constness_is_const, is_equal_to, arguments_equal,
}

-- The primitive at a position.
abbrev primitive_at : ℕ → Primitive
primitive_at n =
    if eqb n 0
    then prim_bool
    else if eqb n 1
    then prim_fldfmt
    else if eqb n 2
    then prim_func
    else if eqb n 3
    then prim_int
    else if eqb n 4
    then prim_list
    else if eqb n 5
    then prim_string
    else if eqb n 6
    then prim_tuple
    else prim_var

primitive_at-code : (p : Primitive) → primitive_at (primitive_code p) ≡ p
unfolding primitive_code
primitive_at-code prim_bool = refl
primitive_at-code prim_fldfmt = refl
primitive_at-code prim_func = refl
primitive_at-code prim_int = refl
primitive_at-code prim_list = refl
primitive_at-code prim_string = refl
primitive_at-code prim_tuple = refl
primitive_at-code prim_var = refl

pub prim_eqb→eq : (p q : Primitive) → prim_eqb p q ≡ true → p ≡ q
unfolding prim_eqb
prim_eqb→eq p q h =
    sym (primitive_at-code p)
    ∙ ap primitive_at ((eqb_iff (primitive_code p) (primitive_code q)).0 h)
    ∙ primitive_at-code q

pub prim_eqb_refl : (p : Primitive) → prim_eqb p p ≡ true
unfolding prim_eqb
prim_eqb_refl p = ground arith

-- A type in which literal constants count as constants.
abbrev pub constness_class : Constness → Constness
constness_class non_const = non_const
constness_class const = const
constness_class literal = const

unfoldable mutual
  pub forget_literal : LanguageType → LanguageType
  forget_literal (typed p c args) = typed p (constness_class c) (forget_literals args)

  pub forget_literals : LanguageTypes → LanguageTypes
  forget_literals nil = nil
  forget_literals (cons a args) = cons (forget_literal a) (forget_literals args)

constness_iff :
    (c d : Constness)
    → bool_eqb (constness_is_const c) (constness_is_const d) ≡ true
    → constness_class c ≡ constness_class d
unfolding constness_is_const
constness_iff non_const non_const h = refl
constness_iff non_const const h = cc
constness_iff non_const literal h = cc
constness_iff const non_const h = cc
constness_iff const const h = refl
constness_iff const literal h = refl
constness_iff literal non_const h = cc
constness_iff literal const h = refl
constness_iff literal literal h = refl

mutual
  unfolding is_equal_to n_arguments forget_literal

  is_equal_to-forget :
      (a b : LanguageType) → is_equal_to a b ≡ true → forget_literal a ≡ forget_literal b
  is_equal_to-forget (typed p c args) (typed q d bs) h =
      let (h1, equal) = and-true _ (arguments_equal args bs) h in
      let (h2, hn) = and-true _ (eqb (n_arguments args) (n_arguments bs)) h1 in
      let (hc, hp) =
        and-true (bool_eqb (constness_is_const c) (constness_is_const d)) (prim_eqb p q) h2 in
      rw (prim_eqb→eq p q hp, constness_iff c d hc)
        (ap (typed q (constness_class d)) (
          arguments_equal-forget args bs ((eqb_iff (n_arguments args) (n_arguments bs)).0 hn)
            equal))

  arguments_equal-forget :
      (args bs : LanguageTypes)
      → n_arguments args ≡ n_arguments bs
      → arguments_equal args bs ≡ true
      → forget_literals args ≡ forget_literals bs
  arguments_equal-forget nil nil n h = refl
  arguments_equal-forget nil (cons b bs) n h = absurd (omega (arith, n))
  arguments_equal-forget (cons a args) nil n h = absurd (omega (arith, n))
  arguments_equal-forget (cons a args) (cons b bs) n h =
      let (h1, h2) = and-true (is_equal_to a b) _ h in
      ap₂ cons (is_equal_to-forget a b h1) (arguments_equal-forget args bs (omega (arith, n)) h2)

constness_class-eq :
    (c d : Constness)
    → constness_class c ≡ constness_class d
    → bool_eqb (constness_is_const c) (constness_is_const d) ≡ true
unfolding constness_is_const
constness_class-eq non_const non_const h = refl
constness_class-eq non_const const h = cc
constness_class-eq non_const literal h = cc
constness_class-eq const non_const h = cc
constness_class-eq const const h = refl
constness_class-eq const literal h = refl
constness_class-eq literal non_const h = cc
constness_class-eq literal const h = refl
constness_class-eq literal literal h = refl

length-forget : (args : LanguageTypes) → n_arguments (forget_literals args) ≡ n_arguments args
unfolding n_arguments forget_literals
length-forget nil = refl
length-forget (cons a args) = ap suc (length-forget args)

typed-inj :
    {p q : Primitive} {c d : Constness} {args bs : LanguageTypes}
    → typed p c args ≡ typed q d bs
    → (p ≡ q) × (c ≡ d) × (args ≡ bs)
typed-inj h = (cc, cc, cc)

cons-inj :
    {a b : LanguageType} {args bs : LanguageTypes} → cons a args ≡ cons b bs → (a ≡ b) × (args ≡ bs)
cons-inj h = (cc, cc)

mutual
  unfolding is_equal_to forget_literal

  forget-is_equal_to :
      (a b : LanguageType) → forget_literal a ≡ forget_literal b → is_equal_to a b ≡ true
  forget-is_equal_to (typed p c args) (typed q d bs) h =
      let (same, class, all) = typed-inj h in
      ground (
        arith,
        same,
        prim_eqb_refl q,
        constness_class-eq c d class,
        length-forget args,
        length-forget bs,
        ap n_arguments all,
        forget-arguments_equal args bs all,
      )

  forget-arguments_equal :
      (args bs : LanguageTypes)
      → forget_literals args ≡ forget_literals bs
      → arguments_equal args bs ≡ true
  forget-arguments_equal nil nil h = refl
  forget-arguments_equal nil (cons b bs) h = refl
  forget-arguments_equal (cons a args) nil h = refl
  forget-arguments_equal (cons a args) (cons b bs) h =
      let (first, rest) = cons-inj h in
      rw (forget-is_equal_to a b first, forget-arguments_equal args bs rest) refl

-- `is_equal_to` holds exactly between types that are the same but for LITERAL in place of CONST, at
-- any depth.
pub is_equal_to_iff :
    (a b : LanguageType) → (is_equal_to a b ≡ true) ↔ (forget_literal a ≡ forget_literal b)
is_equal_to_iff a b = (is_equal_to-forget a b, forget-is_equal_to a b)
