-- ===== src/Language/Types/Assign.antt =====
-- When a type is assignable and initializable from another.
use hwpp.Prelude.{
  ◌≡◌, refl, sym, ap, ◌∙◌, Bool, true, false, not, ◌&&◌, ◌||◌, arith, ltb, eqb, if◌then◌else◌,
  and-true,
}
use hwpp.Language.Types.{
  primitive_code, prim_bool, prim_fldfmt, prim_func, prim_int, prim_string, Primitive, prim_list,
  prim_tuple, prim_var, LanguageType, typed, LanguageTypes, nil, cons, prim_eqb, n_arguments,
  constness_is_const, is_equal_to, arguments_equal, is_literal, all_arguments, is_assignable_from,
  first_assignable, arguments_assignable, is_assignable, is_initializable_from, is_comparable_to,
}
use hwpp.Language.Types.Equality.{prim_eqb→eq}

-- The tests of one call of `is_assignable_from` in their order, with the results of its loops.
abbrev decide : Bool → Bool → Bool → Bool → Bool → Bool → Bool → Bool → Bool → Bool → Bool → Bool
decide blocked any_var bare_list takes_list bare_tuple takes_tuple list_of_tuple other_prim
      other_arity first each =
    if blocked
    then false
    else if any_var
    then true
    else if bare_list
    then takes_list
    else if bare_tuple
    then takes_tuple
    else if list_of_tuple
    then first
    else if other_prim
    then false
    else if other_arity
    then false
    else each

-- The arity test that lets a literal start a tuple.
abbrev arity_differs : Primitive → LanguageTypes → LanguageType → Primitive → LanguageTypes → Bool
unfolding prim_eqb n_arguments is_literal
arity_differs p args other q bs =
    not (eqb (n_arguments args) (n_arguments bs))
    && not (
        prim_eqb p prim_tuple
        && prim_eqb q prim_tuple
        && ltb (n_arguments bs) (n_arguments args)
        && is_literal other)

decide_mono :
    (b v l l' t t' lt p a first each first' each' : Bool)
    → (first ≡ true → first' ≡ true)
    → (each ≡ true → each' ≡ true)
    → decide b v l l' t t' lt p a first each ≡ true
    → decide false v l l' t t' lt p a first' each' ≡ true
decide_mono true v l l' t t' lt p a first each first' each' hf he h = cc
decide_mono false true l l' t t' lt p a first each first' each' hf he h = refl
decide_mono false false true l' t t' lt p a first each first' each' hf he h = h
decide_mono false false false l' true t' lt p a first each first' each' hf he h = h
decide_mono false false false l' false t' true p a first each first' each' hf he h = hf h
decide_mono false false false l' false t' false true a first each first' each' hf he h = h
decide_mono false false false l' false t' false false true first each first' each' hf he h = h
decide_mono false false false l' false t' false false false first each first' each' hf he h = he h

all_arguments_mono :
    (f g : LanguageType → Bool) (bs : LanguageTypes)
    → ((b : LanguageType) → f b ≡ true → g b ≡ true)
    → all_arguments f bs ≡ true
    → all_arguments g bs ≡ true
unfolding all_arguments
all_arguments_mono f g nil imp h = refl
all_arguments_mono f g (cons b bs) imp h =
    let (first, rest) = and-true _ _ h in rw (imp b first, all_arguments_mono f g bs imp rest) refl

mutual
  unfolding is_assignable_from prim_eqb n_arguments is_literal constness_is_const

  assignable-initializable :
      (t other : LanguageType)
      → is_assignable_from false t other ≡ true
      → is_assignable_from true t other ≡ true
  assignable-initializable (typed p c args) (typed q d bs) h =
      decide_mono (constness_is_const c) (prim_eqb p prim_var || prim_eqb q prim_var)
        (prim_eqb p prim_list && eqb (n_arguments args) 0)
        (prim_eqb q prim_list || prim_eqb q prim_tuple)
        (prim_eqb p prim_tuple && eqb (n_arguments args) 0) (prim_eqb q prim_tuple)
        (prim_eqb p prim_list && prim_eqb q prim_tuple) (not (prim_eqb p q))
        (arity_differs p args (typed q d bs) q bs) (first_assignable false args bs)
        (arguments_assignable false args bs) (first_assignable true args bs)
        (arguments_assignable true args bs) (first-initializable args bs)
        (arguments-initializable args bs) h

  first-initializable :
      (args bs : LanguageTypes)
      → first_assignable false args bs ≡ true
      → first_assignable true args bs ≡ true
  first-initializable nil bs h = cc
  first-initializable (cons a args) bs h =
      all_arguments_mono _ _ bs (λ b. assignable-initializable a b) h

  arguments-initializable :
      (args bs : LanguageTypes)
      → arguments_assignable false args bs ≡ true
      → arguments_assignable true args bs ≡ true
  arguments-initializable nil bs h = refl
  arguments-initializable (cons a args) nil h = refl
  arguments-initializable (cons a args) (cons b bs) h =
      let (first, rest) = and-true _ _ h in
      rw (assignable-initializable a b first, arguments-initializable args bs rest) refl

decide_self :
    (v isl isl' ist ist' none_there p a first each : Bool)
    → isl ≡ isl'
    → ist ≡ ist'
    → (isl && ist') ≡ false
    → p ≡ false
    → a ≡ false
    → each ≡ true
    → decide false v
        (isl && none_there)
        (isl' || ist')
        (ist && none_there)
        ist'
        (isl && ist')
        p
        a
        first
        each
      ≡ true
decide_self true isl isl' ist ist' n p a first each hl ht hlt hp ha he = refl
decide_self false isl isl' ist ist' n p a first each hl ht hlt hp ha he =
    rw (← hl, hp, ha, he, hlt, ← ht) (bare-self isl ist n first)
  where
    bare-self :
        (isl ist n first : Bool)
        → (if isl && n then (isl || ist) else if ist && n then ist else true) ≡ true
    bare-self true ist true first = refl
    bare-self true true false first = refl
    bare-self true false false first = refl
    bare-self false true true first = refl
    bare-self false true false first = refl
    bare-self false false n first = refl

not-list-and-tuple : (p : Primitive) → (prim_eqb p prim_list && prim_eqb p prim_tuple) ≡ false
unfolding prim_eqb primitive_code
not-list-and-tuple prim_bool = refl
not-list-and-tuple prim_fldfmt = refl
not-list-and-tuple prim_func = refl
not-list-and-tuple prim_int = refl
not-list-and-tuple prim_list = refl
not-list-and-tuple prim_string = refl
not-list-and-tuple prim_tuple = refl
not-list-and-tuple prim_var = refl

mutual
  unfolding is_assignable_from is_equal_to prim_eqb n_arguments is_literal constness_is_const

  equal-assignable :
      (t other : LanguageType) → is_equal_to t other ≡ true → is_assignable_from true t other ≡ true
  equal-assignable (typed p c args) (typed q d bs) h =
      let (h1, equal) = and-true _ (arguments_equal args bs) h in
      let (h2, hn) = and-true _ (eqb (n_arguments args) (n_arguments bs)) h1 in
      let (hc, hp) = and-true _ (prim_eqb p q) h2 in
      let same = prim_eqb→eq p q hp in
      decide_self (prim_eqb p prim_var || prim_eqb q prim_var) (prim_eqb p prim_list)
        (prim_eqb q prim_list) (prim_eqb p prim_tuple) (prim_eqb q prim_tuple)
        (eqb (n_arguments args) 0) (not (prim_eqb p q)) (arity_differs p args (typed q d bs) q bs)
        (first_assignable true args bs) (arguments_assignable true args bs)
        (ap (λ x. prim_eqb x prim_list) same) (ap (λ x. prim_eqb x prim_tuple) same)
        (ap (λ x. prim_eqb p prim_list && x) (ap (λ x. prim_eqb x prim_tuple) (sym same))
          ∙ not-list-and-tuple p)
        (ap not hp) (rw hn refl) (arguments-equal-assignable args bs equal)

  arguments-equal-assignable :
      (args bs : LanguageTypes)
      → arguments_equal args bs ≡ true
      → arguments_assignable true args bs ≡ true
  arguments-equal-assignable nil bs h = refl
  arguments-equal-assignable (cons a args) nil h = refl
  arguments-equal-assignable (cons a args) (cons b bs) h =
      let (first, rest) = and-true _ _ h in
      rw (equal-assignable a b first, arguments-equal-assignable args bs rest) refl

-- A type that is assignable from another is initializable from it.
is_assignable-is_initializable_from :
    (t other : LanguageType) → is_assignable t other ≡ true → is_initializable_from t other ≡ true
unfolding is_assignable is_initializable_from
is_assignable-is_initializable_from t other h = assignable-initializable t other h

-- Equal types are initializable from and comparable to each other.
is_equal_to-is_initializable_from :
    (t other : LanguageType)
    → is_equal_to t other ≡ true
    → (is_initializable_from t other ≡ true)
      × (is_comparable_to t other ≡ true)
      × (is_comparable_to other t ≡ true)
unfolding is_initializable_from is_comparable_to
is_equal_to-is_initializable_from t other h =
    let one_way = equal-assignable t other h in (one_way, rw one_way refl, ground (arith, one_way))
