-- ===== src/Scope/Resolve.antt =====
-- Every step of `walk_path_internal` keeps the canonical path right, and so does the whole walk.
use hwpp.Prelude.{
  ℕ, zero, suc, ◌^◌, ◌<◌, ◌≡◌, refl, sym, ap, ◌∙◌, subst, inl, inr, Bool, true, false, Option, none,
  some, List, [], ◌∷◌, arith, Bool-cases, length, get_elem?, Outcome, ok, undefined, raw, >>=-ok,
  found-some, found-inj,
}
use hwpp.Path.Indexed.{is_ident, indexed}
use hwpp.Path.Element.{Element, ArrayMode, array_none, array_index, array_append}
use hwpp.Path.Sequence.{HwppPath, push_back, pop_back, back, last}
use hwpp.Scope.{
  Scope, Dirent, DirentType, Store, ScopeError, array, array_from_dirent, scope_at, dirent,
  has_bookmark,
}
use hwpp.Scope.Walk.{
  dotdot, is_dotdot, push_up, push_dotdots, real_index, indexed_element, climb, step_up,
  step_bookmark, array_element, step_array, step_name, step,
}
use hwpp.Scope.Steps.{
  Found, step_up-inversion, step_name-inversion, step_bookmark-inversion, step-access, access-cases,
  step_array-inversion,
}
use hwpp.Scope.Canonical.{
  is_plain_access, IsLinked, Arrives, next, climb-Arrives, push_up-Arrives, step-dotdot,
  indexed_element-indexed, not-is_dotdot-indexed, real_index-lt, real_index-pos,
}

pub push_dotdots-absolute : (n : ℕ) (p : HwppPath) → (push_dotdots n p).m_absolute ≡ p.m_absolute
unfolding push_dotdots push_back
push_dotdots-absolute zero p = refl
push_dotdots-absolute (suc n) p = push_dotdots-absolute n (push_back dotdot p)

push_up-absolute :
    (front : Element) (es : List Element) (absolute : Bool)
    → (push_up front (record { m_list = es; m_absolute = absolute })).m_absolute ≡ absolute
unfolding push_up push_back pop_back back
push_up-absolute front [] absolute = refl
push_up-absolute front (e ∷ es) absolute = elim (Bool-cases (is_dotdot (last e es))) [
  | inl dotted ↦ rw dotted refl
  | inr named ↦ rw named refl
]

module _ {B D L : Type 0} (st : Store B D L) where
  pub step-step_up :
      (e : Element) (r : ℕ) (out : Option HwppPath)
      → is_dotdot e ≡ true
      → step st e r out ≡ step_up st e r out
  unfolding step
  step-step_up e r out dotted = rw dotted refl

  pub step-step_bookmark :
      (e : Element) (r : ℕ) (out : Option HwppPath)
      → is_dotdot e ≡ false
      → e.m_is_bookmark ≡ true
      → step st e r out ≡ step_bookmark st e r out
  unfolding step
  step-step_bookmark e r out named mark = rw (named, mark) refl

  -- An array access that returns when no path is put together.
  array_element-none :
      (front : Element) (de : ℕ) (type : DirentType) (refs : List ℕ) (i r : ℕ)
      → ◌≡◌ {A = Outcome ScopeError (Dirent B D L)} (raw st de) (ok (array type refs))
      → real_index front.m_array_index (length refs) ≡ some i
      → get_elem? refs i ≡ some r
      → ((y : Found st) → elim front.m_array_mode [ array_append ↦ ok none | _ ↦ y ] ≡ y)
      → array_element st front de none ≡ ok (some (r, none))
  unfolding array_element array_from_dirent
  array_element-none front de type refs i r there inside at_index no_append =
      rw there (no_append _ ∙ rw inside (>>=-ok (raw refs i) _ read))
    where
      read : ◌≡◌ {A = Outcome ScopeError ℕ} (raw refs i) (ok r)
      read = rw (at_index, raw) refl

  step_bookmark-none :
      (front : Element) (r r' n : ℕ) (t : Scope B D)
      → climb st (length st) (has_bookmark front.m_name) r 0 ≡ ok (r', n)
      → scope_at st r' ≡ ok t
      → has_bookmark front.m_name t ≡ true
      → step_bookmark st front r none ≡ ok (some (r', none))
  unfolding step_bookmark
  step_bookmark-none front r r' n t climbed there has = rw climbed (rw there (rw has refl))

  step_array-none :
      (front : Element) (r de r' : ℕ) (s : Scope B D)
      → scope_at st r ≡ ok s
      → dirent front.m_name s ≡ some de
      → array_element st front de none ≡ ok (some (r', none))
      → step_array st front r none ≡ ok (some (r', none))
  unfolding step_array
  step_array-none front r de r' s here found element =
      >>=-ok (scope_at st r) _ here ∙ found-some (dirent front.m_name s) _ found ∙ element

  step_name-none :
      (front : Element) (r r' : ℕ) (s : Scope B D)
      → scope_at st r ≡ ok s
      → dirent front.m_name s ≡ some r'
      → step_name st front r none ≡ ok (some (r', none))
  unfolding step_name
  step_name-none front r r' s here found =
      >>=-ok (scope_at st r) _ here ∙ found-some (dirent front.m_name s) _ found

  -- A step keeps that the path which is put together leads to where the walk is, and it finds the same
  -- if no path is put together.
  pub record Kept (s r r' : ℕ) (front : Element) (p : HwppPath) (o : Option HwppPath) : Type 0 where
    pub path : HwppPath
    pub made : some path ≡ o
    pub leads : Arrives st s path.m_list r'
    pub same_start : path.m_absolute ≡ p.m_absolute
    pub bare : step st front r none ≡ ok (some (r', none))

  abbrev pub IsPlace : ℕ → Dirent B D L → Type 0
  IsPlace r d = ◌≡◌ {A = Outcome ScopeError (Dirent B D L)} (raw st r) (ok d)

  step_up-Kept :
      IsLinked st
      → (s r r' : ℕ) (front : Element) (d : Dirent B D L) (p : HwppPath) (o : Option HwppPath)
      → is_dotdot front ≡ true
      → step_up st front r (some p) ≡ ok (some (r', o))
      → IsPlace r' d
      → Arrives st s p.m_list r
      → Kept s r r' front p o
  step_up-Kept linked s r r' front d p o dotted h there path =
      let (here, hs, at_parent, made) = step_up-inversion st front r (some p) o r' h in
      record {
        path = push_up front p;
        made = made;
        leads =
            subst (λ x. Arrives st s (push_up front p).m_list x) at_parent
              (push_up-Arrives st linked s r front here d p.m_list p.m_absolute dotted hs
                (subst (λ x. IsPlace x d) (sym at_parent) there) path);
        same_start = push_up-absolute front p.m_list p.m_absolute;
        bare = step-dotdot st front r here dotted hs ∙ ap (λ x. ok (some (x, none))) at_parent;
      }

  step_bookmark-Kept :
      (s r r' : ℕ) (front : Element) (p : HwppPath) (o : Option HwppPath)
      → is_dotdot front ≡ false
      → front.m_is_bookmark ≡ true
      → step_bookmark st front r (some p) ≡ ok (some (r', o))
      → Arrives st s p.m_list r
      → Kept s r r' front p o
  step_bookmark-Kept s r r' front p o named mark h path =
      let (n, t, climbed, there, has, made) = step_bookmark-inversion st front r (some p) o r' h in
      let (m, count, leads) =
        climb-Arrives st (length st) (has_bookmark front.m_name) s r 0 r' n p climbed path in
      let same : n ≡ m = omega (arith, count) in
      record {
        path = push_dotdots n p;
        made = made;
        leads = subst (λ x. Arrives st s (push_dotdots x p).m_list r') (sym same) leads;
        same_start = push_dotdots-absolute n p;
        bare =
            step-step_bookmark front r none named mark
            ∙ step_bookmark-none front r r' n t climbed there has;
      }

  step_name-Kept :
      (s r r' : ℕ) (front : Element) (d : Dirent B D L) (p : HwppPath) (o : Option HwppPath)
      → is_dotdot front ≡ false
      → front.m_is_bookmark ≡ false
      → front.m_array_mode ≡ array_none
      → step_name st front r (some p) ≡ ok (some (r', o))
      → IsPlace r' d
      → Arrives st s p.m_list r
      → Kept s r r' front p o
  unfolding push_back
  step_name-Kept s r r' front d p o named plain mode h there path =
      let (here, hs, found, made) = step_name-inversion st front r (some p) o r' h in
      let bare =
        step-access st front r none named plain
        ∙ rw mode (step_name-none front r r' here hs found) in
      record {
        path = push_back front p;
        made = made;
        leads = next p.m_list front r d path refl (inr plain) bare there;
        same_start = refl;
        bare = bare;
      }

  step_array-Kept :
      IsLinked st
      → (s r r' : ℕ) (front : Element) (d : Dirent B D L) (p : HwppPath) (o : Option HwppPath)
      → is_dotdot front ≡ false
      → front.m_is_bookmark ≡ false
      → is_ident front.m_name ≡ true
      → ((w z : Found st) → elim front.m_array_mode [ array_none ↦ z | _ ↦ w ] ≡ w)
      → step_array st front r (some p) ≡ ok (some (r', o))
      → IsPlace r' d
      → Arrives st s p.m_list r
      → Kept s r r' front p o
  unfolding push_back
  step_array-Kept linked s r r' front d p o named plain ident mode h there path =
      let (here, de, hs, found, access) = step_array-inversion st front r (some p) o r' h in
      let i = access.index in
      let inside : i < length access.refs =
        real_index-lt front.m_array_index (length access.refs) i access.inside in
      let short : length access.refs < 2 ^ 31 =
        linked.short de access.type access.refs access.is_there in
      let e = indexed front.m_name i in
      let printed : indexed_element front.m_name i ≡ ok e =
        indexed_element-indexed front.m_name i ident (omega arith) in
      let made =
        found-inj (sym (>>=-ok (indexed_element front.m_name i) _ printed) ∙ access.returned) in
      let by_index =
        array_element-none e de access.type access.refs i r' access.is_there
          (real_index-pos (length access.refs) i inside) access.at_index (λ y. refl) in
      let to_element =
        array_element-none front de access.type access.refs i r' access.is_there access.inside
          access.at_index access.no_append in
      record {
        path = push_back e p;
        made = made.1;
        leads =
            next p.m_list e r d path refl (inr refl)
              (step-access st e r none (not-is_dotdot-indexed front.m_name i ident) refl
                ∙ step_array-none e r de r' here hs found by_index)
              there;
        same_start = refl;
        bare =
            step-access st front r none named plain
            ∙ mode _ _
            ∙ step_array-none front r de r' here hs found to_element;
      }

  pub access-ident :
      (front : Element)
      → is_plain_access front ≡ true
      → ((w z : Found st) → elim front.m_array_mode [ array_none ↦ z | _ ↦ w ] ≡ w)
      → is_ident front.m_name ≡ true
  access-ident front plain mode = go front.m_array_mode plain mode
    where
      go :
          (m : ArrayMode)
          → elim m [ array_none ↦ true | _ ↦ is_ident front.m_name ] ≡ true
          → ((w z : Found st) → elim m [ array_none ↦ z | _ ↦ w ] ≡ w)
          → is_ident front.m_name ≡ true
      go array_none h both = absurd (none≢undefined (both undefined (ok none)))
        where
          none≢undefined : ¬ (◌≡◌ {A = Found st} (ok none) undefined)
          none≢undefined e = cc
      go array_index h both = h
      go array_append h both = h

  pub step-Kept :
      IsLinked st
      → (s r r' : ℕ) (front : Element) (d : Dirent B D L) (p : HwppPath) (o : Option HwppPath)
      → is_plain_access front ≡ true
      → step st front r (some p) ≡ ok (some (r', o))
      → IsPlace r' d
      → Arrives st s p.m_list r
      → Kept s r r' front p o
  step-Kept linked s r r' front d p o access h there path = elim (Bool-cases (is_dotdot front)) [
    | inl dotted ↦
        step_up-Kept linked s r r' front d p o dotted
          (sym (step-step_up front r (some p) dotted) ∙ h) there path
    | inr named ↦ elim (Bool-cases front.m_is_bookmark) [
      | inl mark ↦
          step_bookmark-Kept s r r' front p o named mark
            (sym (step-step_bookmark front r (some p) named mark) ∙ h) path
      | inr plain ↦
          elim (access-cases st front.m_array_mode (step_name st front r (some p))
            (step_array st front r (some p))
            (sym (step-access st front r (some p) named plain) ∙ h)) [
              | inl (mode, by_name) ↦
                  step_name-Kept s r r' front d p o named plain mode by_name there path
              | inr (by_index, mode) ↦
                  step_array-Kept linked s r r' front d p o named plain
                    (access-ident front access mode) mode by_index there path
            ]
    ]
  ]
