-- ===== src/Scope/Steps.antt =====
-- The steps of `walk_path_internal` one by one: what a step finds does not depend on whether a path is
-- put together, and where it leads from.
use hwpp.Prelude.{
  ℕ, ◌≡◌, refl, ap, ◌∙◌, subst, ◌⊎◌, inl, inr, true, false, Option, none, some, List, length,
  get_elem?, Outcome, ok, ◌>>=◌, raw, found-inj, raw-get, found-if, found-inversion, >>=-eq-ok,
}
use hwpp.Path.Element.{Element, ArrayMode, array_none, array_index, array_append}
use hwpp.Path.Sequence.{HwppPath, push_back}
use hwpp.Scope.{
  Scope, Dirent, DirentType, Store, ScopeError, register, field, scope, array, alias,
  array_from_dirent, scope_at, parent, dirent, has_bookmark,
}
use hwpp.Scope.Walk.{
  is_dotdot, on_path, push_up, push_dotdots, real_index, indexed_element, climb, step_up,
  step_bookmark, array_element, step_array, step_name, step,
}

module _ {B D L : Type 0} (st : Store B D L) where
  abbrev pub Found : Type 0
  Found = Outcome ScopeError (Option (ℕ × Option HwppPath))

  -- What `step_up` returns.
  pub step_up-inversion :
      (front : Element) (r : ℕ) (out o : Option HwppPath) (r' : ℕ)
      → step_up st front r out ≡ ok (some (r', o))
      → (s : Scope B D) × (scope_at st r ≡ ok s)
        × (parent r s ≡ r')
        × (on_path (push_up front) out ≡ o)
  unfolding step_up
  step_up-inversion front r out o r' h =
      let (s, hs, e) = >>=-eq-ok (scope_at st r) _ h in (s, hs, cc, cc)

  pub step_name-inversion :
      (front : Element) (r : ℕ) (out o : Option HwppPath) (r' : ℕ)
      → step_name st front r out ≡ ok (some (r', o))
      → (s : Scope B D) × (scope_at st r ≡ ok s)
        × (dirent front.m_name s ≡ some r')
        × (on_path (λ p. push_back front p) out ≡ o)
  unfolding step_name
  step_name-inversion front r out o r' h =
      let (s, hs, e) = >>=-eq-ok (scope_at st r) _ h in
      let (de, found, e') = found-inversion (dirent front.m_name s) _ e in (s, hs, found ∙ cc, cc)

  pub step_bookmark-inversion :
      (front : Element) (r : ℕ) (out o : Option HwppPath) (r' : ℕ)
      → step_bookmark st front r out ≡ ok (some (r', o))
      → (n : ℕ) × (t : Scope B D) × (climb st (length st) (has_bookmark front.m_name) r 0
          ≡ ok (r', n))
        × (scope_at st r' ≡ ok t)
        × (has_bookmark front.m_name t ≡ true)
        × (on_path (push_dotdots n) out ≡ o)
  unfolding step_bookmark
  step_bookmark-inversion front r out o r' h =
      let ((top, n), climbed, e) =
        >>=-eq-ok (climb st (length st) (has_bookmark front.m_name) r 0) _ h in
      let (t, ht, e') = >>=-eq-ok (scope_at st top) _ e in
      let (has, e'') = found-if (has_bookmark front.m_name t) _ e' in
      let (same, path) = found-inj e'' in
      (
        n,
        t,
        climbed ∙ ap (λ x. ok (x, n)) same,
        subst (λ x. scope_at st x ≡ ok t) same ht,
        has,
        path,
      )

  array_from_dirent-inversion :
      (d : Dirent B D L) (type : DirentType) (refs : List ℕ)
      → array_from_dirent d ≡ ok (type, refs)
      → d ≡ array type refs
  unfolding array_from_dirent
  array_from_dirent-inversion (register x) type refs h = cc
  array_from_dirent-inversion (field x) type refs h = cc
  array_from_dirent-inversion (scope x) type refs h = cc
  array_from_dirent-inversion (array t rs) type refs h = cc
  array_from_dirent-inversion (alias x) type refs h = cc

  -- An access that is no append.
  mode-inversion :
      (m : ArrayMode) (x : Found) {c : ℕ × Option HwppPath}
      → elim m [ array_append ↦ ok none | _ ↦ x ] ≡ ok (some c)
      → (x ≡ ok (some c)) × ((y : Found) → elim m [ array_append ↦ ok none | _ ↦ y ] ≡ y)
  mode-inversion array_none x h = (h, λ y. refl)
  mode-inversion array_index x h = (h, λ y. refl)
  mode-inversion array_append x h = cc

  -- What an array access returns once the index is known.
  abbrev pub element_found : Element → ℕ → ℕ → Option HwppPath → Found
  element_found front i x none = ok (some (x, none))
  element_found front i x (some p) =
      indexed_element front.m_name i >>= λ e. ok (some (x, some (push_back e p)))

  -- The array and the index of an access that returned.
  pub record Access (front : Element) (de : ℕ) (out o : Option HwppPath) (r' : ℕ) : Type 0 where
    pub type : DirentType
    pub refs : List ℕ
    pub index : ℕ
    pub is_there : ◌≡◌ {A = Outcome ScopeError (Dirent B D L)} (raw st de) (ok (array type refs))
    pub inside : real_index front.m_array_index (length refs) ≡ some index
    pub at_index : get_elem? refs index ≡ some r'
    pub no_append : (y : Found) → elim front.m_array_mode [ array_append ↦ ok none | _ ↦ y ] ≡ y
    pub returned : element_found front index r' out ≡ ok (some (r', o))

  array_element-Access :
      (front : Element) (de : ℕ) (out o : Option HwppPath) (r' : ℕ)
      → array_element st front de out ≡ ok (some (r', o))
      → Access front de out o r'
  unfolding array_element
  array_element-Access front de out o r' h =
      let ((type, refs), got, e) = >>=-eq-ok (raw st de >>= array_from_dirent) _ h in
      let (d, hd, ha) = >>=-eq-ok (raw st de) array_from_dirent got in
      let (e', mode) = mode-inversion front.m_array_mode _ e in
      let (i, hi, e'') = found-inversion (real_index front.m_array_index (length refs)) _ e' in
      let (x, hx, e3) = >>=-eq-ok (raw refs i) _ e'' in
      let (same, ends) = last_part i x out e3 in
      record {
        type = type;
        refs = refs;
        index = i;
        is_there = hd ∙ ap ok (array_from_dirent-inversion d type refs ha);
        inside = hi;
        at_index = raw-get refs i hx ∙ ap some same;
        no_append = mode;
        returned = ends;
      }
    where
      last_part :
          (i x : ℕ) (out : Option HwppPath)
          → ◌≡◌ {A = Found}
              (elim out as (λ _. Found) [
                | none ↦ ok (some (x, none))
                | some p ↦
                    indexed_element front.m_name i >>= λ e. ok (some (x, some (push_back e p)))
              ])
              (ok (some (r', o)))
          → (x ≡ r') × (element_found front i r' out ≡ ok (some (r', o)))
      last_part i x none e =
          let (same, path) = found-inj e in (same, ap (λ y. ok (some (r', y))) path)
      last_part i x (some p) e =
          let (elem, helem, e4) = >>=-eq-ok (indexed_element front.m_name i) _ e in
          let (same, path) = found-inj e4 in (same, rw helem (ap (λ y. ok (some (r', y))) path))

  -- A step that neither goes up nor to a bookmark.
  pub step-access :
      (e : Element) (q : ℕ) (out : Option HwppPath)
      → is_dotdot e ≡ false
      → e.m_is_bookmark ≡ false
      → step st e q out
        ≡ elim e.m_array_mode [ array_none ↦ step_name st e q out | _ ↦ step_array st e q out ]
  unfolding step
  step-access e q out named plain = rw (named, plain) refl

  pub access-cases :
      (m : ArrayMode) (x y : Found) {c : ℕ × Option HwppPath}
      → elim m [ array_none ↦ x | _ ↦ y ] ≡ ok (some c)
      → ((m ≡ array_none) × (x ≡ ok (some c)))
        ⊎ ((y ≡ ok (some c)) × ((w z : Found) → elim m [ array_none ↦ z | _ ↦ w ] ≡ w))
  access-cases array_none x y h = inl (refl, h)
  access-cases array_index x y h = inr (h, λ w z. refl)
  access-cases array_append x y h = inr (h, λ w z. refl)

  pub step_array-inversion :
      (front : Element) (r : ℕ) (out o : Option HwppPath) (r' : ℕ)
      → step_array st front r out ≡ ok (some (r', o))
      → (s : Scope B D) × (de : ℕ) × (scope_at st r ≡ ok s)
        × (dirent front.m_name s ≡ some de)
        × Access front de out o r'
  unfolding step_array
  step_array-inversion front r out o r' h =
      let (s, hs, e) = >>=-eq-ok (scope_at st r) _ h in
      let (de, found, e') = found-inversion (dirent front.m_name s) _ e in
      (s, de, hs, found, array_element-Access front de out o r' e')
