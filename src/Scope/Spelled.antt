-- ===== src/Scope/Spelled.antt =====
-- A step that finds something also finds it when a path is put together: an index prints to an
-- element.
use hwpp.Prelude.{
  ℕ, ◌^◌, ◌<◌, ◌≡◌, refl, sym, ap, ◌∙◌, inl, inr, true, Option, none, some, arith, Bool-cases,
  length, Outcome, ok, raw, >>=-ok, found-some, found-inj,
}
use hwpp.Path.Indexed.{is_ident, indexed}
use hwpp.Path.Element.{Element}
use hwpp.Path.Sequence.{HwppPath, push_back}
use hwpp.Scope.{Store, ScopeError, array_from_dirent, scope_at, dirent}
use hwpp.Scope.Walk.{
  is_dotdot, push_up, push_dotdots, indexed_element, step_up, step_bookmark, array_element,
  step_array, step_name, step,
}
use hwpp.Scope.Steps.{
  Found, step_up-inversion, step_name-inversion, step_bookmark-inversion, Access, step-access,
  access-cases, step_array-inversion,
}
use hwpp.Scope.Canonical.{is_plain_access, IsLinked, indexed_element-indexed, real_index-lt}
use hwpp.Scope.Resolve.{step-step_up, step-step_bookmark, access-ident}

module _ {B D L : Type 0} (st : Store B D L) where
  -- The step finds the place, and leaves some path.
  abbrev pub Spells : Found st → ℕ → Type 0
  Spells o r = (q : HwppPath) × (o ≡ ok (some (r, some q)))

  step_up-Spells :
      (front : Element) (r r' : ℕ) (p : HwppPath)
      → step_up st front r none ≡ ok (some (r', none))
      → Spells (step_up st front r (some p)) r'
  unfolding step_up
  step_up-Spells front r r' p h =
      let (s, here, up, out) = step_up-inversion st front r none none r' h in
      (
        push_up front p,
        >>=-ok (scope_at st r) _ here ∙ ap (λ x. ok (some (x, some (push_up front p)))) up,
      )

  step_bookmark-Spells :
      (front : Element) (r r' : ℕ) (p : HwppPath)
      → step_bookmark st front r none ≡ ok (some (r', none))
      → Spells (step_bookmark st front r (some p)) r'
  unfolding step_bookmark
  step_bookmark-Spells front r r' p h =
      let (n, t, climbed, there, has, out) = step_bookmark-inversion st front r none none r' h in
      (push_dotdots n p, rw climbed (rw there (rw has refl)))

  step_name-Spells :
      (front : Element) (r r' : ℕ) (p : HwppPath)
      → step_name st front r none ≡ ok (some (r', none))
      → Spells (step_name st front r (some p)) r'
  unfolding step_name
  step_name-Spells front r r' p h =
      let (s, here, found, out) = step_name-inversion st front r none none r' h in
      (
        push_back front p,
        >>=-ok (scope_at st r) _ here ∙ found-some (dirent front.m_name s) _ found,
      )

  array_element-Spells :
      IsLinked st
      → (front : Element) (de r : ℕ) (p : HwppPath) → is_ident front.m_name ≡ true
      → Access st front de none none r
      → Spells (array_element st front de (some p)) r
  unfolding array_element array_from_dirent
  array_element-Spells linked front de r p ident access = (
    push_back (indexed front.m_name access.index) p,
    rw access.is_there (
        access.no_append _
        ∙ rw access.inside (
            >>=-ok (raw access.refs access.index) _ read
            ∙ >>=-ok (indexed_element front.m_name access.index) _ printed)),
  )
    where
      read : ◌≡◌ {A = Outcome ScopeError ℕ} (raw access.refs access.index) (ok r)
      read = rw (access.at_index, raw) refl

      inside : access.index < length access.refs
      inside = real_index-lt front.m_array_index (length access.refs) access.index access.inside

      short : length access.refs < 2 ^ 31
      short = linked.short de access.type access.refs access.is_there

      printed : indexed_element front.m_name access.index ≡ ok (indexed front.m_name access.index)
      printed =
          indexed_element-indexed front.m_name access.index ident (omega (arith, inside, short))

  step_array-Spells :
      IsLinked st
      → (front : Element) (r r' : ℕ) (p : HwppPath) → is_ident front.m_name ≡ true
      → step_array st front r none ≡ ok (some (r', none))
      → Spells (step_array st front r (some p)) r'
  unfolding step_array
  step_array-Spells linked front r r' p ident h =
      let (s, de, here, found, access) = step_array-inversion st front r none none r' h in
      let (q, e) = array_element-Spells linked front de r' p ident access in
      (q, >>=-ok (scope_at st r) _ here ∙ found-some (dirent front.m_name s) _ found ∙ e)

  -- A step that is given no path leaves none.
  pub step-no_path :
      (front : Element) (r r' : ℕ) (o : Option HwppPath)
      → step st front r none ≡ ok (some (r', o))
      → none ≡ o
  step-no_path front r r' o h = elim (Bool-cases (is_dotdot front)) [
    | inl dotted ↦
        let (s, here, up, out) =
          step_up-inversion st front r none o r' (sym (step-step_up st front r none dotted) ∙ h) in
        out
    | inr named ↦ elim (Bool-cases front.m_is_bookmark) [
      | inl mark ↦
          let (n, t, climbed, there, has, out) =
            step_bookmark-inversion st front r none o r'
              (sym (step-step_bookmark st front r none named mark) ∙ h) in
          out
      | inr plain ↦
          elim (access-cases st front.m_array_mode (step_name st front r none)
            (step_array st front r none) (sym (step-access st front r none named plain) ∙ h)) [
              | inl (mode, by_name) ↦
                  let (s, here, found, out) = step_name-inversion st front r none o r' by_name in
                  out
              | inr (by_index, mode) ↦
                  let (s, de, here, found, access) =
                    step_array-inversion st front r none o r' by_index in
                  (found-inj access.returned).1
            ]
    ]
  ]

  pub step-Spells :
      IsLinked st
      → (front : Element) (r r' : ℕ) (p : HwppPath) → is_plain_access front ≡ true
      → step st front r none ≡ ok (some (r', none))
      → Spells (step st front r (some p)) r'
  step-Spells linked front r r' p access h = elim (Bool-cases (is_dotdot front)) [
    | inl dotted ↦
        let (q, e) = step_up-Spells front r r' p (sym (step-step_up st front r none dotted) ∙ h) in
        (q, step-step_up st front r (some p) dotted ∙ e)
    | inr named ↦ elim (Bool-cases front.m_is_bookmark) [
      | inl mark ↦
          let (q, e) =
            step_bookmark-Spells front r r' p
              (sym (step-step_bookmark st front r none named mark) ∙ h) in
          (q, step-step_bookmark st front r (some p) named mark ∙ e)
      | inr plain ↦
          elim (access-cases st front.m_array_mode (step_name st front r none)
            (step_array st front r none) (sym (step-access st front r none named plain) ∙ h)) [
              | inl (mode, by_name) ↦
                  let (q, e) = step_name-Spells front r r' p by_name in
                  (q, step-access st front r (some p) named plain ∙ rw mode e)
              | inr (by_index, mode) ↦
                  let (q, e) =
                    step_array-Spells linked front r r' p (access-ident st front access mode)
                      by_index in
                  (q, step-access st front r (some p) named plain ∙ mode _ _ ∙ e)
            ]
    ]
  ]
