-- ===== src/Scope/Ends.antt =====
-- Lookups end: in a tree of scopes without aliases the fuel of one lookup is enough.
use hwpp.Prelude.{
  ℕ, suc, ◌≡◌, sym, ◌∙◌, subst, ◌≢◌, inl, inr, Bool, true, false, not, ◌||◌, Option, none, some,
  List, [], ◌∷◌, ◌++◌, eqb, if◌then◌else◌, length, Bytes, bytes_eq, Outcome, ok, throw, undefined,
  ◌>>=◌, raw, Avoids, >>=-Avoids, if-Avoids, found-Avoids, ok-Avoids, raw-Avoids, if-cases,
  >>=-eq-ok, ok-inj,
}
use hwpp.Prelude.Int.{decimal}
use hwpp.Path.Element.{
  Element, InvalidError, ArrayMode, array_none, array_index, array_append, parse,
}
use hwpp.Path.Sequence.{HwppPath, empty_path, push_back}
use hwpp.Scope.{
  Scope, Dirent, Store, ScopeError, invalid_path, out_of_fuel, is_alias, register, field, scope,
  array, alias, array_from_dirent, scope_from_dirent, scope_at, dirent, has_bookmark,
}
use hwpp.Scope.Walk.{
  on_path, push_dotdots, is_dotdot, real_index, indexed_element, climb, step, step_up,
  step_bookmark, array_element, step_array, step_name, follow, walk_path_internal, walk_path,
  lookup_dirent, resolve_path,
}
use hwpp.Scope.Climbs.{IsTree, climb-Climbed, Climbed-end}

abbrev pub Ends : {A : Type 0} → Outcome ScopeError A → Type 0
Ends o = Avoids out_of_fuel o

indexed_element-Ends : (name : Bytes) (i : ℕ) → Ends (indexed_element name i)
unfolding indexed_element
indexed_element-Ends name i = go (parse (name ++ b'[' ∷ (decimal i ++ b']' ∷ [])))
  where
    go :
        (o : Outcome InvalidError Element)
        → Ends (elim o [ ok e ↦ ok e | throw e ↦ throw invalid_path | undefined ↦ undefined ])
    go (ok e) = λ same. cc
    go (throw e) = λ same. cc
    go undefined = λ same. cc

module _ {B D L : Type 0} (st : Store B D L) where
  scope_from_dirent-Ends : (d : Dirent B D L) → Ends (scope_from_dirent d)
  unfolding scope_from_dirent
  scope_from_dirent-Ends (register x) = λ same. cc
  scope_from_dirent-Ends (field x) = λ same. cc
  scope_from_dirent-Ends (scope x) = λ same. cc
  scope_from_dirent-Ends (array t rs) = λ same. cc
  scope_from_dirent-Ends (alias x) = λ same. cc

  array_from_dirent-Ends : (d : Dirent B D L) → Ends (array_from_dirent d)
  unfolding array_from_dirent
  array_from_dirent-Ends (register x) = λ same. cc
  array_from_dirent-Ends (field x) = λ same. cc
  array_from_dirent-Ends (scope x) = λ same. cc
  array_from_dirent-Ends (array t rs) = λ same. cc
  array_from_dirent-Ends (alias x) = λ same. cc

  scope_at-Ends : (r : ℕ) → Ends (scope_at st r)
  unfolding scope_at
  scope_at-Ends r =
      >>=-Avoids out_of_fuel (raw st r) scope_from_dirent (raw-Avoids out_of_fuel st r)
        (λ d _. scope_from_dirent-Ends d)

  climb-Ends :
      IsTree st
      → (stop : Scope B D → Bool) (r : ℕ) (s : Scope B D) → scope_at st r ≡ ok s
      → Ends (climb st (length st) stop r 0)
  climb-Ends tree stop r s here same =
      let (top, n, e, path, few) = climb-Climbed st tree stop r s here in
      ok-Avoids out_of_fuel (top, n) (sym e ∙ same)

  array_element-Ends :
      (front : Element) (de : ℕ) (out : Option HwppPath) → Ends (array_element st front de out)
  unfolding array_element
  array_element-Ends front de out =
      >>=-Avoids out_of_fuel (raw st de >>= array_from_dirent) _
        (>>=-Avoids out_of_fuel (raw st de) array_from_dirent (raw-Avoids out_of_fuel st de)
          (λ d _. array_from_dirent-Ends d))
        (λ (type, refs) _. mode front.m_array_mode _ (
          found-Avoids out_of_fuel (real_index front.m_array_index (length refs)) _ (λ i _.
            >>=-Avoids out_of_fuel (raw refs i) _ (raw-Avoids out_of_fuel refs i)
              (λ r _. made i r out))))
    where
      mode :
          (m : ArrayMode) (x : Outcome ScopeError (Option (ℕ × Option HwppPath)))
          → Ends x
          → Ends (elim m [ array_append ↦ ok none | _ ↦ x ])
      mode array_none x h = h
      mode array_index x h = h
      mode array_append x h = λ same. cc

      made :
          (i r : ℕ) (out : Option HwppPath)
          → Ends (elim out as (λ _. Outcome ScopeError (Option (ℕ × Option HwppPath))) [
            | none ↦ ok (some (r, none))
            | some p ↦ indexed_element front.m_name i >>= λ e. ok (some (r, some (push_back e p)))
          ])
      made i r none = λ same. cc
      made i r (some p) =
          >>=-Avoids out_of_fuel (indexed_element front.m_name i) _
            (indexed_element-Ends front.m_name i) (λ e _. ok-Avoids out_of_fuel _)

  step_name-Ends :
      (front : Element) (this : ℕ) (out : Option HwppPath) → Ends (step_name st front this out)
  unfolding step_name
  step_name-Ends front this out =
      >>=-Avoids out_of_fuel (scope_at st this) _ (scope_at-Ends this) (λ s _.
        found-Avoids out_of_fuel (dirent front.m_name s) _ (λ de _. ok-Avoids out_of_fuel _))

  step_array-Ends :
      (front : Element) (this : ℕ) (out : Option HwppPath) → Ends (step_array st front this out)
  unfolding step_array
  step_array-Ends front this out =
      >>=-Avoids out_of_fuel (scope_at st this) _ (scope_at-Ends this) (λ s _.
        found-Avoids out_of_fuel (dirent front.m_name s) _
          (λ de _. array_element-Ends front de out))

  -- A step from a scope ends.
  step-Ends :
      IsTree st
      → (front : Element) (this : ℕ) (out : Option HwppPath) (s : Scope B D)
      → scope_at st this ≡ ok s
      → Ends (step st front this out)
  unfolding step step_up step_bookmark
  step-Ends tree front this out s here =
      if-Avoids out_of_fuel (is_dotdot front) _ _
        (λ dotted.
          >>=-Avoids out_of_fuel (scope_at st this) _ (scope_at-Ends this)
            (λ t _. ok-Avoids out_of_fuel _))
        (λ named.
          if-Avoids out_of_fuel front.m_is_bookmark _ _
            (λ mark.
              >>=-Avoids out_of_fuel (climb st (length st) (has_bookmark front.m_name) this 0) _
                (climb-Ends tree (has_bookmark front.m_name) this s here)
                (λ end _. >>=-Avoids out_of_fuel (scope_at st end.0) _ (scope_at-Ends end.0) (λ t _.
                  if-Avoids out_of_fuel (has_bookmark front.m_name t) _ _
                    (λ _. ok-Avoids out_of_fuel _) (λ _. ok-Avoids out_of_fuel _))))
            (λ plain. access front.m_array_mode))
    where
      access :
          (m : ArrayMode)
          → Ends (elim m [
            | array_none ↦ step_name st front this out
            | _ ↦ step_array st front this out
          ])
      access array_none = step_name-Ends front this out
      access array_index = step_array-Ends front this out
      access array_append = step_array-Ends front this out

  -- There is no alias.
  abbrev pub IsAliasFree : Type 0
  IsAliasFree =
      (r : ℕ) (d : Dirent B D L)
      → ◌≡◌ {A = Outcome ScopeError (Dirent B D L)} (raw st r) (ok d)
      → is_alias d ≡ false

  module _ (tree : IsTree st) (no_alias : IsAliasFree)
      (look : ℕ → HwppPath → Outcome ScopeError (Option ℕ)) (resolve : Bool) where
    follow-Ends : (more : Bool) (this de : ℕ) → Ends (follow st look more this de)
    unfolding follow
    follow-Ends more this de =
        >>=-Avoids out_of_fuel (raw st de) _ (raw-Avoids out_of_fuel st de)
          (λ d there. rw (no_alias de d there) (ok-Avoids out_of_fuel _))

    walk_path_internal-Ends :
        (es : List Element) (this : ℕ) (out : Option HwppPath) (s : Scope B D)
        → scope_at st this ≡ ok s
        → Ends (walk_path_internal st look resolve es this out)
    unfolding walk_path_internal
    walk_path_internal-Ends [] this out s here = λ same. cc
    walk_path_internal-Ends (front ∷ rest) this out s here =
        >>=-Avoids out_of_fuel (step st front this out) _ (step-Ends tree front this out s here)
          (λ found _. found-Avoids out_of_fuel found _ (λ a _.
            >>=-Avoids out_of_fuel (follow st look (not (eqb (length rest) 0) || resolve) this a.0)
              _ (follow-Ends (not (eqb (length rest) 0) || resolve) this a.0)
              (λ target _. found-Avoids out_of_fuel target _ (λ r _.
                if-Avoids out_of_fuel (eqb (length rest) 0) _ _ (λ _. ok-Avoids out_of_fuel _)
                  (λ _.
                    >>=-Avoids out_of_fuel (scope_at st r) _ (scope_at-Ends r)
                      (λ t at. walk_path_internal-Ends rest r a.1 t at))))))

    -- Where an absolute path begins.
    top-scope :
        (this : ℕ) (s : Scope B D) (end : ℕ × ℕ)
        → scope_at st this ≡ ok s
        → climb st (length st) (λ s. false) this 0 ≡ ok end
        → (t : Scope B D) × (scope_at st end.0 ≡ ok t)
    top-scope this s end here climbs =
        let (top, n, e, path, few) = climb-Climbed st tree (λ s. false) this s here in
        let (t, found, ends) = Climbed-end st path in
        (t, subst (λ x. scope_at st x.0 ≡ ok t) (ok-inj (sym e ∙ climbs)) found)

    walk_path-Ends :
        (path : HwppPath) (this : ℕ) (out : Option HwppPath) (s : Scope B D)
        → scope_at st this ≡ ok s
        → Ends (walk_path st look resolve path this out)
    unfolding walk_path
    walk_path-Ends path this out s here =
        >>=-Avoids out_of_fuel _ _
          (if-Avoids out_of_fuel path.m_absolute _ _
            (λ _.
              >>=-Avoids out_of_fuel (climb st (length st) (λ s. false) this 0) _
                (climb-Ends tree (λ s. false) this s here) (λ end _. ok-Avoids out_of_fuel _))
            (λ _. ok-Avoids out_of_fuel _))
          (λ from_ started.
            if-Avoids out_of_fuel (eqb (length path.m_list) 0) _ _ (λ _. ok-Avoids out_of_fuel _)
              (λ _.
                let (t, at) = begins from_ started in
                walk_path_internal-Ends path.m_list from_.0 from_.1 t at))
      where
        begins :
            (from_ : ℕ × Option HwppPath)
            → (if path.m_absolute
                then (climb st (length st) (λ s. false) this 0 >>= λ top.
                    ok (top.0, on_path (push_dotdots top.1) out))
                else ok (this, out))
              ≡ ok from_
            → (t : Scope B D) × (scope_at st from_.0 ≡ ok t)
        begins from_ started = elim (if-cases path.m_absolute started) [
          | inl (absolute, climbs) ↦
              let (end, climbed, e) =
                >>=-eq-ok (climb st (length st) (λ s. false) this 0) _ climbs in
              let (t, at) = top-scope this s end here climbed in
              (t, subst (λ x. scope_at st x.0 ≡ ok t) (ok-inj e) at)
          | inr (relative, e) ↦ (s, subst (λ x. scope_at st x.0 ≡ ok s) (ok-inj e) here)
        ]

  -- In a tree of scopes without aliases, `lookup_dirent` and `resolve_path` end for every path from
  -- every scope: neither runs out of fuel, with no nested lookup at all.
  pub lookup_dirent-Ends :
      IsTree st
      → IsAliasFree
      → (this : ℕ) (s : Scope B D) → scope_at st this ≡ ok s
      → (fuel : ℕ) (resolve : Bool) (path : HwppPath)
      → (lookup_dirent st (suc fuel) resolve this path ≢ throw out_of_fuel)
        × (resolve_path st fuel this path ≢ throw out_of_fuel)
  unfolding lookup_dirent resolve_path
  lookup_dirent-Ends tree no_alias this s here fuel resolve path = (
    >>=-Avoids out_of_fuel _ _
        (walk_path-Ends tree no_alias (lookup_dirent st fuel false) resolve path this none s here)
        (λ found _. found-Avoids out_of_fuel found _ (λ a _. ok-Avoids out_of_fuel _)),
    >>=-Avoids out_of_fuel _ _
        (walk_path-Ends tree no_alias (lookup_dirent st fuel false) true path this (some empty_path)
          s here)
        (λ found _. chosen found),
  )
    where
      chosen :
          (found : Option (ℕ × Option HwppPath))
          → Ends (elim found as (λ _. Outcome ScopeError HwppPath) [
            | some (de, some q) ↦ ok q
            | _ ↦ ok empty_path
          ])
      chosen none = λ same. cc
      chosen (some (de, none)) = λ same. cc
      chosen (some (de, some q)) = λ same. cc
