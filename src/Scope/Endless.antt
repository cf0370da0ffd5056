-- ===== src/Scope/Endless.antt =====
-- An alias through itself: the lookup of a path that the code never ends.
use hwpp.Prelude.{
  ℕ, zero, suc, ◌≡◌, refl, ◌∙◌, Bool, true, false, not, ◌||◌, Option, none, some, List, ◌∷◌, arith,
  eqb, length, Outcome, ok, throw, raw, >>=-throw, if-false, >>=-ok, found-some,
}
use hwpp.Path.Element.{Element, array_none}
use hwpp.Path.Sequence.{HwppPath}
use hwpp.Scope.{
  Scope, Dirent, Store, ScopeError, out_of_fuel, is_alias, alias_from_dirent, alias, scope_at,
  dirent,
}
use hwpp.Scope.Walk.{
  is_dotdot, step, step_name, follow, walk_path_internal, walk_path, lookup_dirent,
}

module _ {B D L : Type 0} (st : Store B D L) where
  step-name :
      (e : Element) (this r : ℕ) (s : Scope B D)
      → is_dotdot e ≡ false
      → e.m_is_bookmark ≡ false
      → e.m_array_mode ≡ array_none
      → scope_at st this ≡ ok s
      → dirent e.m_name s ≡ some r
      → step st e this none ≡ ok (some (r, none))
  unfolding step step_name
  step-name e this r s named plain mode here found =
      rw (named, plain, mode)
        (>>=-ok (scope_at st this) _ here ∙ found-some (dirent e.m_name s) _ found)

  follow-alias :
      (look : ℕ → HwppPath → Outcome ScopeError (Option ℕ)) (more : Bool) (this r : ℕ)
      (path : HwppPath)
      → more ≡ true
      → ◌≡◌ {A = Outcome ScopeError (Dirent B D L)} (raw st r) (ok (alias path))
      → follow st look more this r ≡ look this path
  unfolding follow is_alias alias_from_dirent
  follow-alias look more this r path more_left there = rw there (rw more_left refl)

  -- An alias whose path starts with the alias's own name and goes on: looking up that path has not
  -- returned after any number of nested lookups, so the code never returns.
  pub lookup_dirent-endless :
      (this r : ℕ) (s : Scope B D) (e x : Element) (rest : List Element)
      → is_dotdot e ≡ false
      → e.m_is_bookmark ≡ false
      → e.m_array_mode ≡ array_none
      → scope_at st this ≡ ok s
      → dirent e.m_name s ≡ some r
      → ◌≡◌ {A = Outcome ScopeError (Dirent B D L)}
          (raw st r)
          (ok (alias (record { m_list = e ∷ x ∷ rest; m_absolute = false })))
      → (fuel : ℕ) (resolve : Bool)
      → lookup_dirent st fuel resolve this (record { m_list = e ∷ x ∷ rest; m_absolute = false })
        ≡ throw out_of_fuel
  unfolding lookup_dirent walk_path walk_path_internal follow
  lookup_dirent-endless this r s e x rest named plain mode here found there zero resolve = refl
  lookup_dirent-endless this r s e x rest named plain mode here found there (suc fuel) resolve =
      let look = lookup_dirent st fuel false in
      let path : HwppPath = record { m_list = e ∷ x ∷ rest; m_absolute = false } in
      let again =
        lookup_dirent-endless this r s e x rest named plain mode here found there fuel false in
      let follows =
        follow-alias look (not (eqb (length (x ∷ rest)) 0) || resolve) this r path (ground arith)
          there
        ∙ again in
      >>=-throw (walk_path st look resolve path this none) _ (
        if-false (eqb (length (e ∷ x ∷ rest)) 0) _ _ (ground arith)
        ∙ >>=-ok (step st e this none) _ (step-name e this r s named plain mode here found)
        ∙ >>=-throw (follow st look (not (eqb (length (x ∷ rest)) 0) || resolve) this r) _ follows)
