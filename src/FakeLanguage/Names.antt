-- ===== src/FakeLanguage/Names.antt =====
-- Looking up one plain name in a store, and the store with an object more.
use hwpp.Prelude.{
  ℕ, zero, suc, ◌≡◌, refl, ◌∙◌, Bool, true, false, ◌&&◌, Option, none, some, List, [], ◌∷◌, ◌++◌,
  get_elem?, Outcome, ok, raw, >>=-ok,
}
use hwpp.Path.Element.{Element, array_none}
use hwpp.Path.Sequence.{of_element, HwppPath}
use hwpp.Scope.{Scope, Dirent, Store, ScopeError, scope_at, dirent, is_alias}
use hwpp.Scope.Walk.{
  is_dotdot, walk_path, walk_path_internal, step, step_name, follow, lookup_dirent, dirent_defined,
}

-- A name that is no access to an array, no `..` and no bookmark.
pub record IsPlain (elem : Element) : Type 0 where
  pub unindexed : elem.m_array_mode ≡ array_none
  pub downward : is_dotdot elem ≡ false
  pub unmarked : elem.m_is_bookmark ≡ false

and_false : (b : Bool) → (b && false) ≡ false
and_false true = refl
and_false false = refl

pub raw-found :
    {E A : Type 0} (xs : List A) (i : ℕ) {x : A}
    → get_elem? xs i ≡ some x
    → ◌≡◌ {A = Outcome E A} (raw xs i) (ok x)
raw-found xs i h = rw (h, raw) refl

module _ {B D L : Type 0} (st : Store B D L) where
  step-plain :
      (elem : Element) (this : ℕ) (s : Scope B D) (de : ℕ)
      → IsPlain elem
      → scope_at st this ≡ ok s
      → dirent elem.m_name s ≡ some de
      → step st elem this none ≡ ok (some (de, none))
  unfolding step step_name
  step-plain elem this s de plain here found =
      rw (plain.downward, plain.unmarked, plain.unindexed)
        (>>=-ok (scope_at st this) _ here ∙ rw found refl)

  step-missing :
      (elem : Element) (this : ℕ) (s : Scope B D)
      → IsPlain elem
      → scope_at st this ≡ ok s
      → dirent elem.m_name s ≡ none
      → step st elem this none ≡ ok none
  unfolding step step_name
  step-missing elem this s plain here missing =
      rw (plain.downward, plain.unmarked, plain.unindexed)
        (>>=-ok (scope_at st this) _ here ∙ rw missing refl)

  follow-stops :
      (look : ℕ → HwppPath → Outcome ScopeError (Option ℕ)) (more : Bool) (this de : ℕ)
      (d : Dirent B D L)
      → get_elem? st de ≡ some d
      → (is_alias d && more) ≡ false
      → follow st look more this de ≡ ok (some de)
  unfolding follow
  follow-stops look more this de d place stops =
      >>=-ok (raw st de) _ (raw-found st de place) ∙ rw stops refl

  -- A plain name finds its entry, but for the aliases that are followed at the end.
  pub lookup_dirent-plain :
      (f : ℕ) (resolve : Bool) (elem : Element) (this : ℕ) (s : Scope B D) (de : ℕ)
      (d : Dirent B D L)
      → IsPlain elem
      → scope_at st this ≡ ok s
      → dirent elem.m_name s ≡ some de
      → get_elem? st de ≡ some d
      → (is_alias d && resolve) ≡ false
      → lookup_dirent st (suc f) resolve this (of_element elem) ≡ ok (some de)
  unfolding lookup_dirent walk_path walk_path_internal follow of_element
  lookup_dirent-plain f resolve elem this s de d plain here found place stops =
      rw
        (
          step-plain elem this s de plain here found,
          follow-stops (lookup_dirent st f false) resolve this de d place stops,
        )
        refl

  pub dirent_defined-found :
      (f : ℕ) (elem : Element) (this : ℕ) (s : Scope B D) (de : ℕ) (d : Dirent B D L)
      → IsPlain elem
      → scope_at st this ≡ ok s
      → dirent elem.m_name s ≡ some de
      → get_elem? st de ≡ some d
      → dirent_defined st (suc f) this (of_element elem) ≡ ok true
  unfolding dirent_defined
  dirent_defined-found f elem this s de d plain here found place =
      >>=-ok (lookup_dirent st (suc f) false this (of_element elem)) _ (
        lookup_dirent-plain f false elem this s de d plain here found place
          (and_false (is_alias d)))

  pub dirent_defined-missing :
      (f : ℕ) (elem : Element) (this : ℕ) (s : Scope B D)
      → IsPlain elem
      → scope_at st this ≡ ok s
      → dirent elem.m_name s ≡ none
      → dirent_defined st (suc f) this (of_element elem) ≡ ok false
  unfolding dirent_defined lookup_dirent walk_path walk_path_internal of_element
  dirent_defined-missing f elem this s plain here missing =
      rw (step-missing elem this s plain here missing) refl

module _ {A : Type 0} where
  pub get_elem?-append :
      (xs : List A) (x : A) (i : ℕ) {y : A}
      → get_elem? xs i ≡ some y
      → get_elem? (xs ++ x ∷ []) i ≡ some y
  get_elem?-append [] x i h = cc
  get_elem?-append (z ∷ xs) x zero h = h
  get_elem?-append (z ∷ xs) x (suc i) h = get_elem?-append xs x i h
