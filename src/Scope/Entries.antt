-- ===== src/Scope/Entries.antt =====
-- Adding entries to a scope: what names find afterwards.
use hwpp.Prelude.{
  ℕ, zero, suc, ◌<◌, ◌≡◌, refl, sym, ap, ◌∙◌, ◌≢◌, Bool, true, false, not, Option, none, some, List,
  [], ◌∷◌, arith, eqb, if◌then◌else◌, ◌==◌, length, get_elem?, set, Bytes, bytes_eq, Outcome, ok,
  throw, undefined, raw, >>=-ok,
}
use hwpp.Util.StdMap
use hwpp.Util.StdMap.{find-insert}
use hwpp.Util.KeyedVector
use hwpp.Util.KeyedVector.{KeyedVector}
use hwpp.Util.KeyedVector.Invariant.{IsSync, insert-IsSync}
use hwpp.Util.KeyedVector.Refines.{entries, entries-insert, at_key-entries, found_or_throw}
use hwpp.Path.Element.{Element, array_none}
use hwpp.Scope.Climbs.{scope_at-lt}
use hwpp.Scope.{
  Scope, Dirent, Store, ScopeError, scope, find_value, scope_from_dirent, scope_at, dirent,
  insert_dirent, add_dirent,
}

find_value-entries :
    {V : Type 0} (key : Bytes) (kv : KeyedVector Bytes V)
    → IsSync kv
    → find_value key kv ≡ StdMap.find key (entries kv)
unfolding find_value KeyedVector.at_key
find_value-entries {V} key kv sync =
    go (eqb (KeyedVector.find key kv) (KeyedVector.size kv))
      (get_elem? kv.m_values (KeyedVector.find key kv)) (StdMap.find key (entries kv))
      (at_key-entries key kv sync)
  where
    go :
        (missing : Bool) (o found : Option V)
        → (if not missing
            then elim o as (λ _. Outcome KeyedVector.OutOfRange V) [
              | none ↦ undefined
              | some x ↦ ok x
            ]
            else throw KeyedVector.out_of_range)
          ≡ found_or_throw found
        → (if missing then none else o) ≡ found
    go true o none h = refl
    go true o (some v) h = cc
    go false none none h = refl
    go false none (some v) h = cc
    go false (some x) none h = cc
    go false (some x) (some v) h = cc

module _ {B D : Type 0} where
  dirent-insert_dirent :
      (name other : Bytes) (r : ℕ) (s : Scope B D)
      → IsSync s.m_dirents
      → dirent other (insert_dirent name r s) ≡ (if name == other then some r else dirent other s)
  unfolding dirent insert_dirent
  dirent-insert_dirent name other r s sync =
      find_value-entries other (KeyedVector.insert name r s.m_dirents)
        (insert-IsSync name r s.m_dirents sync)
      ∙ ap (StdMap.find other) (entries-insert name r s.m_dirents sync)
      ∙ find-insert name other r (entries s.m_dirents)
      ∙ ap (λ o. if name == other then some r else o)
          (sym (find_value-entries other s.m_dirents sync))

get_elem?-set :
    {A : Type 0} (xs : List A) (i : ℕ) (v : A) → i < length xs → get_elem? (set xs i v) i ≡ some v
get_elem?-set [] i v h = absurd (omega (arith, h))
get_elem?-set (x ∷ xs) zero v h = refl
get_elem?-set (x ∷ xs) (suc i) v h = get_elem?-set xs i v (omega (arith, h))

get_elem?-set_ne :
    {A : Type 0} (xs : List A) (i j : ℕ) (v : A) → i ≢ j → get_elem? (set xs i v) j ≡ get_elem? xs j
get_elem?-set_ne [] i j v h = refl
get_elem?-set_ne (x ∷ xs) zero zero v h = absurd (h refl)
get_elem?-set_ne (x ∷ xs) zero (suc j) v h = refl
get_elem?-set_ne (x ∷ xs) (suc i) zero v h = refl
get_elem?-set_ne (x ∷ xs) (suc i) (suc j) v h = get_elem?-set_ne xs i j v (λ e. h (ap suc e))

module _ {B D L : Type 0} (st : Store B D L) where
  pub scope_at-found :
      (r : ℕ) (s : Scope B D) → get_elem? st r ≡ some (scope s) → scope_at st r ≡ ok s
  unfolding scope_at scope_from_dirent
  scope_at-found r s h = >>=-ok (raw st r) scope_from_dirent place
    where
      place : ◌≡◌ {A = Outcome ScopeError (Dirent B D L)} (raw st r) (ok (scope s))
      place = rw (h, raw) refl

module _ {B D L : Type 0} (st : Store B D L) where
  -- Adding an object under a name that is no array access returns a store in which the name finds the
  -- object, in place of one that it found before; every other name of the scope finds what it found,
  -- the entries of the scope stay in agreement, and no other object changes.
  pub dirent-add_dirent :
      (this new : ℕ) (elem : Element) (s : Scope B D)
      → elem.m_array_mode ≡ array_none
      → scope_at st this ≡ ok s
      → IsSync s.m_dirents
      → (st' : Store B D L) × (s' : Scope B D) × (add_dirent st this elem new ≡ ok st')
        × (scope_at st' this ≡ ok s')
        × IsSync s'.m_dirents
        × ((other : Bytes)
            → dirent other s' ≡ (if elem.m_name == other then some new else dirent other s))
        × ((place : ℕ) → this ≢ place → get_elem? st' place ≡ get_elem? st place)
  unfolding add_dirent insert_dirent
  dirent-add_dirent this new elem s mode here sync = (
    set st this (scope (insert_dirent elem.m_name new s)),
    insert_dirent elem.m_name new s,
    >>=-ok (scope_at st this) _ here ∙ rw mode refl,
    scope_at-found (set st this (scope (insert_dirent elem.m_name new s))) this
        (insert_dirent elem.m_name new s) (get_elem?-set st this _ (scope_at-lt st this s here)),
    insert-IsSync elem.m_name new s.m_dirents sync,
    (λ other. dirent-insert_dirent elem.m_name other new s sync),
    (λ place ne. get_elem?-set_ne st this place _ ne),
  )
