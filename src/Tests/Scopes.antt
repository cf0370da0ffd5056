-- ===== src/Tests/Scopes.antt =====
-- Scopes, climbing, walking and adding, on a small store.
use hwpp.Prelude.{
  ℕ, zero, suc, ◌^◌, ◌<◌, ◌≡◌, refl, sym, ap, ◌∙◌, subst, ◌≢◌, ◌⊎◌, inl, inr, Bool, true, false,
  none, some, List, [], ◌∷◌, arith, eqb, if◌then◌else◌, ◌==◌, length, get_elem?, Bytes, codes,
  bytes_eq, Outcome, ok, throw, raw, if-cases, ok-inj,
}
use hwpp.Prelude.Int.{pos, negsuc}
use hwpp.Util.StdMap
use hwpp.Util.KeyedVector
use hwpp.Util.KeyedVector.{KeyedVector}
use hwpp.Path.Element.{Element, array_none, array_index, is_alpha}
use hwpp.Path.Sequence.{HwppPath}
use hwpp.Scope.{
  add_dirent, Scope, Dirent, DirentType, type_scope, Store, ScopeError, out_of_fuel, scope, array,
  alias, scope_at, scope_from_dirent, datatype, dirent, find_value, parent, is_alias,
}
use hwpp.Scope.Walk.{is_dotdot, resolve_datatype, lookup_dirent, resolve_path}
use hwpp.Util.KeyedVector.Invariant.{IsSync, clear-IsSync}
use hwpp.Scope.Entries.{dirent-add_dirent}
use hwpp.Scope.Climbs.{IsTree, Climbed, defines, resolve_datatype-Climbed}
use hwpp.Scope.Canonical.{IsLinked}
use hwpp.Scope.Ends.{IsAliasFree, lookup_dirent-Ends}
use hwpp.Scope.Endless.{lookup_dirent-endless}
use hwpp.Scope.Resolved.{lookup_dirent-resolve_path}

abbrev plain_element : Bytes → Element
plain_element name = record {
  m_name = name;
  m_array_mode = array_none;
  m_array_index = pos 0;
  m_is_bookmark = false;
}

-- A root with a scope `cpu` and an array `x` of one scope.
abbrev root_scope : Scope ℕ ℕ
root_scope = record {
  m_parent = none;
  m_binding = some 7;
  m_dirents = record {
    m_keys = (codes "cpu", 0) ∷ (codes "x", 1) ∷ [];
    m_values = 1 ∷ 2 ∷ [];
    m_keyptrs = codes "cpu" ∷ codes "x" ∷ [];
  };
  m_datatypes = record {
    m_keys = (codes "bit", 0) ∷ [];
    m_values = 5 ∷ [];
    m_keyptrs = codes "bit" ∷ [];
  };
  m_bookmarks = [];
}

abbrev leaf : Scope ℕ ℕ
leaf = record {
  m_parent = some 0;
  m_binding = none;
  m_dirents = record { m_keys = []; m_values = []; m_keyptrs = [] };
  m_datatypes = record { m_keys = []; m_values = []; m_keyptrs = [] };
  m_bookmarks = [];
}

abbrev machine : Store ℕ ℕ ℕ
machine = scope root_scope ∷ scope leaf ∷ array type_scope (3 ∷ []) ∷ scope leaf ∷ []

abbrev Read : ℕ → Dirent ℕ ℕ ℕ → Type 0
Read r d = ◌≡◌ {A = Outcome ScopeError (Dirent ℕ ℕ ℕ)} (raw machine r) (ok d)

-- The only scope with a parent is a leaf, whose parent is the root.
machine-leaf :
    (r : ℕ) (s : Scope ℕ ℕ)
    → scope_at machine r ≡ ok s
    → ((r ≡ 0) × (s ≡ root_scope)) ⊎ ((0 < r) × (s ≡ leaf))
unfolding scope_at scope_from_dirent
machine-leaf zero s h = inl (refl, sym (ok-inj h))
machine-leaf (suc zero) s h = inr (omega arith, sym (ok-inj h))
machine-leaf (suc (suc zero)) s h = cc
machine-leaf (suc (suc (suc zero))) s h = inr (omega arith, sym (ok-inj h))
machine-leaf (suc (suc (suc (suc r)))) s h = cc

machine-root : scope_at machine 0 ≡ ok root_scope
unfolding scope_at scope_from_dirent
machine-root = refl

machine-IsTree : IsTree machine
machine-IsTree r p s h e = elim (machine-leaf r s h) [
  | inl (zero_, top) ↦ absurd (none≢some (sym (ap (λ x. x.m_parent) top) ∙ e))
  | inr (later, down) ↦
      let up : 0 ≡ p = some-inj (sym (ap (λ x. x.m_parent) down) ∙ e) in
      (
        omega (arith, up, later),
        root_scope,
        subst (λ x. scope_at machine x ≡ ok root_scope) up machine-root,
      )
]
  where
    none≢some : ¬ (none ≡ some p)
    none≢some x = cc

    some-inj : {a b : ℕ} → some a ≡ some b → a ≡ b
    some-inj x = cc

machine-IsAliasFree : IsAliasFree machine
unfolding is_alias
machine-IsAliasFree zero d h = subst (λ x. is_alias x ≡ false) (ok-inj h) refl
machine-IsAliasFree (suc zero) d h = subst (λ x. is_alias x ≡ false) (ok-inj h) refl
machine-IsAliasFree (suc (suc zero)) d h = subst (λ x. is_alias x ≡ false) (ok-inj h) refl
machine-IsAliasFree (suc (suc (suc zero))) d h = subst (λ x. is_alias x ≡ false) (ok-inj h) refl
machine-IsAliasFree (suc (suc (suc (suc r)))) d h = cc

machine-array :
    (r : ℕ) (type : DirentType) (refs : List ℕ) → Read r (array type refs) → 3 ∷ [] ≡ refs
machine-array zero type refs h = cc
machine-array (suc zero) type refs h = cc
machine-array (suc (suc zero)) type refs h = cc
machine-array (suc (suc (suc zero))) type refs h = cc
machine-array (suc (suc (suc (suc r)))) type refs h = cc

-- What a name finds is one of the values.
dirent-values :
    (name : Bytes) (s : Scope ℕ ℕ) (r : ℕ)
    → dirent name s ≡ some r
    → (i : ℕ) × (get_elem? s.m_dirents.m_values i ≡ some r)
unfolding dirent find_value
dirent-values name s r h =
    elim (if-cases (eqb (KeyedVector.find name s.m_dirents) (KeyedVector.size s.m_dirents)) h) [
      | inl (missing, e) ↦ absurd (none≢some e)
      | inr (there, e) ↦ (KeyedVector.find name s.m_dirents, e)
    ]
  where
    none≢some : ¬ (none ≡ some r)
    none≢some x = cc

-- Entries are those of the root, and every other scope is a leaf.
machine-entry :
    (q r : ℕ) (name : Bytes) (s : Scope ℕ ℕ)
    → scope_at machine q ≡ ok s
    → dirent name s ≡ some r
    → (q ≡ 0) × ((r ≡ 1) ⊎ (r ≡ 2))
machine-entry q r name s h found =
    let (i, e) = dirent-values name s r found in
    elim (machine-leaf q s h) [
      | inl (first, top) ↦ (first, go i (ap (λ x. get_elem? x.m_dirents.m_values i) (sym top) ∙ e))
      | inr (later, down) ↦
          absurd (nothing (ap (λ x. get_elem? x.m_dirents.m_values i) (sym down) ∙ e))
    ]
  where
    nothing : ¬ (none ≡ some r)
    nothing x = cc

    go : (i : ℕ) → get_elem? (1 ∷ 2 ∷ []) i ≡ some r → (r ≡ 1) ⊎ (r ≡ 2)
    go zero e = inl cc
    go (suc zero) e = inr cc
    go (suc (suc i)) e = cc

machine-child : (r : ℕ) (c : Scope ℕ ℕ) → 0 < r → scope_at machine r ≡ ok c → parent r c ≡ 0
unfolding parent
machine-child r c later h = elim (machine-leaf r c h) [
  | inl (first, top) ↦ absurd (omega (arith, later, first))
  | inr (_, down) ↦ rw down refl
]

machine-IsLinked : IsLinked machine
machine-IsLinked = record {
  no_alias = machine-IsAliasFree;
  short =
      λ r type refs h. subst (λ x. length x < 2 ^ 31) (machine-array r type refs h) (omega arith);
  child = λ q r name s c hs found hc.
      let (first, which) = machine-entry q r name s hs found in
      machine-child r c (elim which [ inl e ↦ omega (arith, e) | inr e ↦ omega (arith, e) ]) hc
      ∙ sym first;
  member = λ q a i r name type refs s c hs found ha at hc.
      let (first, which) = machine-entry q a name s hs found in
      machine-child r c
        (member_lt i r (ap (λ x. get_elem? x i) (machine-array a type refs ha) ∙ at)) hc
      ∙ sym first;
}
  where
    member_lt : (i r : ℕ) → get_elem? (3 ∷ []) i ≡ some r → 0 < r
    member_lt zero r e = let same : 3 ≡ r = cc in omega (arith, same)
    member_lt (suc i) r e = cc

machine-cpu : scope_at machine 1 ≡ ok leaf
unfolding scope_at scope_from_dirent
machine-cpu = refl

resolve_datatype-Climbed_example :
    (top n : ℕ) × (t : Scope ℕ ℕ) × (resolve_datatype machine 4 (codes "bit") 1
      ≡ ok (datatype (codes "bit") t))
    × (scope_at machine top ≡ ok t)
    × Climbed machine (defines machine (codes "bit")) 1 n top
resolve_datatype-Climbed_example =
    resolve_datatype-Climbed machine machine-IsTree (codes "bit") 1 leaf machine-cpu

-- `/x[-1]`
abbrev last_x : HwppPath
last_x = record {
  m_list =
      record {
        m_name = codes "x";
        m_array_mode = array_index;
        m_array_index = negsuc 0;
        m_is_bookmark = false;
      }
      ∷ [];
  m_absolute = true;
}

last_x-found : lookup_dirent machine 1 true 1 last_x ≡ ok (some 3)
unfolding lookup_dirent
last_x-found = refl

lookup_dirent-resolve_path_example :
    (q : HwppPath) × (resolve_path machine 0 1 last_x ≡ ok q)
    × (q.m_absolute ≡ false)
    × ((any : ℕ) (resolve : Bool) → lookup_dirent machine (suc any) resolve 1 q ≡ ok (some 3))
unfolding is_alpha
lookup_dirent-resolve_path_example =
    lookup_dirent-resolve_path machine machine-IsLinked 0 1 3 last_x refl last_x-found

lookup_dirent-Ends_example :
    (lookup_dirent machine 1 false 1 last_x ≢ throw out_of_fuel)
    × (resolve_path machine 0 1 last_x ≢ throw out_of_fuel)
lookup_dirent-Ends_example =
    lookup_dirent-Ends machine machine-IsTree machine-IsAliasFree 1 leaf machine-cpu 0 false last_x

-- A root with an alias `a` to `a/b`.
abbrev a_b : HwppPath
a_b = record {
  m_list = plain_element (codes "a") ∷ plain_element (codes "b") ∷ [];
  m_absolute = false;
}

abbrev knot_root : Scope ℕ ℕ
knot_root = record leaf {
  m_parent = none;
  m_dirents = record {
    m_keys = (codes "a", 0) ∷ [];
    m_values = 1 ∷ [];
    m_keyptrs = codes "a" ∷ [];
  };
}

abbrev knot : Store ℕ ℕ ℕ
knot = scope knot_root ∷ alias a_b ∷ []

knot-root : scope_at knot 0 ≡ ok knot_root
unfolding scope_at scope_from_dirent
knot-root = refl

knot-a : dirent (codes "a") knot_root ≡ some 1
unfolding dirent StdMap.find
knot-a = refl

a-named : is_dotdot (plain_element (codes "a")) ≡ false
unfolding is_dotdot
a-named = refl

lookup_dirent-endless_example : lookup_dirent knot 5 true 0 a_b ≡ throw out_of_fuel
lookup_dirent-endless_example =
    lookup_dirent-endless knot 0 1 knot_root (plain_element (codes "a")) (plain_element (codes "b"))
      [] a-named refl refl knot-root knot-a refl 5 true

leaf-IsSync : IsSync leaf.m_dirents
unfolding KeyedVector.clear
leaf-IsSync = clear-IsSync

-- A scope that stands at place 3 is added to the scope at place 1.
dirent-add_dirent_example :
    (st' : Store ℕ ℕ ℕ) × (s' : Scope ℕ ℕ) × (add_dirent machine 1 (plain_element (codes "sub")) 3
      ≡ ok st')
    × (scope_at st' 1 ≡ ok s')
    × IsSync s'.m_dirents
    × ((other : Bytes)
        → dirent other s' ≡ (if codes "sub" == other then some 3 else dirent other leaf))
    × ((place : ℕ) → 1 ≢ place → get_elem? st' place ≡ get_elem? machine place)
dirent-add_dirent_example =
    dirent-add_dirent machine 1 3 (plain_element (codes "sub")) leaf refl machine-cpu leaf-IsSync
