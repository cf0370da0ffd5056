-- ===== src/Scope/Canonical.antt =====
-- Canonical paths: what `walk_path` puts together leads from the same scope to the same place.
use hwpp.Prelude.{
  ℕ, zero, suc, ◌+◌, ◌^◌, ◌<◌, ◌≡◌, refl, sym, ◌∙◌, subst, ◌⊎◌, inl, inr, Bool, true, false, ◌||◌,
  none, some, List, [], ◌∷◌, ◌++◌, arith, if◌then◌else◌, Bool-cases, length, get_elem?, Bytes,
  bytes_eqb, bytes_eq, Outcome, ok, raw, if-cases, >>=-eq-ok,
}
use hwpp.Prelude.Int.{ℤ, pos, negsuc}
use hwpp.Path.Indexed.{is_ident, indexed, parse-indexed}
use hwpp.Path.Element.{Element, ArrayMode, array_none, array_index, array_append, is_alpha, parse}
use hwpp.Path.Element
use hwpp.Path.Sequence.{HwppPath, push_back, back}
use hwpp.Path.Sequence.Edit.{back-push_back, pop_back-push_back}
use hwpp.Scope.{
  Scope, Dirent, DirentType, Store, ScopeError, array, scope_from_dirent, scope_at, parent, dirent,
  is_alias, is_root,
}
use hwpp.Scope.Walk.{
  dotdot, is_dotdot, push_up, push_dotdots, real_index, indexed_element, climb, step_up, step_array,
  step_name, step,
}
use hwpp.Scope.Steps.{step_name-inversion, step-access, access-cases, step_array-inversion}

-- The elements of a path that access an array have the names that the parser gives them.
abbrev pub is_plain_access : Element → Bool
is_plain_access e = elim e.m_array_mode [ array_none ↦ true | _ ↦ is_ident e.m_name ]

pub indexed_element-indexed :
    (name : Bytes) (i : ℕ)
    → is_ident name ≡ true
    → i < 2 ^ 31
    → indexed_element name i ≡ ok (indexed name i)
unfolding indexed_element
indexed_element-indexed name i ident below =
    rw (parse-indexed name i ident below, indexed_element) refl

pub not-is_dotdot-indexed :
    (name : Bytes) (i : ℕ) → is_ident name ≡ true → is_dotdot (indexed name i) ≡ false
unfolding is_dotdot Element.to_string Element.mode_to_string bytes_eqb is_alpha
not-is_dotdot-indexed [] i ident = cc
not-is_dotdot-indexed (c ∷ cs) i ident = ground (arith, ident)

pub real_index-lt : (z : ℤ) (size i : ℕ) → real_index z size ≡ some i → i < size
unfolding real_index
real_index-lt (pos n) size i h = ground (arith, h)
real_index-lt (negsuc n) size i h = ground (arith, h)

pub real_index-pos : (size i : ℕ) → i < size → real_index (pos i) size ≡ some i
unfolding real_index
real_index-pos size i h = ground (arith, h)

push_up-last :
    (front e : Element) (p : HwppPath)
    → push_up front (push_back e p) ≡ (if is_dotdot e then push_back front (push_back e p) else p)
unfolding push_up
push_up-last front e p = rw (back-push_back e p, pop_back-push_back e p, push_up) refl

module _ {B D L : Type 0} (st : Store B D L) where
  -- There is no alias, arrays have fewer elements than an `int` counts, and the parent of a scope that
  -- is an entry of another scope, or stands in an array that is, is that other scope.
  pub record IsLinked : Type 0 where
    pub no_alias :
        (r : ℕ) (d : Dirent B D L)
        → ◌≡◌ {A = Outcome ScopeError (Dirent B D L)} (raw st r) (ok d)
        → is_alias d ≡ false
    pub short :
        (r : ℕ) (type : DirentType) (refs : List ℕ)
        → ◌≡◌ {A = Outcome ScopeError (Dirent B D L)} (raw st r) (ok (array type refs))
        → length refs < 2 ^ 31
    pub child :
        (q r : ℕ) (name : Bytes) (s c : Scope B D)
        → scope_at st q ≡ ok s
        → dirent name s ≡ some r
        → scope_at st r ≡ ok c
        → parent r c ≡ q
    pub member :
        (q a i r : ℕ) (name : Bytes) (type : DirentType) (refs : List ℕ) (s c : Scope B D)
        → scope_at st q ≡ ok s
        → dirent name s ≡ some a
        → ◌≡◌ {A = Outcome ScopeError (Dirent B D L)} (raw st a) (ok (array type refs))
        → get_elem? refs i ≡ some r
        → scope_at st r ≡ ok c
        → parent r c ≡ q

  -- A step by a name or an index goes from the parent to the scope.
  step-parent :
      IsLinked
      → (e : Element) (q r : ℕ) (c : Scope B D) → is_dotdot e ≡ false
      → e.m_is_bookmark ≡ false
      → step st e q none ≡ ok (some (r, none))
      → scope_at st r ≡ ok c
      → parent r c ≡ q
  step-parent linked e q r c named plain h hc =
      elim (access-cases st e.m_array_mode (step_name st e q none) (step_array st e q none)
        (sym (step-access st e q none named plain) ∙ h)) [
          | inl (none_, by_name) ↦
              let (s, hs, found, path) = step_name-inversion st e q none none r by_name in
              linked.child q r e.m_name s c hs found hc
          | inr (by_index, rest) ↦
              let (s, de, hs, found, access) = step_array-inversion st e q none none r by_index in
              linked.member q de access.index r e.m_name access.type access.refs s c hs found
                access.is_there access.at_index hc
        ]

  -- Walking elements from a scope leads to a place of the store. No element but `..` is a bookmark.
  pub data Arrives (s : ℕ) : List Element → ℕ → Type 0 where
    begin : Arrives s [] s
    next :
        {es : List Element} {r : ℕ} (before : List Element) (e : Element) (q : ℕ) (d : Dirent B D L)
        → Arrives s before q
        → es ≡ before ++ e ∷ []
        → (is_dotdot e ≡ true) ⊎ (e.m_is_bookmark ≡ false)
        → step st e q none ≡ ok (some (r, none))
        → ◌≡◌ {A = Outcome ScopeError (Dirent B D L)} (raw st r) (ok d)
        → Arrives s es r

  -- Going up.
  pub step-dotdot :
      (e : Element) (r : ℕ) (s : Scope B D)
      → is_dotdot e ≡ true
      → scope_at st r ≡ ok s
      → step st e r none ≡ ok (some (parent r s, none))
  unfolding step step_up
  step-dotdot e r s up hs = rw up (rw hs refl)

  pub scope_at-raw :
      (r : ℕ) (s : Scope B D)
      → scope_at st r ≡ ok s
      → (d : Dirent B D L) × (◌≡◌ {A = Outcome ScopeError (Dirent B D L)} (raw st r) (ok d))
  unfolding scope_at
  scope_at-raw r s h = let (d, hd, e) = >>=-eq-ok (raw st r) scope_from_dirent h in (d, hd)

  pub climb-scope :
      (f : ℕ) (stop : Scope B D → Bool) (r k : ℕ) {end : ℕ × ℕ}
      → climb st f stop r k ≡ ok end
      → (s : Scope B D) × (scope_at st r ≡ ok s)
  unfolding climb
  climb-scope zero stop r k h = cc
  climb-scope (suc f) stop r k h = let (s, hs, e) = >>=-eq-ok (scope_at st r) _ h in (s, hs)

  up-Arrives :
      (s r : ℕ) (e : Element) (here above : Scope B D) (p : HwppPath)
      → is_dotdot e ≡ true
      → scope_at st r ≡ ok here
      → scope_at st (parent r here) ≡ ok above
      → Arrives s p.m_list r
      → Arrives s (push_back e p).m_list (parent r here)
  unfolding push_back
  up-Arrives s r e here above p up hs ha path =
      let (d, hd) = scope_at-raw (parent r here) above ha in
      next p.m_list e r d path refl (inl up) (step-dotdot e r here up hs) hd

  dotdot-is_dotdot : is_dotdot dotdot ≡ true
  unfolding is_dotdot Element.to_string Element.mode_to_string bytes_eqb
  dotdot-is_dotdot = refl

  -- A climb that returned, with a `..` for each step.
  pub climb-Arrives :
      (f : ℕ) (stop : Scope B D → Bool) (s r k top n : ℕ) (p : HwppPath)
      → climb st f stop r k ≡ ok (top, n)
      → Arrives s p.m_list r
      → (m : ℕ) × (n ≡ k + m) × Arrives s ((push_dotdots m p).m_list) top
  unfolding climb push_dotdots
  climb-Arrives zero stop s r k top n p h path = cc
  climb-Arrives (suc f) stop s r k top n p h path =
      let (here, hs, e) = >>=-eq-ok (scope_at st r) _ h in
      elim (if-cases (stop here || is_root here) e) [
        | inl (ends, arrived) ↦
            let same : (r ≡ top) × (k ≡ n) = pair-inj arrived in
            (0, omega (arith, same.1), subst (λ x. Arrives s p.m_list x) same.0 path)
        | inr (goes, climbs) ↦
            let (above, ha) = climb-scope f stop (parent r here) (suc k) climbs in
            let (m, count, whole) =
              climb-Arrives f stop s (parent r here) (suc k) top n (push_back dotdot p) climbs
                (up-Arrives s r dotdot here above p dotdot-is_dotdot hs ha path) in
            (suc m, omega (arith, count), whole)
      ]
    where
      pair-inj :
          {a b c d : ℕ}
          → ◌≡◌ {A = Outcome ScopeError (ℕ × ℕ)} (ok (a, b)) (ok (c, d))
          → (a ≡ c) × (b ≡ d)
      pair-inj h = (cc, cc)

  -- `..` on a path that leads to a scope: it takes off the last element, or is put on.
  pub push_up-Arrives :
      IsLinked
      → (s r : ℕ) (front : Element) (here : Scope B D) (d : Dirent B D L) (es : List Element)
        (absolute : Bool)
      → is_dotdot front ≡ true
      → scope_at st r ≡ ok here
      → ◌≡◌ {A = Outcome ScopeError (Dirent B D L)} (raw st (parent r here)) (ok d)
      → Arrives s es r
      → Arrives s
          (push_up front (record { m_list = es; m_absolute = absolute })).m_list
          (parent r here)
  unfolding push_up back push_back
  push_up-Arrives linked s r front here d es absolute up hs hd begin =
      next [] front s d begin refl (inl up) (step-dotdot front s here up hs) hd
  push_up-Arrives linked s r front here d es absolute up hs hd
        (next before e q d' path eq kind found there) =
      subst
        (λ xs.
          Arrives s (push_up front (record { m_list = xs; m_absolute = absolute })).m_list
            (parent r here))
        (sym eq)
        (subst (λ p. Arrives s p.m_list (parent r here)) (sym (push_up-last front e shorter))
          last_one)
    where
      shorter : HwppPath
      shorter = record { m_list = before; m_absolute = absolute }

      plain :
          is_dotdot e ≡ false
          → (is_dotdot e ≡ true) ⊎ (e.m_is_bookmark ≡ false)
          → e.m_is_bookmark ≡ false
      plain named (inl dotted) = cc
      plain named (inr no_bookmark) = no_bookmark

      last_one :
          Arrives s
            (if is_dotdot e then push_back front (push_back e shorter) else shorter).m_list
            (parent r here)
      last_one = elim (Bool-cases (is_dotdot e)) [
        | inl dotted ↦
            let whole : Arrives s (before ++ e ∷ []) r =
              next before e q d' path refl kind found there in
            rw dotted (
              next (before ++ e ∷ []) front r d whole refl (inl up) (step-dotdot front r here up hs)
                hd)
        | inr named ↦ rw named (
            subst (λ x. Arrives s before x)
              (sym (step-parent linked e q r here named (plain named kind) found hs)) path)
      ]
