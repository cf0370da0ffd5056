-- ===== src/Scope/Resolved.antt =====
-- `resolve_path` and `lookup_dirent` agree.
use hwpp.Prelude.{
  ℕ, suc, ◌≡◌, refl, sym, ap, ◌∙◌, subst, inl, inr, Bool, true, false, Option, none, some, List, [],
  ◌∷◌, arith, eqb, if◌then◌else◌, length, Outcome, ok, ◌>>=◌, if-false, >>=-ok, if-cases, found-inj,
  found-inversion, >>=-eq-ok, ok-inj, and-true,
}
use hwpp.Path.Element.{Element}
use hwpp.Path.Sequence.{HwppPath, empty_path}
use hwpp.Scope.{Store, ScopeError, scope_at}
use hwpp.Scope.Walk.{
  climb, push_dotdots, on_path, walk_path_internal, walk_path, lookup_dirent, resolve_path,
}
use hwpp.Scope.Steps.{Found}
use hwpp.Scope.Canonical.{is_plain_access, IsLinked, Arrives, begin, climb-Arrives}
use hwpp.Scope.Resolve.{push_dotdots-absolute}
use hwpp.Scope.Lookup.{
  all_plain, walk-go_on, walk-inversion, walk_path_internal-Walked, walk_path-Arrives,
}
use hwpp.Scope.Spelled.{Spells, step-Spells, step-no_path}

module _ {B D L : Type 0} (st : Store B D L) (linked : IsLinked st)
    (look : ℕ → HwppPath → Outcome ScopeError (Option ℕ)) (resolve : Bool) where
  walk_path_internal-Spells :
      (this r : ℕ) (es : List Element) (p : HwppPath) (o : Option HwppPath)
      → all_plain es ≡ true
      → walk_path_internal st look resolve es this none ≡ ok (some (r, o))
      → Spells st (walk_path_internal st look resolve es this (some p)) r
  unfolding walk_path_internal
  walk_path_internal-Spells this r [] p o plain h = cc
  walk_path_internal-Spells this r (front ∷ rest) p o plain h =
      let (access, others) = and-true (is_plain_access front) (all_plain rest) plain in
      let (de, o', d, found, there, left) =
        walk-inversion st linked look resolve front rest this none h in
      let nothing : o' ≡ none = sym (step-no_path st front this de o' found) in
      let (q, spelled) =
        step-Spells st linked front this de p access
          (found ∙ ap (λ x. ok (some (de, x))) nothing) in
      let here =
        walk-go_on st linked look resolve front rest this de (some p) (some q) d spelled there in
      elim (if-cases (eqb (length rest) 0) left) [
        | inl (empty_, ends) ↦
            (q, here ∙ rw empty_ (ap (λ x. ok (some (x, some q))) (found-inj ends).0))
        | inr (more, goes) ↦
            let (c, scoped, walk) = >>=-eq-ok (scope_at st de) _ goes in
            let (q', later) =
              walk_path_internal-Spells de r rest q o others
                (ap (λ x. walk_path_internal st look resolve rest de x) (sym nothing) ∙ walk) in
            (
              q',
              here
                  ∙ if-false (eqb (length rest) 0) _ _ more
                  ∙ >>=-ok (scope_at st de) _ scoped
                  ∙ later,
            )
      ]

  -- Where a walk begins: at the root for an absolute path.
  abbrev start_from : HwppPath → ℕ → Option HwppPath → Outcome ScopeError (ℕ × Option HwppPath)
  start_from path this out =
      if path.m_absolute
      then (climb st (length st) (λ s. false) this 0 >>= λ top.
          ok (top.0, on_path (push_dotdots top.1) out))
      else ok (this, out)

  -- The rest of the walk.
  abbrev walk_on : HwppPath → ℕ × Option HwppPath → Found st
  walk_on path from_ =
      if eqb (length path.m_list) 0
      then ok (some from_)
      else walk_path_internal st look resolve path.m_list from_.0 from_.1

  start_from-Arrives :
      (path : HwppPath) (this : ℕ) (from_ : ℕ × Option HwppPath)
      → start_from path this none ≡ ok from_
      → (p : HwppPath) × (start_from path this (some empty_path) ≡ ok (from_.0, some p))
        × (from_.1 ≡ none)
        × Arrives st this p.m_list from_.0
        × (p.m_absolute ≡ false)
  unfolding empty_path
  start_from-Arrives path this from_ h = elim (if-cases path.m_absolute h) [
    | inl (absolute, climbs) ↦
        let ((top, n), climbed, e) =
          >>=-eq-ok (climb st (length st) (λ s. false) this 0) _ climbs in
        let (m, count, leads) =
          climb-Arrives st (length st) (λ s. false) this this 0 top n empty_path climbed begin in
        let same : m ≡ n = omega (arith, count) in
        let whole = ok-inj e in
        let place : top ≡ from_.0 = ap (λ x. x.0) whole in
        (
          push_dotdots n empty_path,
          rw absolute (
              >>=-ok (climb st (length st) (λ s. false) this 0) _ climbed
              ∙ ap (λ x. ok (x, some (push_dotdots n empty_path))) place),
          sym (ap (λ x. x.1) whole),
          subst (λ x. Arrives st this (push_dotdots n empty_path).m_list x) place
              (subst (λ x. Arrives st this (push_dotdots x empty_path).m_list top) same leads),
          push_dotdots-absolute n empty_path,
        )
    | inr (relative, here) ↦
        let whole = ok-inj here in
        let place : this ≡ from_.0 = ap (λ x. x.0) whole in
        (
          empty_path,
          rw relative (ap (λ x. ok (x, some empty_path)) place),
          sym (ap (λ x. x.1) whole),
          subst (λ x. Arrives st this [] x) place begin,
          refl,
        )
  ]

  walk_path-split :
      (path : HwppPath) (this : ℕ) (out : Option HwppPath)
      → walk_path st look resolve path this out ≡ (start_from path this out >>= walk_on path)
  unfolding walk_path
  walk_path-split path this out = refl

  -- A path whose walk finds a place is put together to a path that leads there.
  record Spelled (path : HwppPath) (this r : ℕ) : Type 0 where
    q : HwppPath
    made : walk_path st look resolve path this (some empty_path) ≡ ok (some (r, some q))
    leads : Arrives st this q.m_list r
    relative : q.m_absolute ≡ false

  walk_path-Spelled :
      (path : HwppPath) (this r : ℕ) (o : Option HwppPath)
      → all_plain path.m_list ≡ true
      → walk_path st look resolve path this none ≡ ok (some (r, o))
      → Spelled path this r
  walk_path-Spelled path this r o plain h =
      let (from_, started, e) =
        >>=-eq-ok (start_from path this none) (walk_on path)
          (sym (walk_path-split path this none) ∙ h) in
      let (p, started', nothing, leads, relative) = start_from-Arrives path this from_ started in
      let first =
        walk_path-split path this (some empty_path)
        ∙ >>=-ok (start_from path this (some empty_path)) (walk_on path) started' in
      elim (if-cases (eqb (length path.m_list) 0) e) [
        | inl (empty_, ends) ↦
            let (same, out) = found-inj ends in
            record {
              q = p;
              made = first ∙ rw empty_ (ap (λ x. ok (some (x, some p))) same);
              leads = subst (λ x. Arrives st this p.m_list x) same leads;
              relative = relative;
            }
        | inr (more, walk) ↦
            let (q, spelled) = walk_path_internal-Spells from_.0 r path.m_list p o plain (
              ap (λ x. walk_path_internal st look resolve path.m_list from_.0 x) (sym nothing)
              ∙ walk) in
            let walked =
              walk_path_internal-Walked st linked look resolve this from_.0 r path.m_list p (some q)
                plain spelled leads in
            record {
              q = walked.path;
              made =
                  first
                  ∙ if-false (eqb (length path.m_list) 0) _ _ more
                  ∙ spelled
                  ∙ ap (λ x. ok (some (r, x))) (sym walked.made);
              leads = walked.leads;
              relative = walked.same_start ∙ relative;
            }
      ]

-- In a store without aliases, with entries linked to the scopes that they are in: if `lookup_dirent`
-- finds a path whose array accesses have proper names, then `resolve_path` returns a path from the same
-- scope, which is not absolute, and looking that path up finds the same object, with every fuel and with
-- either flag.
pub lookup_dirent-resolve_path :
    {B D L : Type 0} (st : Store B D L)
    → IsLinked st
    → (fuel this r : ℕ) (path : HwppPath) → all_plain path.m_list ≡ true
    → lookup_dirent st (suc fuel) true this path ≡ ok (some r)
    → (q : HwppPath) × (resolve_path st fuel this path ≡ ok q)
      × (q.m_absolute ≡ false)
      × ((any : ℕ) (resolve : Bool) → lookup_dirent st (suc any) resolve this q ≡ ok (some r))
unfolding lookup_dirent resolve_path
lookup_dirent-resolve_path st linked fuel this r path plain h =
    let look = lookup_dirent st fuel false in
    let (first, walked, e) = >>=-eq-ok (walk_path st look true path this none) _ h in
    let ((de, out), is_some, e') = found-inversion first _ e in
    let same : de ≡ r = some-inj (ok-inj e') in
    let spelled =
      walk_path-Spelled st linked look true path this r out plain
        (walked ∙ ap ok is_some ∙ ap (λ x. ok (some (x, out))) same) in
    (
      spelled.q,
      >>=-ok (walk_path st look true path this (some empty_path)) _ spelled.made,
      spelled.relative,
      (λ any resolve.
          >>=-ok (walk_path st (lookup_dirent st any false) resolve spelled.q this none) _ (
            ap
              (λ a.
                walk_path st (lookup_dirent st any false) resolve
                  (record { m_list = spelled.q.m_list; m_absolute = a }) this none)
              spelled.relative
            ∙ walk_path-Arrives st linked (lookup_dirent st any false) resolve this r
                spelled.q.m_list spelled.leads)),
    )
  where
    some-inj : {a b : ℕ} → some a ≡ some b → a ≡ b
    some-inj e = cc
