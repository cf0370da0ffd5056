-- ===== src/FakeLanguage/Added.antt =====
-- What a definition in the current scope does: the object stands in the store, and its name finds it.
use hwpp.Prelude.{
  ℕ, zero, suc, ◌<◌, ◌≡◌, refl, ap, ◌∙◌, ◌≢◌, inl, inr, Bool, true, false, some, List, [], ◌∷◌,
  ◌++◌, arith, if◌then◌else◌, Option-cases, ◌==◌, length, get_elem?, Bytes, bytes_eq, Outcome, ok,
  raw, >>=-ok, raw-get, >>=-eq-ok,
}
use hwpp.Datatype.{Datatype}
use hwpp.Util.KeyedVector.Invariant.{IsSync}
use hwpp.Path.Element.{Element, parse}
use hwpp.Path.Sequence.{of_element}
use hwpp.Scope.{Scope, Dirent, Store, ScopeError, scope_from_dirent, scope_at, dirent, add_dirent}
use hwpp.Scope.Walk.{dirent_defined}
use hwpp.Scope.Climbs.{scope_at-lt}
use hwpp.Scope.Entries.{dirent-add_dirent}
use hwpp.Runtime.{Context, current_context}
use hwpp.Runtime.Action.{Act, pure, after, lift, FkError, scope_error}
use hwpp.Runtime.Access.{Leaf, World}
use hwpp.FakeLanguage.{ask, path_error, warn, defined}
use hwpp.FakeLanguage.Define.{element_of, add_to_current, define}
use hwpp.FakeLanguage.Names.{
  IsPlain, dirent_defined-found, dirent_defined-missing, get_elem?-append, raw-found,
}

-- The current context, what lies below it, and its scope, whose entries are objects.
pub record IsCurrent {B P S : Type 0} (w : World B P S) (ctxt : Context) (below : List Context)
    (s : Scope B Datatype) : Type 0 where
  pub on_top : w.m_context_stack ≡ ctxt ∷ below
  pub here : scope_at w.rest.store ctxt.m_scope ≡ ok s
  pub sync : IsSync s.m_dirents
  pub present :
      (name : Bytes) (de : ℕ)
      → dirent name s ≡ some de
      → (d : Dirent B Datatype (Leaf B P)) × (get_elem? w.rest.store de ≡ some d)

-- The next step of a chain that returned so far.
pub after-ok :
    {W A B : Type 0} {first : Outcome FkError A × W} {a : A} {w : W} (next : A → Act W B)
    {out : Outcome FkError B × W}
    → first ≡ (ok a, w)
    → next a w ≡ out
    → after first next ≡ out
after-ok next h k = ap (λ r. after r next) h ∙ k

module _ {B P S : Type 0} where
  pub asked :
      {A : Type 0} (look : Store B Datatype (Leaf B P) → Outcome ScopeError A) (w : World B P S)
      {a : A}
      → look w.rest.store ≡ ok a
      → ask look w ≡ (ok a, w)
  asked look w h = ap (λ r. lift scope_error r w) h

  pub current_context-top :
      (w : World B P S) (ctxt : Context) (below : List Context)
      → w.m_context_stack ≡ ctxt ∷ below
      → current_context w ≡ (ok ctxt, w)
  unfolding current_context
  current_context-top w ctxt below e = rw e refl

  -- A test of a name returns.
  defined-returns :
      (f : ℕ) (elem : Element) (w : World B P S) (ctxt : Context) (below : List Context)
      (s : Scope B Datatype)
      → IsCurrent w ctxt below s
      → IsPlain elem
      → (known : Bool) × (defined (suc f) (of_element elem) w ≡ (ok known, w))
  unfolding defined
  defined-returns f elem w ctxt below s current plain =
      let test : Store B Datatype (Leaf B P) → Outcome ScopeError Bool =
        λ st. dirent_defined st (suc f) ctxt.m_scope (of_element elem) in
      elim (Option-cases (dirent elem.m_name s)) [
        | inl missing ↦ (
          false,
          after-ok _ (current_context-top w ctxt below current.on_top) (
              asked test w (
                dirent_defined-missing w.rest.store f elem ctxt.m_scope s plain current.here
                  missing)),
        )
        | inr (de, found) ↦
            let (d, place) = current.present elem.m_name de found in
            (
              true,
              after-ok _ (current_context-top w ctxt below current.on_top) (
                  asked test w (
                    dirent_defined-found w.rest.store f elem ctxt.m_scope s de d plain current.here
                      found place)),
            )
      ]

  -- The same world after a warning, or without one.
  warned :
      (known : Bool) (name : Bytes) (w : World B P S)
      → (r : List Bytes) × ((if known then warn name else pure tt) w
          ≡ (ok tt, record w { rest = record w.rest { redefined = r } }))
  warned true name w = (w.rest.redefined ++ name ∷ [], refl)
  warned false name w = (w.rest.redefined, refl)

module _ {B P : Type 0} where
  pub scope_at-append :
      (st : Store B Datatype (Leaf B P)) (d : Dirent B Datatype (Leaf B P)) (this : ℕ)
      (s : Scope B Datatype)
      → scope_at st this ≡ ok s
      → scope_at (st ++ d ∷ []) this ≡ ok s
  unfolding scope_at
  scope_at-append st d this s h =
      let (x, h1, h2) = >>=-eq-ok (raw st this) scope_from_dirent h in
      >>=-ok (raw (st ++ d ∷ []) this) scope_from_dirent
        (raw-found (st ++ d ∷ []) this (get_elem?-append st d this (raw-get st this h1)))
      ∙ h2

get_elem?-last : {A : Type 0} (xs : List A) (x : A) → get_elem? (xs ++ x ∷ []) (length xs) ≡ some x
get_elem?-last [] x = refl
get_elem?-last (y ∷ xs) x = get_elem?-last xs x

get_elem?-append_lt :
    {A : Type 0} (xs : List A) (x : A) (i : ℕ)
    → i < length xs
    → get_elem? (xs ++ x ∷ []) i ≡ get_elem? xs i
get_elem?-append_lt [] x i h = absurd (omega (arith, h))
get_elem?-append_lt (y ∷ xs) x zero h = refl
get_elem?-append_lt (y ∷ xs) x (suc i) h = get_elem?-append_lt xs x i (omega (arith, h))

module _ {B P S : Type 0} where
  add_to_current-store :
      (elem : Element) (de : ℕ) (w : World B P S) (ctxt : Context) (below : List Context)
      (st' : Store B Datatype (Leaf B P))
      → w.m_context_stack ≡ ctxt ∷ below
      → add_dirent w.rest.store ctxt.m_scope elem de ≡ ok st'
      → add_to_current elem de w ≡ (ok tt, record w { rest = record w.rest { store = st' } })
  unfolding add_to_current
  add_to_current-store elem de w ctxt below st' top added =
      let add : Store B Datatype (Leaf B P) → Outcome ScopeError (Store B Datatype (Leaf B P)) =
        λ st. add_dirent st ctxt.m_scope elem de in
      after-ok _ (current_context-top w ctxt below top) (after-ok _ (asked add w added) refl)

module _ {B P S X : Type 0} where
  -- A definition under a plain name that passes the test of names, of an object that can be made,
  -- returns: the object stands at a new place of the store, the name finds the place, every other name
  -- of the current scope finds what it found, the other objects are as they were, and so are the
  -- contexts and the hardware.
  pub define-adds :
      (f : ℕ) (validate : Element → Act (World B P S) (Unit {0})) (name : Bytes)
      (make : Act (World B P S) X) (object : X → Dirent B Datatype (Leaf B P)) (elem : Element)
      (x : X) (w : World B P S) (ctxt : Context) (below : List Context) (s : Scope B Datatype)
      → IsCurrent w ctxt below s
      → parse name ≡ ok elem
      → IsPlain elem
      → validate elem w ≡ (ok tt, w)
      → ((r : List Bytes)
          → make (record w { rest = record w.rest { redefined = r } })
            ≡ (ok x, record w { rest = record w.rest { redefined = r } }))
      → (r : List Bytes) × (st' : Store B Datatype (Leaf B P)) × (s' : Scope B Datatype) × (define
            (suc f)
            validate
            name
            make
            object
            w
          ≡ (
            ok (elem, x, length w.rest.store),
            record w { rest = record { store = st'; redefined = r; hardware = w.rest.hardware } },
          ))
        × (scope_at st' ctxt.m_scope ≡ ok s')
        × IsSync s'.m_dirents
        × ((other : Bytes)
            → dirent other s'
              ≡ (if elem.m_name == other then some (length w.rest.store) else dirent other s))
        × (get_elem? st' (length w.rest.store) ≡ some (object x))
        × ((place : ℕ)
            → ctxt.m_scope ≢ place
            → place < length w.rest.store
            → get_elem? st' place ≡ get_elem? w.rest.store place)
  unfolding define element_of
  define-adds f validate name make object elem x w ctxt below s current parsed plain valid makes =
      let st = w.rest.store in
      let (known, tested) = defined-returns f elem w ctxt below s current plain in
      let (r, told) = warned known name w in
      let (st', s', added, there, sync, finds, others) =
        dirent-add_dirent (st ++ object x ∷ []) ctxt.m_scope (length st) elem s plain.unindexed
          (scope_at-append st (object x) ctxt.m_scope s current.here) current.sync in
      let w1 : World B P S = record w { rest = record w.rest { redefined = r } } in
      let w2 : World B P S = record w1 { rest = record w1.rest { store = st ++ object x ∷ [] } } in
      let stored = add_to_current-store elem (length st) w2 ctxt below st' current.on_top added in
      let inside = scope_at-lt st ctxt.m_scope s current.here in
      let apart : ctxt.m_scope ≢ length st = λ e. absurd (omega (arith, inside, e)) in
      (
        r,
        st',
        s',
        after-ok _ (ap (λ o. lift path_error o w) parsed) (
            after-ok _ valid (
              after-ok _ tested (after-ok _ told (after-ok _ (makes r) (after-ok _ stored refl))))),
        there,
        sync,
        finds,
        others (length st) apart ∙ get_elem?-last st (object x),
        (λ place ne h. others place ne ∙ get_elem?-append_lt st (object x) place h),
      )
