-- ===== src/FakeLanguage/Opened.antt =====
-- Scopes that are opened and closed, and registers that are defined and looked up.
use hwpp.Prelude.{
  ℕ, suc, ◌≡◌, refl, sym, ap, ◌∙◌, true, false, Option, none, some, List, ◌∷◌, eqb, if◌then◌else◌,
  ◌==◌, ==_refl, length, Bytes, bytes_eq, Outcome, ok, raw,
}
use hwpp.Datatype.{Datatype}
use hwpp.Util.StdMap
use hwpp.Util.KeyedVector.Invariant.{IsSync, clear-IsSync}
use hwpp.Path.Element.{Element, parse}
use hwpp.Path.Sequence.{of_element}
use hwpp.Scope.{
  Scope, Dirent, Store, ScopeError, register, scope, scope_at, dirent, find_value, new_scope,
  set_parent, is_alias,
}
use hwpp.Scope.Entries.{scope_at-found}
use hwpp.Runtime.Balance.{pop-below}
use hwpp.Scope.Walk.{lookup_dirent}
use hwpp.Runtime.{Context, current_context, context_push, new_context}
use hwpp.Runtime.Action.{pure, rethrow}
use hwpp.Runtime.Access.{FkRegister, Leaf, register_leaf, World}
use hwpp.FakeLanguage.{first_byte, check_writable, get_dirent}
use hwpp.FakeLanguage.Define.{
  validate_register_name, validate_other_name, open_scope, close_scope, define_register,
}
use hwpp.FakeLanguage.Names.{IsPlain, lookup_dirent-plain, raw-found}
use hwpp.FakeLanguage.Added.{IsCurrent, after-ok, asked, current_context-top, define-adds}

module _ {B P S : Type 0} where
  check_writable-passes :
      (w : World B P S) (ctxt : Context) (below : List Context)
      → w.m_context_stack ≡ ctxt ∷ below
      → ctxt.m_readonly ≡ false
      → check_writable w ≡ (ok tt, w)
  unfolding check_writable
  check_writable-passes w ctxt below top writable =
      after-ok _ (current_context-top w ctxt below top) (rw writable refl)

  other_name-passes :
      (elem : Element) (w : World B P S)
      → eqb (first_byte elem.m_name) b'%' ≡ false
      → validate_other_name elem w ≡ (ok tt, w)
  unfolding validate_other_name
  other_name-passes elem w h = rw h refl

  register_name-passes :
      (elem : Element) (w : World B P S)
      → eqb (first_byte elem.m_name) b'%' ≡ true
      → validate_register_name elem w ≡ (ok tt, w)
  unfolding validate_register_name
  register_name-passes elem w h = rw h refl

none-ne-some : {A : Type 0} {a : A} → ¬ (none ≡ some a)
none-ne-some e = cc

module _ {B : Type 0} where
  -- A new scope has no entries.
  dirent-new_scope :
      (this : ℕ) (binding : Option B) (name : Bytes)
      → dirent name (set_parent {D = Datatype} this (new_scope binding)) ≡ none
  unfolding dirent set_parent new_scope find_value StdMap.find
  dirent-new_scope this binding name = refl

  new_scope-IsSync :
      (this : ℕ) (binding : Option B)
      → IsSync (set_parent {D = Datatype} this (new_scope binding)).m_dirents
  unfolding set_parent new_scope
  new_scope-IsSync this binding = clear-IsSync

module _ {B P S : Type 0} where
  -- Where a scope can be opened under a plain name, it is: it stands under the name in the scope that
  -- was current, which is its parent, it has the binding and no entries, it is current, and the context
  -- before is current again when it is closed.
  pub close_scope-open_scope :
      (f : ℕ) (name : Bytes) (binding : Option B) (elem : Element) (w : World B P S)
      (ctxt : Context) (below : List Context) (s : Scope B Datatype)
      → IsCurrent w ctxt below s
      → ctxt.m_readonly ≡ false
      → parse name ≡ ok elem
      → IsPlain elem
      → eqb (first_byte elem.m_name) b'%' ≡ false
      → (w' : World B P S) × (s' : Scope B Datatype) × (open_scope (suc f) name binding w
          ≡ (ok tt, w'))
        × IsCurrent w'
            (new_context elem (length w.rest.store))
            (ctxt ∷ below)
            (set_parent ctxt.m_scope (new_scope binding))
        × (scope_at w'.rest.store ctxt.m_scope ≡ ok s')
        × ((other : Bytes)
            → dirent other s'
              ≡ (if elem.m_name == other then some (length w.rest.store) else dirent other s))
        × (close_scope w' ≡ (ok tt, record w' { m_context_stack = ctxt ∷ below }))
  unfolding open_scope close_scope context_push
  close_scope-open_scope f name binding elem w ctxt below s current writable parsed plain other =
      let (r, st', s', added, there, sync, finds, place, kept) =
        define-adds f validate_other_name name current_context
          (λ parent. scope (set_parent parent.m_scope (new_scope binding))) elem ctxt w ctxt below s
          current parsed plain (other_name-passes elem w other)
          (λ r.
            current_context-top (record w { rest = record w.rest { redefined = r } }) ctxt below
              current.on_top) in
      let w' : World B P S = record {
        m_context_stack = new_context elem (length w.rest.store) ∷ w.m_context_stack;
        rest = record { store = st'; redefined = r; hardware = w.rest.hardware };
      } in
      (
        w',
        s',
        after-ok _ (check_writable-passes w ctxt below current.on_top writable)
            (ap rethrow (after-ok _ added refl)),
        record {
          on_top = ap (λ l. new_context elem (length w.rest.store) ∷ l) current.on_top;
          here =
              scope_at-found st' (length w.rest.store) (set_parent ctxt.m_scope (new_scope binding))
                place;
          sync = new_scope-IsSync ctxt.m_scope binding;
          present =
              λ n de e. absurd (none-ne-some (sym (dirent-new_scope ctxt.m_scope binding n) ∙ e));
        },
        there,
        finds,
        pop-below w' (new_context elem (length w.rest.store)) ctxt below
            (ap (λ l. new_context elem (length w.rest.store) ∷ l) current.on_top),
      )

  -- A register that is defined under a plain name that starts with % is found by the name.
  pub get_dirent-define_register :
      (f g : ℕ) (name : Bytes) (reg : FkRegister B P) (elem : Element) (w : World B P S)
      (ctxt : Context) (below : List Context) (s : Scope B Datatype)
      → IsCurrent w ctxt below s
      → ctxt.m_readonly ≡ false
      → parse name ≡ ok elem
      → IsPlain elem
      → eqb (first_byte elem.m_name) b'%' ≡ true
      → (w' : World B P S) × (define_register (suc f) name (pure reg) w ≡ (ok reg, w'))
        × (w'.m_context_stack ≡ w.m_context_stack)
        × (get_dirent (suc g) (of_element elem) w' ≡ (ok (register (register_leaf reg)), w'))
  unfolding define_register get_dirent is_alias
  get_dirent-define_register f g name reg elem w ctxt below s current writable parsed plain
        percent =
      let (r, st', s', added, there, sync, finds, place, kept) =
        define-adds f validate_register_name name (pure reg) (λ reg'. register (register_leaf reg'))
          elem reg w ctxt below s current parsed plain (register_name-passes elem w percent)
          (λ r. refl) in
      let w' : World B P S = record {
        m_context_stack = w.m_context_stack;
        rest = record { store = st'; redefined = r; hardware = w.rest.hardware };
      } in
      let found : dirent elem.m_name s' ≡ some (length w.rest.store) =
        finds elem.m_name ∙ rw (==_refl elem.m_name) refl in
      let look : Store B Datatype (Leaf B P) → Outcome ScopeError (Option ℕ) =
        λ st. lookup_dirent st (suc g) true ctxt.m_scope (of_element elem) in
      let read : Store B Datatype (Leaf B P) → Outcome ScopeError (Dirent B Datatype (Leaf B P)) =
        λ st. raw st (length w.rest.store) in
      (
        w',
        after-ok _ (check_writable-passes w ctxt below current.on_top writable)
            (ap rethrow (after-ok _ added refl)),
        refl,
        ap rethrow (
            after-ok _ (current_context-top w' ctxt below current.on_top) (
              after-ok _
                (asked look w' (
                  lookup_dirent-plain st' g true elem ctxt.m_scope s' (length w.rest.store)
                    (register (register_leaf reg)) plain there found place refl))
                (asked read w' (raw-found st' (length w.rest.store) place)))),
      )
