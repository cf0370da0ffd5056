-- ===== src/FakeLanguage/Define.antt =====
-- fake_language.cc: opening and closing scopes, bookmarks, and the definition of registers, fields and
-- aliases in the current context.
use hwpp.Prelude.{
  ℕ, not, Option, none, some, List, eqb, if◌then◌else◌, length, set, Bytes, bytes_eq, Outcome, ok,
  throw, undefined,
}
use hwpp.Prelude.Int.{ℤ}
use hwpp.Datatype.{Datatype}
use hwpp.Path.Element.{Element, parse}
use hwpp.Path.Sequence.{HwppPath, of_string, of_element, is_initialized}
use hwpp.Scope.{
  Scope, Dirent, Store, ScopeError, register, field, scope, alias, new_scope, set_parent,
  add_dirent, scope_at, add_bookmark,
}
use hwpp.Scope.Walk
use hwpp.Runtime.{current_context, context_push, context_pop, context_snapshot, new_context}
use hwpp.Runtime.Action.{
  Act, pure, raise, lift, catching, ◌>>=◌, ◌>>◌, parse_error, not_found, assertion,
}
use hwpp.Runtime.Access.{
  FkRegister, bound_register, proc_register, Bits, FkField, direct_field, constant_field,
  proc_field, Leaf, register_leaf, field_leaf, World,
}
use hwpp.FakeLanguage.{
  first_byte, is_token, path_error, ask, set_store, alloc, warn, check_writable, defined,
}

-- A change of the scope at a place.
abbrev pub update_scope :
    {B P : Type 0}
    → (Scope B Datatype → Scope B Datatype)
    → ℕ
    → Store B Datatype (Leaf B P)
    → Outcome ScopeError (Store B Datatype (Leaf B P))
update_scope f this st = elim (scope_at st this) [
  | ok s ↦ ok (set st this (scope (f s)))
  | throw e ↦ throw e
  | undefined ↦ undefined
]

module _ {B P S : Type 0} where
  -- The element that a name is, and the names that are refused: a register's starts with %, others do
  -- not.
  unfoldable pub element_of : Bytes → Act (World B P S) Element
  unfolding parse
  element_of name = lift path_error (parse name)

  unfoldable pub validate_register_name : Element → Act (World B P S) (Unit {0})
  unfolding first_byte
  validate_register_name elem =
      if eqb (first_byte elem.m_name) b'%' then pure tt else raise parse_error

  unfoldable pub validate_other_name : Element → Act (World B P S) (Unit {0})
  unfolding first_byte
  validate_other_name elem =
      if eqb (first_byte elem.m_name) b'%' then raise parse_error else pure tt

  -- `current_context()->add_dirent(elem, de)`
  unfoldable pub add_to_current : Element → ℕ → Act (World B P S) (Unit {0})
  unfolding current_context add_dirent
  add_to_current elem de = do
    ctxt ← current_context
    st ← ask (λ st. add_dirent st ctxt.m_scope elem de)
    set_store st

  unfoldable pub close_scope : Act (World B P S) (Unit {0})
  unfolding context_pop
  close_scope = context_pop

  unfoldable pub bookmark : Bytes → Act (World B P S) (Unit {0})
  unfolding is_token current_context add_bookmark scope_at
  bookmark name = if not (is_token name) then raise parse_error else do
    ctxt ← current_context
    st ← ask (update_scope (add_bookmark name) ctxt.m_scope)
    set_store st

  -- `current_context()->binding()`, which a register needs.
  unfoldable pub current_binding : Act (World B P S) B
  unfolding current_context Walk.binding
  current_binding = do
    ctxt ← current_context
    found ← ask (λ st. Walk.binding st ctxt.m_scope)
    elim found [ none ↦ raise assertion | some b ↦ pure b ]

  -- `current_context()->resolve_datatype(name)`, by which the datatype of a field is named.
  unfoldable pub datatype_by_name : Bytes → Act (World B P S) (Option Datatype)
  unfolding current_context Walk.resolve_datatype
  datatype_by_name name = do
    ctxt ← current_context
    ask (λ st. Walk.resolve_datatype st (length st) name ctxt.m_scope)

  -- A register that is not named.
  unfoldable pub anonymous_reg : ℤ → ℕ → Act (World B P S) (FkRegister B P)
  unfolding current_binding
  anonymous_reg address width = do
    binding ← current_binding
    pure (bound_register binding address width)

module _ {B P S : Type 0} (fuel : ℕ) where
  -- What the definitions have in common: the name is parsed, checked, and reported if it is defined;
  -- then the object is made and added under it.
  unfoldable pub define :
      {X : Type 0}
      → (Element → Act (World B P S) (Unit {0}))
      → Bytes
      → Act (World B P S) X
      → (X → Dirent B Datatype (Leaf B P))
      → Act (World B P S) (Element × X × ℕ)
  unfolding element_of defined of_element add_to_current
  define validate name make object = do
    elem ← element_of name
    validate elem
    known ← defined fuel (of_element elem)
    if known then warn name else pure tt
    made ← make
    place ← alloc (object made)
    add_to_current elem place
    pure (elem, made, place)

  -- `fkl_open_scope`, with `none` for a null binding.
  unfoldable pub open_scope : Bytes → Option B → Act (World B P S) (Unit {0})
  unfolding check_writable define validate_other_name current_context new_scope set_parent
      new_context context_push
  open_scope name binding = do
    check_writable
    catching (do
      (elem, parent, place) ←
          define validate_other_name name current_context
            (λ ctxt. scope (set_parent ctxt.m_scope (new_scope binding)))
      context_push (new_context elem place))

  unfoldable pub define_register :
      Bytes → Act (World B P S) (FkRegister B P) → Act (World B P S) (FkRegister B P)
  unfolding check_writable define validate_register_name
  define_register name make = do
    check_writable
    catching (do
      (elem, reg, place) ←
          define validate_register_name name make (λ reg. register (register_leaf reg))
      pure reg)

  -- `fkl_reg` of a binding, of the current binding, and of procedures, which keep the context.
  unfoldable pub reg_bound : Bytes → B → ℤ → ℕ → Act (World B P S) (FkRegister B P)
  unfolding define_register
  reg_bound name binding address width =
      define_register name (pure (bound_register binding address width))

  unfoldable pub reg : Bytes → ℤ → ℕ → Act (World B P S) (FkRegister B P)
  unfolding current_binding reg_bound
  reg name address width = do binding ← current_binding; reg_bound name binding address width

  unfoldable pub reg_procs : Bytes → P → ℕ → Act (World B P S) (FkRegister B P)
  unfolding define_register context_snapshot
  reg_procs name access width =
      define_register name (do ctxt ← context_snapshot; pure (proc_register access width ctxt))

  unfoldable pub define_field :
      Bytes
      → Option Datatype
      → (Datatype → Act (World B P S) (FkField B P))
      → Act (World B P S) (FkField B P)
  unfolding check_writable define validate_other_name
  define_field name none make = do check_writable; raise assertion
  define_field name (some type) make = do
    check_writable
    catching (do
      (elem, f, place) ← define validate_other_name name (make type) (λ f. field (field_leaf f))
      pure f)

  -- `fkl_field` of register bits, of a constant, and of procedures, with `none` for a null datatype.
  unfoldable pub field_bits : Bytes → Option Datatype → Bits B P → Act (World B P S) (FkField B P)
  unfolding define_field
  field_bits name type bits = define_field name type (λ d. pure (direct_field d bits))

  unfoldable pub field_constant : Bytes → Option Datatype → ℤ → Act (World B P S) (FkField B P)
  unfolding define_field
  field_constant name type value = define_field name type (λ d. pure (constant_field d value))

  unfoldable pub field_procs : Bytes → Option Datatype → P → Act (World B P S) (FkField B P)
  unfolding define_field context_snapshot
  field_procs name type access =
      define_field name type (λ d. do ctxt ← context_snapshot; pure (proc_field d access ctxt))

  -- The same with the name of a datatype.
  unfoldable pub field_bits_named : Bytes → Bytes → Bits B P → Act (World B P S) (FkField B P)
  unfolding datatype_by_name field_bits
  field_bits_named name type bits = do d ← datatype_by_name type; field_bits name d bits

  unfoldable pub field_constant_named : Bytes → Bytes → ℤ → Act (World B P S) (FkField B P)
  unfolding datatype_by_name field_constant
  field_constant_named name type value = do d ← datatype_by_name type; field_constant name d value

  unfoldable pub field_procs_named : Bytes → Bytes → P → Act (World B P S) (FkField B P)
  unfolding datatype_by_name field_procs
  field_procs_named name type access = do d ← datatype_by_name type; field_procs name d access

  -- `fkl_alias`: the path is made canonical where the alias is defined.
  unfoldable pub define_alias :
      (Bytes → Bytes) → (Bytes → List Bytes) → Bytes → Bytes → Act (World B P S) HwppPath
  unfolding check_writable define current_context of_string Walk.resolve_path is_initialized
  define_alias trim_copy split name target = do
    check_writable
    catching (do
      (elem, path, place) ←
          define (λ elem. pure tt) name
            (do
              ctxt ← current_context
              path ← lift path_error (of_string trim_copy split target)
              resolved ← ask (λ st. Walk.resolve_path st fuel ctxt.m_scope path)
              if is_initialized resolved then pure resolved else raise not_found)
            (λ path. alias path)
      pure path)
