-- ===== src/FakeLanguage.antt =====
-- fake_language.cc and fake_language.h: the functions by which a definition file looks up, reads and
-- writes objects, opens and closes scopes, and defines registers, fields and aliases in the current
-- context. The locations of errors are left out. A lookup has the number of aliases that are followed
-- inside one another as its fuel; the reading of an alias has a fuel of its own.
pub mod Objects
pub mod Define
pub mod Types
pub mod Names
pub mod Added
pub mod Opened
use hwpp.Prelude.{
  ℕ, Bool, true, false, not, ◌&&◌, ◌||◌, none, some, [], ◌∷◌, ◌++◌, eqb, length, Bytes, bytes_eq,
  Outcome, ok, raw,
}
use hwpp.Prelude.Int.{ℤ, pos, negsuc}
use hwpp.Word.{mask}
use hwpp.Datatype.{Datatype}
use hwpp.Path.Element.{Element, InvalidError, invalid, is_alpha, is_alnum, parse}
use hwpp.Path.Sequence.{HwppPath, of_string, of_element, is_initialized}
use hwpp.Scope.{
  Scope, Dirent, Store, ScopeError, register, field, scope, array, alias, conversion_error,
  invalid_path, new_scope, set_parent, add_dirent, scope_at, add_bookmark,
}
use hwpp.Scope
use hwpp.Scope.Walk
use hwpp.Runtime.{
  Context, Runtime, current_context, context_push, context_pop, context_snapshot, new_context,
}
use hwpp.Runtime.Action.{
  Act, pure, raise, lift, dassert, catching, ◌>>=◌, ◌>>◌, FkError, parse_error, not_found,
  scope_error, range_error, out_of_range, assertion,
}
use hwpp.Runtime.Access.{
  FkRegister, bound_register, proc_register, constant_register, Bits, FkField, direct_field,
  constant_field, proc_field, Leaf, register_leaf, field_leaf, Rest, World, Bindings, RwProcs,
  read_register, write_register, register_width, init, read_bits, write_bits, read_field,
  write_field,
}

-- The first byte of a name; `operator[]` reads a 0 at the end of an empty one.
unfoldable pub first_byte : Bytes → ℕ
first_byte [] = 0
first_byte (c ∷ cs) = c

-- `c_token` of language.cc
unfoldable pub is_token_rest : Bytes → Bool
unfolding is_alnum
is_token_rest [] = true
is_token_rest (c ∷ cs) = (is_alnum c || eqb c b'_') && is_token_rest cs

unfoldable pub is_token : Bytes → Bool
unfolding is_alpha is_token_rest
is_token [] = false
is_token (c ∷ cs) = (is_alpha c || eqb c b'_') && is_token_rest cs

-- The registers `%0` and `%1`; BIT_WIDTH_MAX is 128.
unfoldable pub magic_zeros : {B P : Type 0} → FkRegister B P
magic_zeros = constant_register 0 128

unfoldable pub magic_ones : {B P : Type 0} → FkRegister B P
unfolding mask
magic_ones = constant_register (mask 128) 128

-- An InvalidError of a path is one of the scope's.
abbrev pub path_error : InvalidError → FkError
path_error invalid = scope_error invalid_path

module _ {B P S : Type 0} where
  -- What an operation of scopes does to the store.
  abbrev pub ask :
      {A : Type 0} → (Store B Datatype (Leaf B P) → Outcome ScopeError A) → Act (World B P S) A
  ask look w = lift scope_error (look w.rest.store) w

  abbrev pub set_store : Store B Datatype (Leaf B P) → Act (World B P S) (Unit {0})
  set_store st w = (ok tt, record w { rest = record w.rest { store = st } })

  -- `new`: the object has a place in the store.
  abbrev pub alloc : Dirent B Datatype (Leaf B P) → Act (World B P S) ℕ
  alloc d w = (
    ok (length w.rest.store),
    record w { rest = record w.rest { store = w.rest.store ++ d ∷ [] } },
  )

  -- `WARN("'%s' redefined")`
  abbrev pub warn : Bytes → Act (World B P S) (Unit {0})
  warn name w =
      (ok tt, record w { rest = record w.rest { redefined = w.rest.redefined ++ name ∷ [] } })

  unfoldable pub check_writable : Act (World B P S) (Unit {0})
  unfolding current_context
  check_writable = do ctxt ← current_context; dassert (not ctxt.m_readonly)

module _ {B P S : Type 0} (fuel : ℕ) where
  -- `fkl_get_dirent` of a path
  unfoldable pub get_dirent : HwppPath → Act (World B P S) (Dirent B Datatype (Leaf B P))
  unfolding current_context Walk.lookup_dirent
  get_dirent path = catching (do
    ctxt ← current_context
    found ← ask (λ st. Walk.lookup_dirent st fuel true ctxt.m_scope path)
    elim found [ none ↦ raise not_found | some de ↦ ask (λ st. raw st de) ])

  -- `fkl_defined` of a path
  unfoldable pub defined : HwppPath → Act (World B P S) Bool
  unfolding current_context Walk.dirent_defined
  defined path = do
    ctxt ← current_context
    ask (λ st. Walk.dirent_defined st fuel ctxt.m_scope path)
