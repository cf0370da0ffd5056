-- ===== src/FakeLanguage/Objects.antt =====
-- fake_language.cc: looking up registers and fields by the text of a path, and reading and writing
-- through paths. Boost's trim_copy and split are arguments.
use hwpp.Prelude.{
  ℕ, zero, suc, ◌+◌, ◌-◌, ◌%◌, ◌^◌, Bool, Option, none, some, List, if◌then◌else◌, ◌==◌, Bytes,
  codes, bytes_eqb, bytes_eq, ok, undefined,
}
use hwpp.Prelude.Int.{ℤ, pos}
use hwpp.Datatype.{Datatype}
use hwpp.Path.Sequence.{HwppPath, of_string}
use hwpp.Scope.{
  Scope, Dirent, Store, ScopeError, register, field, scope, array, alias, conversion_error,
  invalid_path, new_scope, set_parent, add_dirent, scope_at, add_bookmark,
}
use hwpp.Scope
use hwpp.Runtime.Action.{Act, pure, raise, lift, catching, ◌>>=◌, scope_error, range_error}
use hwpp.Runtime.Access.{
  FkRegister, Bits, FkField, Leaf, register_leaf, field_leaf, World, Bindings, RwProcs,
  read_register, write_register, register_width, init, read_field, write_field,
}
use hwpp.FakeLanguage.{magic_zeros, magic_ones, path_error, get_dirent, defined}

-- The object of a register is a leaf that is a register, and so for fields.
abbrev pub register_of : {B P : Type 0} → Leaf B P → Option (FkRegister B P)
register_of (register_leaf r) = some r
register_of (field_leaf f) = none

abbrev pub field_of : {B P : Type 0} → Leaf B P → Option (FkField B P)
field_of (register_leaf r) = none
field_of (field_leaf f) = some f

-- `static_pointer_cast`, which checks nothing.
abbrev pub cast : {W A : Type 0} → Option A → Act W A
cast none w = (undefined, w)
cast (some a) w = (ok a, w)

module _ {B P S : Type 0} (trim_copy : Bytes → Bytes) (split : Bytes → List Bytes) (fuel : ℕ) where
  -- `Path(path_str)`
  unfoldable pub path_of : Bytes → Act (World B P S) HwppPath
  unfolding of_string
  path_of path_str = lift path_error (of_string trim_copy split path_str)

  unfoldable pub get_dirent_string : Bytes → Act (World B P S) (Dirent B Datatype (Leaf B P))
  unfolding path_of get_dirent
  get_dirent_string path_str = catching (do path ← path_of path_str; get_dirent fuel path)

  unfoldable pub get_field : Bytes → Act (World B P S) (FkField B P)
  unfolding get_dirent_string
  get_field path_str = do
    de ← get_dirent_string path_str
    elim de [ field x ↦ cast (field_of x) | _ ↦ raise (scope_error conversion_error) ]

  unfoldable pub get_register : Bytes → Act (World B P S) (FkRegister B P)
  unfolding get_dirent_string magic_zeros magic_ones bytes_eqb
  get_register path_str =
      if path_str == codes "%0"
      then pure magic_zeros
      else if path_str == codes "%1"
      then pure magic_ones
      else do
        de ← get_dirent_string path_str
        elim de [ register x ↦ cast (register_of x) | _ ↦ raise (scope_error conversion_error) ]

  unfoldable pub defined_string : Bytes → Act (World B P S) Bool
  unfolding path_of defined
  defined_string path_str = catching (do path ← path_of path_str; defined fuel path)

  -- `fkl_bits` of a register, of one bit of it, and of a range. `width() - 1` is 32 bits wide.
  unfoldable pub bits_of_register : FkRegister B P → Act (World B P S) (Bits B P)
  unfolding init register_width
  bits_of_register reg = lift range_error (init reg ((register_width reg + 2 ^ 32 - 1) % 2 ^ 32) 0)

  unfoldable pub bits_of_range : FkRegister B P → ℕ → ℕ → Act (World B P S) (Bits B P)
  unfolding init
  bits_of_range reg hi_bit lo_bit = lift range_error (init reg hi_bit lo_bit)

  unfoldable pub bits_by_name : Bytes → Act (World B P S) (Bits B P)
  unfolding get_register bits_of_register
  bits_by_name regname = do reg ← get_register regname; bits_of_register reg

  unfoldable pub bits_by_range : Bytes → ℕ → ℕ → Act (World B P S) (Bits B P)
  unfolding get_register bits_of_range
  bits_by_range regname hi_bit lo_bit = do
    reg ← get_register regname
    bits_of_range reg hi_bit lo_bit

  unfoldable pub bits_by_bit : Bytes → ℕ → Act (World B P S) (Bits B P)
  unfolding bits_by_range
  bits_by_bit regname bit = bits_by_range regname bit bit

module _ {B P S : Type 0} (bindings : Bindings B S) (procs : RwProcs P (World B P S))
    (popcount : ℕ → ℕ) (fuel : ℕ) where
  -- `fkl_read` of a path: an alias is read by its path in the current context. The first argument is
  -- the number of times that this may happen.
  unfoldable pub read_path : ℕ → HwppPath → Act (World B P S) ℤ
  unfolding get_dirent read_register read_field
  read_path zero path = raise (scope_error Scope.out_of_fuel)
  read_path (suc more) path = catching (do
    de ← get_dirent fuel path
    elim de [
      | register x ↦ do
        reg ← cast (register_of x)
        value ← read_register bindings procs reg
        pure (pos value)
      | field x ↦ do f ← cast (field_of x); read_field bindings procs popcount f
      | alias link_path ↦ read_path more link_path
      | _ ↦ raise (scope_error conversion_error)
    ])

  -- `fkl_write` of a path
  unfoldable pub write_path : ℕ → HwppPath → ℕ → Act (World B P S) (Unit {0})
  unfolding get_dirent write_register write_field
  write_path zero path value = raise (scope_error Scope.out_of_fuel)
  write_path (suc more) path value = catching (do
    de ← get_dirent fuel path
    elim de [
      | register x ↦ do reg ← cast (register_of x); write_register bindings procs reg value
      | field x ↦ do f ← cast (field_of x); write_field bindings procs popcount f value
      | alias link_path ↦ write_path more link_path value
      | _ ↦ raise (scope_error conversion_error)
    ])

  module _ (trim_copy : Bytes → Bytes) (split : Bytes → List Bytes) where
    -- `fkl_read` and `fkl_write` of the text of a path.
    unfoldable pub read_string : ℕ → Bytes → Act (World B P S) ℤ
    unfolding path_of read_path
    read_string more path_str =
        catching (do path ← path_of trim_copy split fuel path_str; read_path more path)

    unfoldable pub write_string : ℕ → Bytes → ℕ → Act (World B P S) (Unit {0})
    unfolding path_of write_path
    write_string more path_str value =
        catching (do path ← path_of trim_copy split fuel path_str; write_path more path value)
