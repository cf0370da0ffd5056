-- ===== src/Scope.antt =====
-- scope.h, scope.cc, dirent.h, array.h and alias.h: scopes, the directory entries in them, and how
-- entries are added. Objects stand in a store and are shared by their place in it, as the source
-- shares them by pointer. Registers and fields are opaque here.
pub mod Walk
pub mod Climbs
pub mod Steps
pub mod Canonical
pub mod Resolve
pub mod Lookup
pub mod Spelled
pub mod Resolved
pub mod Endless
pub mod Ends
pub mod Entries
use hwpp.Prelude.{
  ℕ, Bool, true, false, Option, none, some, List, [], ◌∷◌, ◌++◌, eqb, if◌then◌else◌, length,
  get_elem?, set, Bytes, bytes_eqb, bytes_eq, Outcome, ok, throw, ◌>>=◌, ◌>>◌, raw,
}
use hwpp.Util.StdMap
use hwpp.Util.KeyedVector
use hwpp.Util.KeyedVector.{KeyedVector, OutOfRange}
use hwpp.Path.Element.{Element, ArrayMode, array_none, array_index, array_append}
use hwpp.Path.Sequence.{HwppPath}

pub data DirentType : Type 0 where
  type_register type_field type_scope type_array type_alias : DirentType

-- `m_parent` is `none` for a null pointer, as is the binding of a scope that is not bound.
pub record Scope (B D : Type 0) : Type 0 where
  pub m_parent : Option ℕ
  pub m_binding : Option B
  pub m_dirents : KeyedVector Bytes ℕ
  pub m_datatypes : KeyedVector Bytes D
  pub m_bookmarks : List (Bytes × ℕ)

-- The classes derived from Dirent.
pub data Dirent (B D L : Type 0) : Type 0 where
  register field : L → Dirent B D L
  scope : Scope B D → Dirent B D L
  array : DirentType → List ℕ → Dirent B D L
  alias : HwppPath → Dirent B D L

abbrev pub Store : Type 0 → Type 0 → Type 0 → Type 0
Store B D L = List (Dirent B D L)

-- `out_of_fuel` is the model's own: the call has not returned yet.
pub data ScopeError : Type 0 where
  conversion_error invalid_path path_empty out_of_fuel : ScopeError

unfoldable pub type_code : DirentType → ℕ
type_code type_register = 0
type_code type_field = 1
type_code type_scope = 2
type_code type_array = 3
type_code type_alias = 4

unfoldable pub type_eqb : DirentType → DirentType → Bool
unfolding type_code
type_eqb a b = eqb (type_code a) (type_code b)

-- The value that `*m.find(key)` is, unless the key is not there.
unfoldable pub find_value : {V : Type 0} → Bytes → KeyedVector Bytes V → Option V
unfolding KeyedVector.find KeyedVector.size bytes_eqb
find_value key kv =
    if eqb (KeyedVector.find key kv) (KeyedVector.size kv)
    then none
    else get_elem? kv.m_values (KeyedVector.find key kv)

module _ {B D L : Type 0} where
  unfoldable pub dirent_type : Dirent B D L → DirentType
  dirent_type (register x) = type_register
  dirent_type (field x) = type_field
  dirent_type (scope s) = type_scope
  dirent_type (array type refs) = type_array
  dirent_type (alias path) = type_alias

  unfoldable pub is_alias : Dirent B D L → Bool
  is_alias (alias path) = true
  is_alias _ = false

  -- `scope_from_dirent`, `array_from_dirent` and `alias_from_dirent`
  unfoldable pub scope_from_dirent : Dirent B D L → Outcome ScopeError (Scope B D)
  scope_from_dirent (scope s) = ok s
  scope_from_dirent _ = throw conversion_error

  unfoldable pub array_from_dirent : Dirent B D L → Outcome ScopeError (DirentType × List ℕ)
  array_from_dirent (array type refs) = ok (type, refs)
  array_from_dirent _ = throw conversion_error

  unfoldable pub alias_from_dirent : Dirent B D L → Outcome ScopeError HwppPath
  alias_from_dirent (alias path) = ok path
  alias_from_dirent _ = throw conversion_error

  -- The scope behind a pointer.
  unfoldable pub scope_at : Store B D L → ℕ → Outcome ScopeError (Scope B D)
  unfolding scope_from_dirent
  scope_at st r = raw st r >>= scope_from_dirent

module _ {B D : Type 0} where
  -- `Scope(binding)`
  unfoldable pub new_scope : Option B → Scope B D
  unfolding KeyedVector.clear
  new_scope binding = record {
    m_parent = none;
    m_binding = binding;
    m_dirents = KeyedVector.clear;
    m_datatypes = KeyedVector.clear;
    m_bookmarks = [];
  }

  unfoldable pub is_root : Scope B D → Bool
  is_root s = elim s.m_parent [ none ↦ true | some p ↦ false ]

  unfoldable pub is_bound : Scope B D → Bool
  is_bound s = elim s.m_binding [ none ↦ false | some b ↦ true ]

  unfoldable pub set_parent : ℕ → Scope B D → Scope B D
  set_parent parent s = record s { m_parent = some parent }

  -- `parent()` of the scope at a place.
  unfoldable pub parent : ℕ → Scope B D → ℕ
  parent this s = elim s.m_parent [ none ↦ this | some p ↦ p ]

  unfoldable pub add_datatype : Bytes → D → Scope B D → Scope B D
  unfolding KeyedVector.insert bytes_eqb
  add_datatype name datatype s = record s {
    m_datatypes = KeyedVector.insert name datatype s.m_datatypes;
  }

  unfoldable pub datatype : Bytes → Scope B D → Option D
  unfolding find_value
  datatype name s = find_value name s.m_datatypes

  -- `datatype(int)`, `datatype_name` and `n_datatypes`
  unfoldable pub datatype_by_index : ℕ → Scope B D → Option D
  unfolding KeyedVector.find_index KeyedVector.size
  datatype_by_index index s =
      get_elem? s.m_datatypes.m_values (KeyedVector.find_index index s.m_datatypes)

  unfoldable pub datatype_name : ℕ → Scope B D → Outcome OutOfRange Bytes
  unfolding KeyedVector.key_at
  datatype_name index s = KeyedVector.key_at index s.m_datatypes

  unfoldable pub n_datatypes : Scope B D → ℕ
  unfolding KeyedVector.size
  n_datatypes s = KeyedVector.size s.m_datatypes

  unfoldable pub dirent : Bytes → Scope B D → Option ℕ
  unfolding find_value
  dirent name s = find_value name s.m_dirents

  -- `dirent(int)`, `dirent_name` and `n_dirents`
  unfoldable pub dirent_by_index : ℕ → Scope B D → Option ℕ
  unfolding KeyedVector.find_index KeyedVector.size
  dirent_by_index index s =
      get_elem? s.m_dirents.m_values (KeyedVector.find_index index s.m_dirents)

  unfoldable pub dirent_name : ℕ → Scope B D → Outcome OutOfRange Bytes
  unfolding KeyedVector.key_at
  dirent_name index s = KeyedVector.key_at index s.m_dirents

  unfoldable pub n_dirents : Scope B D → ℕ
  unfolding KeyedVector.size
  n_dirents s = KeyedVector.size s.m_dirents

  -- `std::map::insert`, which keeps an entry that is there.
  unfoldable pub add_bookmark : Bytes → Scope B D → Scope B D
  unfolding StdMap.find StdMap.insert bytes_eqb
  add_bookmark name s = elim (StdMap.find name s.m_bookmarks) [
    | some n ↦ s
    | none ↦ record s { m_bookmarks = StdMap.insert name 1 s.m_bookmarks }
  ]

  unfoldable pub has_bookmark : Bytes → Scope B D → Bool
  unfolding StdMap.find bytes_eqb
  has_bookmark name s = elim (StdMap.find name s.m_bookmarks) [ none ↦ false | some n ↦ true ]

  unfoldable pub insert_dirent : Bytes → ℕ → Scope B D → Scope B D
  unfolding KeyedVector.insert bytes_eqb
  insert_dirent name r s = record s { m_dirents = KeyedVector.insert name r s.m_dirents }

module _ {B D L : Type 0} where
  -- `Array::append`, of the array at a place.
  unfoldable pub array_append_at : Store B D L → ℕ → ℕ → Outcome ScopeError (Store B D L)
  unfolding array_from_dirent dirent_type type_eqb
  array_append_at st r new = do
    (type, refs) ← raw st r >>= array_from_dirent
    d ← raw st new
    if type_eqb (dirent_type d) type
        then ok (set st r (array type (refs ++ new ∷ [])))
        else throw conversion_error

  -- `add_dirent` to the scope at `this`, of a dirent that stands in the store.
  unfoldable pub add_dirent : Store B D L → ℕ → Element → ℕ → Outcome ScopeError (Store B D L)
  unfolding scope_at dirent array_append_at insert_dirent dirent_type
  add_dirent st this elem new = do
    s ← scope_at st this
    elim elem.m_array_mode [
      | array_none ↦ ok (set st this (scope (insert_dirent elem.m_name new s)))
      | array_index ↦ throw invalid_path
      | array_append ↦ elim (dirent elem.m_name s) [
        | some de ↦ array_append_at st de new
        | none ↦ raw st new >>= λ d.
            array_append_at
              (set st this (scope (insert_dirent elem.m_name (length st) s))
                ++ array (dirent_type d) [] ∷ [])
              (length st) new
      ]
    ]
