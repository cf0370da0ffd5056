-- ===== src/Scope/Walk.antt =====
-- scope.cc: climbing to the parents of a scope and walking a path. Climbing takes at most as many
-- steps as there are objects, if no scope is its own ancestor; the fuel of `lookup_dirent` counts
-- the aliases that are followed inside one another.
use hwpp.Prelude.{
  ℕ, zero, suc, ◌-◌, Bool, true, false, not, ◌&&◌, ◌||◌, Option, none, some, List, [], ◌∷◌, ◌++◌,
  ltb, eqb, if◌then◌else◌, ◌==◌, length, Bytes, codes, bytes_eqb, bytes_eq, Outcome, ok, throw,
  undefined, ◌>>=◌, raw,
}
use hwpp.Prelude.Int.{ℤ, pos, negsuc, decimal}
use hwpp.Path.Element.{
  Element, ArrayMode, array_none, array_index, array_append, InvalidError, parse,
}
use hwpp.Path.Element
use hwpp.Path.Sequence.{HwppPath, empty_path, push_back, pop_back, back}
use hwpp.Scope.{
  Scope, Store, ScopeError, invalid_path, path_empty, out_of_fuel, is_alias, alias_from_dirent,
  array_from_dirent, scope_at, is_root, is_bound, parent, datatype, dirent, has_bookmark,
}

-- `Path::Element("..")`
abbrev pub dotdot : Element
dotdot = record {
  m_name = codes "..";
  m_array_mode = array_none;
  m_array_index = pos 0;
  m_is_bookmark = false;
}

-- `elem == ".."`
unfoldable pub is_dotdot : Element → Bool
unfolding Element.to_string bytes_eqb
is_dotdot e = Element.to_string e == codes ".."

-- A change of the path that a non-null `out_path` points to.
abbrev pub on_path : (HwppPath → HwppPath) → Option HwppPath → Option HwppPath
on_path f none = none
on_path f (some p) = some (f p)

-- `out_path->push_back(Path::Element(".."))`, for each step of a climb.
unfoldable pub push_dotdots : ℕ → HwppPath → HwppPath
unfolding push_back
push_dotdots zero p = p
push_dotdots (suc n) p = push_dotdots n (push_back dotdot p)

-- What `..` does to the path that is put together.
unfoldable pub push_up : Element → HwppPath → HwppPath
unfolding back pop_back push_back is_dotdot
push_up front p = elim (back p) [
  | ok last ↦
      if is_dotdot last
      then push_back front p
      else (elim (pop_back p) [ ok (e, shorter) ↦ shorter | _ ↦ p ])
  | _ ↦ push_back front p
]

-- The index of an array access, a negative one counted from the end.
unfoldable pub real_index : ℤ → ℕ → Option ℕ
real_index (pos n) size = if ltb n size then some n else none
real_index (negsuc n) size = if ltb n size then some (size - n - 1) else none

-- `Path::Element(sprintfxx("%s[%d]", name, index))`
unfoldable pub indexed_element : Bytes → ℕ → Outcome ScopeError Element
unfolding parse decimal
indexed_element name index = elim (parse (name ++ b'[' ∷ (decimal index ++ b']' ∷ []))) [
  | ok e ↦ ok e
  | throw e ↦ throw invalid_path
  | undefined ↦ undefined
]

module _ {B D L : Type 0} (st : Store B D L) where
  -- The loops that go from a scope to its parent until a test holds or the root is reached: where
  -- they end, and the number of steps. The first argument is the fuel.
  unfoldable pub climb : ℕ → (Scope B D → Bool) → ℕ → ℕ → Outcome ScopeError (ℕ × ℕ)
  unfolding scope_at is_root parent
  climb zero stop r n = throw out_of_fuel
  climb (suc f) stop r n = do
    s ← scope_at st r
    if stop s || is_root s then ok (r, n) else climb f stop (parent r s) (suc n)

  -- `binding()`, with `none` for no binding.
  unfoldable pub binding : ℕ → Outcome ScopeError (Option B)
  unfolding climb is_bound scope_at
  binding this = do (r, n) ← climb (length st) is_bound this 0; s ← scope_at st r; ok s.m_binding

  -- `resolve_datatype`, by its recursion.
  unfoldable pub resolve_datatype : ℕ → Bytes → ℕ → Outcome ScopeError (Option D)
  unfolding scope_at datatype is_root parent
  resolve_datatype zero name this = throw out_of_fuel
  resolve_datatype (suc f) name this = do
    s ← scope_at st this
    elim (datatype name s) [
      | some d ↦ ok (some d)
      | none ↦ if is_root s then ok none else resolve_datatype f name (parent this s)
    ]

  -- The four cases of `walk_path_internal`: the next dirent and the path, or `none` for -1.
  unfoldable pub step_up :
      Element → ℕ → Option HwppPath → Outcome ScopeError (Option (ℕ × Option HwppPath))
  unfolding scope_at parent push_up
  step_up front this out = do
    s ← scope_at st this
    ok (some (parent this s, on_path (push_up front) out))

  unfoldable pub step_bookmark :
      Element → ℕ → Option HwppPath → Outcome ScopeError (Option (ℕ × Option HwppPath))
  unfolding scope_at climb has_bookmark push_dotdots
  step_bookmark front this out = do
    (r, n) ← climb (length st) (has_bookmark front.m_name) this 0
    s ← scope_at st r
    if has_bookmark front.m_name s then ok (some (r, on_path (push_dotdots n) out)) else ok none

  -- The element of the array at a place.
  unfoldable pub array_element :
      Element → ℕ → Option HwppPath → Outcome ScopeError (Option (ℕ × Option HwppPath))
  unfolding array_from_dirent real_index indexed_element push_back
  array_element front de out = do
    (type, refs) ← raw st de >>= array_from_dirent
    elim front.m_array_mode [
      | array_append ↦ ok none
      | _ ↦ elim (real_index front.m_array_index (length refs)) [
        | none ↦ ok none
        | some i ↦ raw refs i >>= λ r. elim out [
          | none ↦ ok (some (r, none))
          | some p ↦ indexed_element front.m_name i >>= λ e. ok (some (r, some (push_back e p)))
        ]
      ]
    ]

  unfoldable pub step_array :
      Element → ℕ → Option HwppPath → Outcome ScopeError (Option (ℕ × Option HwppPath))
  unfolding scope_at dirent array_element
  step_array front this out = do
    s ← scope_at st this
    elim (dirent front.m_name s) [ none ↦ ok none | some de ↦ array_element front de out ]

  unfoldable pub step_name :
      Element → ℕ → Option HwppPath → Outcome ScopeError (Option (ℕ × Option HwppPath))
  unfolding scope_at dirent push_back
  step_name front this out = do
    s ← scope_at st this
    elim (dirent front.m_name s) [
      | none ↦ ok none
      | some de ↦ ok (some (de, on_path (push_back front) out))
    ]

  -- The branches of `walk_path_internal` in their order.
  unfoldable pub step :
      Element → ℕ → Option HwppPath → Outcome ScopeError (Option (ℕ × Option HwppPath))
  unfolding is_dotdot step_up step_bookmark step_array step_name
  step front this out =
      if is_dotdot front
      then step_up front this out
      else if front.m_is_bookmark
      then step_bookmark front this out
      else (elim front.m_array_mode [
        | array_none ↦ step_name front this out
        | _ ↦ step_array front this out
      ])

  -- The dereferencing of an alias, with `look` for `lookup_dirent`; `more` says that elements are
  -- left or that the caller asked for it.
  unfoldable pub follow :
      (ℕ → HwppPath → Outcome ScopeError (Option ℕ)) → Bool → ℕ → ℕ → Outcome ScopeError (Option ℕ)
  unfolding is_alias alias_from_dirent
  follow look more this de = do
    d ← raw st de
    if is_alias d && more then (alias_from_dirent d >>= look this) else ok (some de)

  -- `walk_path_internal`, by recursion on the elements that are left.
  unfoldable pub walk_path_internal :
      (ℕ → HwppPath → Outcome ScopeError (Option ℕ))
      → Bool
      → List Element
      → ℕ
      → Option HwppPath
      → Outcome ScopeError (Option (ℕ × Option HwppPath))
  unfolding step follow scope_at
  walk_path_internal look resolve [] this out = throw path_empty
  walk_path_internal look resolve (front ∷ rest) this out = step front this out >>= λ found.
      elim found [
        | none ↦ ok none
        | some (de, out') ↦ follow look (not (eqb (length rest) 0) || resolve) this de >>= λ target.
            elim target [
              | none ↦ ok none
              | some r ↦
                  if eqb (length rest) 0
                  then ok (some (r, out'))
                  else (scope_at st r >>= λ s. walk_path_internal look resolve rest r out')
            ]
      ]

  unfoldable pub walk_path :
      (ℕ → HwppPath → Outcome ScopeError (Option ℕ))
      → Bool
      → HwppPath
      → ℕ
      → Option HwppPath
      → Outcome ScopeError (Option (ℕ × Option HwppPath))
  unfolding walk_path_internal climb push_dotdots
  walk_path look resolve path this out =
      (if path.m_absolute
        then (climb (length st) (λ s. false) this 0 >>= λ top.
            ok (top.0, on_path (push_dotdots top.1) out))
        else ok (this, out))
      >>= λ begin.
          if eqb (length path.m_list) 0
          then ok (some begin)
          else walk_path_internal look resolve path.m_list begin.0 begin.1

  -- `lookup_dirent(path, flags)`, with RESOLVE_ALIAS as a Boolean.
  unfoldable pub lookup_dirent : ℕ → Bool → ℕ → HwppPath → Outcome ScopeError (Option ℕ)
  unfolding walk_path
  lookup_dirent zero resolve this path = throw out_of_fuel
  lookup_dirent (suc f) resolve this path =
      walk_path (lookup_dirent f false) resolve path this none >>= λ found. elim found [
        | none ↦ ok none
        | some (de, out) ↦ ok (some de)
      ]

  unfoldable pub dirent_defined : ℕ → ℕ → HwppPath → Outcome ScopeError Bool
  unfolding lookup_dirent
  dirent_defined f this path = lookup_dirent f false this path >>= λ found. elim found [
    | none ↦ ok false
    | some de ↦ ok true
  ]

  -- `resolve_path`
  unfoldable pub resolve_path : ℕ → ℕ → HwppPath → Outcome ScopeError HwppPath
  unfolding walk_path lookup_dirent empty_path
  resolve_path f this path =
      walk_path (lookup_dirent f false) true path this (some empty_path) >>= λ found. elim found [
        | some (de, some q) ↦ ok q
        | _ ↦ ok empty_path
      ]
