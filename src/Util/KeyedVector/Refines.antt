-- ===== src/Util/KeyedVector/Refines.antt =====
-- A KeyedVector is an association list in insertion order: what each operation does to that list.
use hwpp.Prelude.{
  ℕ, zero, suc, ◌+◌, ◌≡◌, refl, ap, inl, inr, Option, none, some, List, [], ◌∷◌, ◌++◌, arith,
  Option-cases, Eq, length, get_elem?, set, erase_idx, get_elem?-lt, get_elem?-ge, Outcome, ok,
  throw,
}
use native.Mathlib.Decide.{dec_lt}
use hwpp.Util.StdMap
use hwpp.Util.KeyedVector.{
  KeyedVector, OutOfRange, out_of_range, size, at, key_at, at_key, insert, erase,
}
use hwpp.Util.KeyedVector.Sync.{index_of, index_of-lt, get_elem?-index_of}
use hwpp.Util.KeyedVector.Invariant.{IsSync, erase_pos-IsSync}

abbrev pub zip : {K V : Type 0} → List K → List V → List (K × V)
zip [] vs = []
zip (k ∷ ks) [] = []
zip (k ∷ ks) (v ∷ vs) = (k, v) ∷ zip ks vs

-- Keys with their values, oldest first.
abbrev pub entries : {K V : Type 0} → KeyedVector K V → List (K × V)
entries kv = zip kv.m_keyptrs kv.m_values

-- What a lookup in the list says of an access by key.
abbrev pub found_or_throw : {V : Type 0} → Option V → Outcome OutOfRange V
found_or_throw none = throw out_of_range
found_or_throw (some v) = ok v

module _ {K V : Type 0} ⦃e : Eq K⦄ where
  pub find-zip :
      (k : K) (ks : List K) (vs : List V)
      → length ks ≡ length vs
      → StdMap.find k (zip ks vs) ≡ (elim (index_of k ks) [ none ↦ none | some i ↦ get_elem? vs i ])
  unfolding StdMap.find index_of
  find-zip k [] vs h = refl
  find-zip k (x ∷ ks) [] h = absurd (omega arith)
  find-zip k (x ∷ ks) (v ∷ vs) h = ground (arith, find-zip k ks vs)

  insert-zip :
      (k : K) (v : V) (ks : List K) (vs : List V)
      → length ks ≡ length vs
      → StdMap.insert k v (zip ks vs) ≡ (elim (index_of k ks) [
        | none ↦ zip (ks ++ k ∷ []) (vs ++ v ∷ [])
        | some i ↦ zip ks (set vs i v)
      ])
  unfolding StdMap.insert index_of
  insert-zip k v [] [] h = refl
  insert-zip k v [] (w ∷ vs) h = absurd (omega arith)
  insert-zip k v (x ∷ ks) [] h = absurd (omega arith)
  insert-zip k v (x ∷ ks) (w ∷ vs) h = ground (arith, insert-zip k v ks vs)

  erase-zip :
      (k : K) (ks : List K) (vs : List V)
      → length ks ≡ length vs
      → StdMap.erase k (zip ks vs) ≡ (elim (index_of k ks) [
        | none ↦ zip ks vs
        | some i ↦ zip (erase_idx ks i) (erase_idx vs i)
      ])
  unfolding StdMap.erase index_of
  erase-zip k [] vs h = refl
  erase-zip k (x ∷ ks) [] h = absurd (omega arith)
  erase-zip k (x ∷ ks) (w ∷ vs) h = ground (arith, erase-zip k ks vs)

  -- On a KeyedVector whose parts agree, `insert` overwrites the value of a key that is there, in
  -- its place, and otherwise adds the pair at the end.
  pub entries-insert :
      (k : K) (v : V) (kv : KeyedVector K V)
      → IsSync kv
      → entries (insert k v kv) ≡ StdMap.insert k v (entries kv)
  unfolding insert
  entries-insert k v kv s =
      ground (arith, s.indexed k, s.sized, insert-zip k v kv.m_keyptrs kv.m_values)

  -- `at` by key returns the value that stands with the key in the list of entries, or throws
  -- `out_of_range` if the key is not there; it never reads outside the vector.
  pub at_key-entries :
      (k : K) (kv : KeyedVector K V)
      → IsSync kv
      → at_key k kv ≡ found_or_throw (StdMap.find k (entries kv))
  unfolding at_key
  at_key-entries k kv s = elim (Option-cases (index_of k kv.m_keyptrs)) [
    | inl no_key ↦ ground (arith, s.indexed k, no_key, find-zip k kv.m_keyptrs kv.m_values, s.sized)
    | inr (i, key) ↦ ground (
      arith,
      s.indexed k,
      key,
      find-zip k kv.m_keyptrs kv.m_values,
      s.sized,
      index_of-lt k kv.m_keyptrs i,
      get_elem?-lt kv.m_values i,
    )
  ]

  -- `erase` by key always returns, keeps the parts in agreement, and removes the entry of the key,
  -- if there is one, and no other.
  pub entries-erase :
      (k : K) (kv : KeyedVector K V)
      → IsSync kv
      → (kv' : KeyedVector K V) × (it : ℕ) × (erase k kv ≡ ok (kv', it))
        × IsSync kv'
        × (entries kv' ≡ StdMap.erase k (entries kv))
  unfolding erase
  entries-erase k kv s = elim (Option-cases (index_of k kv.m_keyptrs)) [
    | inl no_key ↦ (
      kv,
      size kv,
      ground (arith, s.indexed k, no_key),
      s,
      ground (arith, no_key, s.sized, erase-zip k kv.m_keyptrs kv.m_values),
    )
    | inr (i, key) ↦
        let (kv', done, s', ks, vs) =
          erase_pos-IsSync i k kv s (get_elem?-index_of k kv.m_keyptrs i key) in
        (
          kv',
          i + 1,
          ground (arith, s.indexed k, key, done, s.sized, index_of-lt k kv.m_keyptrs i),
          s',
          ground (arith, key, ks, vs, s.sized, erase-zip k kv.m_keyptrs kv.m_values),
        )
  ]

  pub get_elem?-zip :
      (ks : List K) (vs : List V) (i : ℕ) (k : K) (v : V)
      → get_elem? ks i ≡ some k
      → get_elem? vs i ≡ some v
      → get_elem? (zip ks vs) i ≡ some (k, v)
  get_elem?-zip [] vs i k v hk hv = cc
  get_elem?-zip (x ∷ ks) [] i k v hk hv = cc
  get_elem?-zip (x ∷ ks) (w ∷ vs) zero k v hk hv = ground arith
  get_elem?-zip (x ∷ ks) (w ∷ vs) (suc i) k v hk hv = get_elem?-zip ks vs i k v hk hv

  pub length-zip :
      (ks : List K) (vs : List V) → length ks ≡ length vs → length (zip ks vs) ≡ length vs
  length-zip [] [] h = refl
  length-zip [] (v ∷ vs) h = absurd (omega arith)
  length-zip (k ∷ ks) [] h = absurd (omega arith)
  length-zip (k ∷ ks) (v ∷ vs) h = ap suc (length-zip ks vs (omega arith))

  -- What index access does, by the entry that stands at the index.
  abbrev pub ReadsAt : ℕ → KeyedVector K V → Option (K × V) → Type 0
  ReadsAt i kv none = (key_at i kv ≡ throw out_of_range) × (at i kv ≡ throw out_of_range)
  ReadsAt i kv (some (k, v)) = (key_at i kv ≡ ok k) × (at i kv ≡ ok v)

  -- The pair at an index of the list of entries is what `key_at` and `at` return there; past the
  -- end of the list both throw `out_of_range`.
  pub at-entries :
      (i : ℕ) (kv : KeyedVector K V) → IsSync kv → ReadsAt i kv (get_elem? (entries kv) i)
  unfolding at key_at size
  at-entries i kv s = elim (dec_lt i (length kv.m_values)) [
    | yes inside ↦
        let (k, at_k) = get_elem?-lt kv.m_keyptrs i (rw s.sized inside) in
        let (v, at_v) = get_elem?-lt kv.m_values i inside in
        rw (get_elem?-zip kv.m_keyptrs kv.m_values i k v at_k at_v)
          (ground (arith, at_k), ground (arith, at_v))
    | no outside ↦
        rw
          (get_elem?-ge (entries kv) i
            (omega (arith, length-zip kv.m_keyptrs kv.m_values s.sized, outside)))
          (ground arith, ground arith)
  ]
