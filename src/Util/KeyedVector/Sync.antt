-- ===== src/Util/KeyedVector/Sync.antt =====
-- Where a key stands in the key pointers, and how the steps of `erase` move it.
use hwpp.Prelude.{
  ℕ, zero, suc, ◌-◌, ◌<◌, ◌≡◌, refl, ◌∙◌, inl, inr, Option, none, some, List, [], ◌∷◌, ◌++◌, arith,
  ltb, leb, if◌then◌else◌, Option-cases, Eq, ◌==◌, ==_iff, ==_refl, ==_cases, length, get_elem?,
  drop, erase_idx,
}
use mathlib.Core.Option
use hwpp.Util.StdMap
use hwpp.Util.StdMap.{IsMap, find-insert, insert-IsMap, length-insert}
use hwpp.Util.KeyedVector.{decrement, shuffle}

-- An index behind the erased one moves down.
abbrev pub shift : ℕ → ℕ → ℕ
shift i j = if ltb i j then j - 1 else j

module _ {K : Type 0} ⦃e : Eq K⦄ where
  unfoldable pub index_of : K → List K → Option ℕ
  index_of k [] = none
  index_of k (x ∷ xs) = if x == k then some 0 else Option.map suc (index_of k xs)

  abbrev pub IsDistinct : List K → Type 0
  IsDistinct [] = Unit
  IsDistinct (x ∷ xs) = (index_of x xs ≡ none) × IsDistinct xs

  -- What a found index says.
  abbrev PointsAt : K → List K → Option ℕ → Type 0
  PointsAt k xs none = Unit
  PointsAt k xs (some i) = (i < length xs) × (get_elem? xs i ≡ some k)

  PointsAt-cons :
      (k x : K) (xs : List K) (o : Option ℕ)
      → PointsAt k xs o
      → PointsAt k (x ∷ xs) (Option.map suc o)
  PointsAt-cons k x xs none h = tt
  PointsAt-cons k x xs (some i) h = (omega arith, h.1)

  index_of-PointsAt : (k : K) (xs : List K) → PointsAt k xs (index_of k xs)
  unfolding index_of
  index_of-PointsAt k [] = tt
  index_of-PointsAt k (x ∷ xs) = elim (==_cases x k) [
    | inl same ↦ rw (same, ==_refl k) (omega arith, refl)
    | inr diff ↦ rw diff (PointsAt-cons k x xs _ (index_of-PointsAt k xs))
  ]

  pub index_of-lt : (k : K) (xs : List K) (i : ℕ) → index_of k xs ≡ some i → i < length xs
  index_of-lt k xs i h = (rw h at (index_of-PointsAt k xs)).0

  pub get_elem?-index_of :
      (k : K) (xs : List K) (i : ℕ) → index_of k xs ≡ some i → get_elem? xs i ≡ some k
  get_elem?-index_of k xs i h = (rw h at (index_of-PointsAt k xs)).1

  pub index_of-append_one :
      (k x : K) (xs : List K)
      → index_of k (xs ++ x ∷ []) ≡ (elim (index_of k xs) [
        | none ↦ if x == k then some (length xs) else none
        | some i ↦ some i
      ])
  unfolding index_of
  index_of-append_one k x [] = ground arith
  index_of-append_one k x (y ∷ ys) = ground (arith, index_of-append_one k x ys)

  pub append_one-IsDistinct :
      (x : K) (xs : List K) → index_of x xs ≡ none → IsDistinct xs → IsDistinct (xs ++ x ∷ [])
  unfolding index_of
  append_one-IsDistinct x [] h d = (refl, tt)
  append_one-IsDistinct x (y ∷ ys) h d =
      ground (arith, ==_iff x y, ==_iff y x, index_of-append_one y x ys, append_one-IsDistinct x ys)

  -- The key at an index is found there.
  pub index_of-get_elem? :
      (x : K) (xs : List K) (i : ℕ)
      → IsDistinct xs
      → get_elem? xs i ≡ some x
      → index_of x xs ≡ some i
  unfolding index_of
  index_of-get_elem? x [] i d h = cc
  index_of-get_elem? x (y ∷ ys) zero d h = ground (arith, ==_iff y x)
  index_of-get_elem? x (y ∷ ys) (suc i) d h = ground (arith, ==_iff y x, index_of-get_elem? x ys i)

  pub index_of-erase_idx :
      (k x : K) (xs : List K) (i : ℕ)
      → IsDistinct xs
      → get_elem? xs i ≡ some x
      → index_of k (erase_idx xs i)
        ≡ (if x == k then none else Option.map (shift i) (index_of k xs))
  unfolding index_of
  index_of-erase_idx k x [] i d h = cc
  index_of-erase_idx k x (y ∷ ys) zero d h = ground (arith, ==_iff y k, ==_iff x k)
  index_of-erase_idx k x (y ∷ ys) (suc i) d h = ground (
    arith,
    ==_iff y k,
    ==_iff x k,
    ==_iff x y,
    index_of-get_elem? x ys i,
    index_of-erase_idx k x ys i,
  )

  index_of-erase_idx-none :
      (k : K) (xs : List K) (i : ℕ) → index_of k xs ≡ none → index_of k (erase_idx xs i) ≡ none
  unfolding index_of
  index_of-erase_idx-none k [] i h = refl
  index_of-erase_idx-none k (y ∷ ys) zero h = ground arith
  index_of-erase_idx-none k (y ∷ ys) (suc i) h = ground (arith, index_of-erase_idx-none k ys i)

  pub erase_idx-IsDistinct : (xs : List K) (i : ℕ) → IsDistinct xs → IsDistinct (erase_idx xs i)
  unfolding index_of
  erase_idx-IsDistinct [] i d = tt
  erase_idx-IsDistinct (y ∷ ys) zero d = d.1
  erase_idx-IsDistinct (y ∷ ys) (suc i) d =
      (index_of-erase_idx-none y ys i d.0, erase_idx-IsDistinct ys i d.1)

  -- The position in the list from index `i` on.
  pub index_of-drop :
      (k : K) (xs : List K) (i : ℕ)
      → IsDistinct xs
      → index_of k (drop i xs)
        ≡ (elim (index_of k xs) [ none ↦ none | some j ↦ if leb i j then some (j - i) else none ])
  unfolding index_of
  index_of-drop k [] zero d = refl
  index_of-drop k [] (suc i) d = refl
  index_of-drop k (y ∷ ys) zero d = ground arith
  index_of-drop k (y ∷ ys) (suc i) d = ground (arith, ==_iff y k, index_of-drop k ys i)

  pub drop-IsDistinct : (xs : List K) (i : ℕ) → IsDistinct xs → IsDistinct (drop i xs)
  drop-IsDistinct [] zero d = tt
  drop-IsDistinct [] (suc i) d = tt
  drop-IsDistinct (y ∷ ys) zero d = d
  drop-IsDistinct (y ∷ ys) (suc i) d = drop-IsDistinct ys i d.1

  find-decrement :
      (k x : K) (m : List (K × ℕ))
      → StdMap.find k (decrement x m)
        ≡ (if x == k then Option.map (λ i. i - 1) (StdMap.find k m) else StdMap.find k m)
  unfolding decrement
  find-decrement k x m = elim (Option-cases (StdMap.find x m)) [
    | inl h ↦ rw (h, decrement) (ground (arith, ==_iff x k))
    | inr (i, h) ↦ rw (h, decrement) (ground (arith, ==_iff x k, find-insert x k (i - 1) m))
  ]

  -- The loop of `erase` takes one from the index of every key that it visits, and of no other.
  pub find-shuffle :
      (k : K) (ks : List K) (m : List (K × ℕ))
      → IsDistinct ks
      → StdMap.find k (shuffle ks m) ≡ (elim (index_of k ks) [
        | none ↦ StdMap.find k m
        | some j ↦ Option.map (λ i. i - 1) (StdMap.find k m)
      ])
  unfolding shuffle index_of
  find-shuffle k [] m d = refl
  find-shuffle k (x ∷ xs) m d = elim (==_cases x k) [
    | inl same ↦
        rw (same, ==_refl k)
          (find-shuffle k xs (decrement k m) d.1
            ∙ ground (arith, same, d.0, find-decrement k k m, ==_refl k))
    | inr diff ↦ rw diff (ground (arith, find-shuffle k xs (decrement x m), find-decrement k x m))
  ]

  decrement-IsMap : (x : K) (m : List (K × ℕ)) → IsMap m → IsMap (decrement x m)
  unfolding decrement
  decrement-IsMap x m h = elim (Option-cases (StdMap.find x m)) [
    | inl no_key ↦ rw (no_key, decrement) h
    | inr (i, key) ↦ rw (key, decrement) (insert-IsMap x (i - 1) m h)
  ]

  length-decrement : (x : K) (m : List (K × ℕ)) → length (decrement x m) ≡ length m
  unfolding decrement
  length-decrement x m = elim (Option-cases (StdMap.find x m)) [
    | inl no_key ↦ rw (no_key, decrement)
    | inr (i, key) ↦ rw (key, decrement) (length-insert x (i - 1) m ∙ rw key)
  ]

  pub shuffle-IsMap : (ks : List K) (m : List (K × ℕ)) → IsMap m → IsMap (shuffle ks m)
  unfolding shuffle
  shuffle-IsMap [] m h = h
  shuffle-IsMap (x ∷ xs) m h = shuffle-IsMap xs (decrement x m) (decrement-IsMap x m h)

  pub length-shuffle : (ks : List K) (m : List (K × ℕ)) → length (shuffle ks m) ≡ length m
  unfolding shuffle
  length-shuffle [] m = refl
  length-shuffle (x ∷ xs) m = length-shuffle xs (decrement x m) ∙ length-decrement x m
