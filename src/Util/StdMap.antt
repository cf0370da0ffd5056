-- ===== src/Util/StdMap.antt =====
-- std::map of the C++ library, as the code uses it: a finite map that holds each key once. The
-- order of its entries is never observed, so an association list stands for it.
use hwpp.Prelude.{
  ℕ, zero, suc, ◌≡◌, refl, inl, inr, false, Option, none, some, List, [], ◌∷◌, ◌++◌, arith,
  if◌then◌else◌, Eq, ◌==◌, ==_iff, ==_refl, ==_cases, length, get_elem?, take,
}

module _ {K V : Type 0} ⦃e : Eq K⦄ where
  unfoldable pub find : K → List (K × V) → Option V
  find k [] = none
  find k ((j, v) ∷ m) = if j == k then some v else find k m

  -- `m[k] = v` and `it->second = v`: overwrite the entry of a key, or add one.
  unfoldable pub insert : K → V → List (K × V) → List (K × V)
  insert k v [] = (k, v) ∷ []
  insert k v ((j, w) ∷ m) = if j == k then (j, v) ∷ m else (j, w) ∷ insert k v m

  unfoldable pub erase : K → List (K × V) → List (K × V)
  erase k [] = []
  erase k ((j, w) ∷ m) = if j == k then m else (j, w) ∷ erase k m

  -- Each key stands once.
  abbrev pub IsMap : List (K × V) → Type 0
  IsMap [] = Unit
  IsMap ((j, w) ∷ m) = (find j m ≡ none) × IsMap m

  pub find-insert :
      (k j : K) (v : V) (m : List (K × V))
      → find j (insert k v m) ≡ (if k == j then some v else find j m)
  unfolding find insert
  find-insert k j v [] = refl
  find-insert k j v ((i, w) ∷ m) =
      ground (arith, ==_iff k j, ==_iff i k, ==_iff i j, find-insert k j v m)

  pub insert-IsMap : (k : K) (v : V) (m : List (K × V)) → IsMap m → IsMap (insert k v m)
  unfolding find insert
  insert-IsMap k v [] h = (refl, tt)
  insert-IsMap k v ((j, w) ∷ m) h =
      ground (arith, ==_iff k j, ==_iff j k, find-insert k j v m, insert-IsMap k v m h.1)

  pub find-erase_ne :
      (k j : K) (m : List (K × V)) → (k == j) ≡ false → find j (erase k m) ≡ find j m
  unfolding find erase
  find-erase_ne k j [] h = refl
  find-erase_ne k j ((i, w) ∷ m) h =
      ground (arith, ==_iff k j, ==_iff i k, ==_iff i j, find-erase_ne k j m h)

  pub find-erase_self : (k : K) (m : List (K × V)) → IsMap m → find k (erase k m) ≡ none
  unfolding find erase
  find-erase_self k [] h = refl
  find-erase_self k ((j, w) ∷ m) h = elim (==_cases j k) [
    | inl same ↦ rw (← same, ==_refl j) h.0
    | inr diff ↦ rw (diff, diff) (find-erase_self k m h.1)
  ]

  pub erase-IsMap : (k : K) (m : List (K × V)) → IsMap m → IsMap (erase k m)
  unfolding find erase
  erase-IsMap k [] h = tt
  erase-IsMap k ((j, w) ∷ m) h = elim (==_cases j k) [
    | inl same ↦ rw (same, ==_refl k) h.1
    | inr diff ↦ ground (arith, ==_iff j k, ==_iff k j, find-erase_ne k j m, erase-IsMap k m h.1)
  ]

  pub length-insert :
      (k : K) (v : V) (m : List (K × V))
      → length (insert k v m) ≡ (elim (find k m) [ none ↦ suc (length m) | some w ↦ length m ])
  unfolding find insert
  length-insert k v [] = refl
  length-insert k v ((j, w) ∷ m) = ground (arith, length-insert k v m)

  pub length-erase :
      (k : K) (v : V) (m : List (K × V)) → find k m ≡ some v → suc (length (erase k m)) ≡ length m
  unfolding find erase
  length-erase k v [] h = cc
  length-erase k v ((j, w) ∷ m) h = ground (arith, length-erase k v m)

  -- A new key goes to the end of the list.
  pub insert-append :
      (k : K) (v : V) (m : List (K × V)) → find k m ≡ none → insert k v m ≡ m ++ (k, v) ∷ []
  unfolding find insert
  insert-append k v [] h = refl
  insert-append k v ((j, w) ∷ m) h = ground (arith, insert-append k v m)

  pub find-get_elem? :
      (k : K) (v : V) (m : List (K × V)) (i : ℕ)
      → IsMap m
      → get_elem? m i ≡ some (k, v)
      → find k m ≡ some v
  unfolding find
  find-get_elem? k v [] i h at_i = cc
  find-get_elem? k v ((j, w) ∷ m) zero h at_i = ground (arith, ==_iff j k)
  find-get_elem? k v ((j, w) ∷ m) (suc i) h at_i =
      ground (arith, ==_iff j k, find-get_elem? k v m i)

  -- No key stands twice, so what stands before an entry does not have its key.
  pub find-take :
      (k : K) (v : V) (m : List (K × V)) (i : ℕ)
      → IsMap m
      → get_elem? m i ≡ some (k, v)
      → find k (take i m) ≡ none
  unfolding find
  find-take k v [] i h at_i = cc
  find-take k v ((j, w) ∷ m) zero h at_i = refl
  find-take k v ((j, w) ∷ m) (suc i) h at_i =
      ground (arith, ==_iff j k, find-get_elem? k v m i, find-take k v m i)
