-- ===== src/Util/KeyedVector/Range.antt =====
-- `erase(first, last)` steps its iterator past the entry that has just moved into the erased place.
use hwpp.Prelude.{
  ℕ, zero, suc, ◌+◌, ◌≤◌, ◌<◌, ◌≡◌, refl, ap, ◌∙◌, List, [], ◌∷◌, arith, Eq, length, erase_idx,
  length-erase_idx, get_elem?-lt, get_elem?-ge, ok, undefined,
}
use native.Mathlib.Decide.{dec_lt}
use hwpp.Util.KeyedVector.{KeyedVector, size, erase_pos, erase_range}
use hwpp.Util.KeyedVector.Invariant.{IsSync, erase_pos-IsSync}
use hwpp.Util.KeyedVector.Refines.{zip, entries, length-zip}

module _ {K V : Type 0} ⦃e : Eq K⦄ where
  -- `erase(iterator)` on an index of the vector, seen in the list of entries.
  pub entries-erase_pos :
      (i : ℕ) (kv : KeyedVector K V)
      → IsSync kv
      → i < size kv
      → (kv' : KeyedVector K V) × (erase_pos i kv ≡ ok (kv', i + 1))
        × IsSync kv'
        × (entries kv' ≡ erase_idx (entries kv) i)
  unfolding size
  entries-erase_pos i kv s inside =
      let (k, at_i) = get_elem?-lt kv.m_keyptrs i (rw s.sized inside) in
      let (kv', done, s', ks, vs) = erase_pos-IsSync i k kv s at_i in
      (kv', done, s', rw (ks, vs) (zip-erase_idx kv.m_keyptrs kv.m_values i))
    where
      zip-erase_idx :
          (ks : List K) (vs : List V) (i : ℕ)
          → zip (erase_idx ks i) (erase_idx vs i) ≡ erase_idx (zip ks vs) i
      zip-erase_idx [] vs i = refl
      zip-erase_idx (k ∷ []) [] zero = refl
      zip-erase_idx (k ∷ j ∷ ks) [] zero = refl
      zip-erase_idx (k ∷ ks) [] (suc i) = refl
      zip-erase_idx (k ∷ ks) (v ∷ vs) zero = refl
      zip-erase_idx (k ∷ ks) (v ∷ vs) (suc i) = ap (◌∷◌ (k, v)) (zip-erase_idx ks vs i)

  pub length-entries : (kv : KeyedVector K V) → IsSync kv → length (entries kv) ≡ size kv
  unfolding size
  length-entries kv s = length-zip kv.m_keyptrs kv.m_values s.sized

  size-erase_pos :
      (i : ℕ) (kv kv' : KeyedVector K V)
      → IsSync kv
      → IsSync kv'
      → i < size kv
      → entries kv' ≡ erase_idx (entries kv) i
      → suc (size kv') ≡ size kv
  size-erase_pos i kv kv' s s' inside h = omega (
    arith,
    length-entries kv s,
    length-entries kv' s',
    ap length h,
    length-erase_idx (entries kv) i (rw (length-entries kv s) inside),
  )

  -- On a KeyedVector whose parts agree and that has three entries or more, erasing the range of
  -- the first two removes the first and the third, and returns index 2.
  pub erase_range-skips :
      (kv : KeyedVector K V) (p q r : K × V) (rest : List (K × V))
      → IsSync kv
      → entries kv ≡ p ∷ q ∷ r ∷ rest
      → (kv' : KeyedVector K V) × (erase_range 2 0 kv ≡ ok (kv', 2)) × (entries kv' ≡ q ∷ rest)
  unfolding erase_range
  erase_range-skips kv p q r rest s h =
      let two : length (entries kv) ≡ length (p ∷ q ∷ r ∷ rest) = ap length h in
      let first : 0 < size kv = omega (arith, two, length-entries kv s) in
      let (kv1, done1, s1, e1) = entries-erase_pos 0 kv s first in
      let second : 1 < size kv1 =
        omega (arith, two, length-entries kv s, size-erase_pos 0 kv kv1 s s1 first e1) in
      let (kv2, done2, s2, e2) = entries-erase_pos 1 kv1 s1 second in
      (kv2, ground (arith, done1, done2), e2 ∙ rw (e1, h))

  erase_pos-outside :
      (i : ℕ) (kv : KeyedVector K V) → IsSync kv → size kv ≤ i → erase_pos i kv ≡ undefined
  unfolding erase_pos size
  erase_pos-outside i kv s h = ground (arith, get_elem?-ge kv.m_keyptrs i (omega (arith, s.sized)))

  past_the_end :
      (rounds first : ℕ) (kv : KeyedVector K V)
      → IsSync kv
      → 0 < rounds
      → size kv < first + rounds
      → erase_range rounds first kv ≡ undefined
  unfolding erase_range
  past_the_end zero first kv s more h = absurd (omega arith)
  past_the_end (suc rounds) first kv s more h = elim (dec_lt first (size kv)) [
    | yes inside ↦
        let (kv', done, s', e') = entries-erase_pos first kv s inside in
        let left = size-erase_pos first kv kv' s s' inside e' in
        ground (
          arith,
          done,
          past_the_end rounds (first + 1) kv' s' (omega (arith, h, inside))
              (omega (arith, h, left)),
        )
    | no outside ↦ ground (arith, erase_pos-outside first kv s (omega (arith, outside)))
  ]

  every_round :
      (rounds : ℕ) (kv : KeyedVector K V)
      → IsSync kv
      → size kv ≡ rounds
      → 2 ≤ rounds
      → erase_range rounds 0 kv ≡ undefined
  unfolding erase_range
  every_round zero kv s n h = absurd (omega arith)
  every_round (suc rounds) kv s n h =
      let (kv', done, s', e') = entries-erase_pos 0 kv s (omega (arith, n)) in
      let left = size-erase_pos 0 kv kv' s s' (omega (arith, n)) e' in
      ground (arith, done, past_the_end rounds 1 kv' s' (omega (arith, h)) (omega (arith, n, left)))

  -- On a KeyedVector whose parts agree and that has two entries or more, erasing the range of all
  -- entries goes on to erase at an index past the end, which is undefined.
  pub erase_range-all :
      (kv : KeyedVector K V) → IsSync kv → 2 ≤ size kv → erase_range (size kv) 0 kv ≡ undefined
  erase_range-all kv s h = every_round (size kv) kv s refl h
