-- ===== src/Util/KeyedVector/Copy.antt =====
-- Copying a KeyedVector, which inserts its entries one by one into a new one.
use hwpp.Prelude.{
  ℕ, zero, suc, ◌+◌, ◌≡◌, refl, sym, ap, ◌∙◌, some, List, [], ◌∷◌, arith, Eq, length, get_elem?,
  take, get_elem?-lt, take-suc, take-length, ok,
}
use hwpp.Util.StdMap
use hwpp.Util.StdMap.{IsMap, insert-append, find-take}
use hwpp.Util.KeyedVector.{KeyedVector, clear, size, insert, copy_from, copy}
use hwpp.Util.KeyedVector.Sync.{IsDistinct}
use hwpp.Util.KeyedVector.Invariant.{IsSync, clear-IsSync, insert-IsSync}
use hwpp.Util.KeyedVector.Refines.{
  zip, entries, find-zip, length-zip, entries-insert, at-entries, ReadsAt,
}

module _ {K V : Type 0} ⦃e : Eq K⦄ where
  zip-IsMap :
      (ks : List K) (vs : List V) → length ks ≡ length vs → IsDistinct ks → IsMap (zip ks vs)
  zip-IsMap [] vs h d = tt
  zip-IsMap (k ∷ ks) [] h d = tt
  zip-IsMap (k ∷ ks) (v ∷ vs) h d =
      (find-zip k ks vs (omega arith) ∙ rw d.0, zip-IsMap ks vs (omega arith) d.1)

  pub entries-IsMap : (kv : KeyedVector K V) → IsSync kv → IsMap (entries kv)
  entries-IsMap kv s = zip-IsMap kv.m_keyptrs kv.m_values s.sized s.distinct

  insert_next :
      (i : ℕ) (k : K) (v : V) (other tmp : KeyedVector K V)
      → IsSync other
      → IsSync tmp
      → get_elem? (entries other) i ≡ some (k, v)
      → entries tmp ≡ take i (entries other)
      → entries (insert k v tmp) ≡ take (suc i) (entries other)
  insert_next i k v other tmp so st at_i h =
      entries-insert k v tmp st
      ∙ ap (StdMap.insert k v) h
      ∙ insert-append k v _ (find-take k v (entries other) i (entries-IsMap other so) at_i)
      ∙ sym (take-suc (entries other) i (k, v) at_i)

  -- The rounds of a copy that are left add the rest of the source's entries to the target's.
  copy_from-entries :
      (rounds i : ℕ) (other tmp : KeyedVector K V)
      → IsSync other
      → IsSync tmp
      → i + rounds ≡ length (entries other)
      → entries tmp ≡ take i (entries other)
      → (kv' : KeyedVector K V) × (copy_from rounds i other tmp ≡ ok kv')
        × IsSync kv'
        × (entries kv' ≡ entries other)
  unfolding copy_from
  copy_from-entries zero i other tmp so st n h =
      (tmp, refl, st, h ∙ ap (λ n'. take n' (entries other)) is_all ∙ take-length (entries other))
    where
      is_all : i ≡ length (entries other)
      is_all = omega (arith, n)
  copy_from-entries (suc rounds) i other tmp so st n h =
      round (get_elem?-lt (entries other) i (omega arith)).0.0 _
        (get_elem?-lt (entries other) i (omega arith)).1
        λ tmp' st' h'. copy_from-entries rounds (suc i) other tmp' so st' (omega (arith, n)) h'
    where
      Copied : ℕ → ℕ → KeyedVector K V → Type 0
      Copied rounds' i' tmp' =
          (kv' : KeyedVector K V) × (copy_from rounds' i' other tmp' ≡ ok kv')
          × IsSync kv'
          × (entries kv' ≡ entries other)

      round :
          (k : K) (v : V)
          → get_elem? (entries other) i ≡ some (k, v)
          → ((tmp' : KeyedVector K V)
              → IsSync tmp'
              → entries tmp' ≡ take (suc i) (entries other)
              → Copied rounds (suc i) tmp')
          → Copied (suc rounds) i tmp
      round k v at_i next =
          let r : ReadsAt i other (some (k, v)) = rw at_i at (at-entries i other so) in
          let (kv', done, s', e') =
            next (insert k v tmp) (insert-IsSync k v tmp st)
              (insert_next i k v other tmp so st at_i h) in
          (kv', ground (arith, r, done), s', e')

  -- The copy of a KeyedVector whose parts agree has the same entries in the same order, and its
  -- parts agree.
  copy-entries :
      (other : KeyedVector K V)
      → IsSync other
      → (kv' : KeyedVector K V) × (copy other ≡ ok kv') × IsSync kv' × (entries kv' ≡ entries other)
  unfolding copy size clear
  copy-entries other s =
      copy_from-entries (size other) 0 other clear s clear-IsSync
        (omega (arith, length-zip other.m_keyptrs other.m_values s.sized)) refl
