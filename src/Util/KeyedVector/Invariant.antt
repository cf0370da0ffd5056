-- ===== src/Util/KeyedVector/Invariant.antt =====
-- The parts of a KeyedVector agree, and every operation keeps them so.
use hwpp.Prelude.{
  ℕ, ◌+◌, ◌-◌, ◌<◌, ◌≡◌, refl, sym, ◌∙◌, inl, inr, none, some, [], ◌∷◌, ◌++◌, arith, Option-cases,
  Eq, ==_iff, length, get_elem?, drop, erase_idx, length-append, length-set, length-erase_idx, ok,
}
use hwpp.Util.StdMap
use hwpp.Util.StdMap.{
  IsMap, find-insert, insert-IsMap, length-insert, find-erase_ne, find-erase_self, erase-IsMap,
  length-erase,
}
use hwpp.Util.KeyedVector.{KeyedVector, shuffle, clear, insert, erase_pos}
use hwpp.Util.KeyedVector.Sync.{
  index_of, IsDistinct, index_of-lt, index_of-append_one, append_one-IsDistinct, index_of-get_elem?,
  index_of-erase_idx, erase_idx-IsDistinct, index_of-drop, drop-IsDistinct, find-shuffle,
  shuffle-IsMap, length-shuffle, get_elem?-index_of,
}

-- The map holds exactly the keys of the key pointers, each with its place, which is the place of
-- its value.
pub record IsSync {K V : Type 0} ⦃e : Eq K⦄ (kv : KeyedVector K V) : Type 0 where
  pub is_map : IsMap kv.m_keys
  pub counted : length kv.m_keys ≡ length kv.m_values
  pub sized : length kv.m_keyptrs ≡ length kv.m_values
  pub distinct : IsDistinct kv.m_keyptrs
  pub indexed : (k : K) → StdMap.find k kv.m_keys ≡ index_of k kv.m_keyptrs

module _ {K V : Type 0} ⦃e : Eq K⦄ where
  pub clear-IsSync : IsSync (clear {K = K} {V = V})
  unfolding clear StdMap.find index_of
  clear-IsSync = record {
    is_map = tt;
    counted = refl;
    sized = refl;
    distinct = tt;
    indexed = λ k. refl;
  }

  insert_new-indexed :
      (key : K) (kv : KeyedVector K V) (v : V)
      → IsSync kv
      → index_of key kv.m_keyptrs ≡ none
      → (k : K)
      → StdMap.find k (StdMap.insert key (length (kv.m_values ++ v ∷ []) - 1) kv.m_keys)
        ≡ index_of k (kv.m_keyptrs ++ key ∷ [])
  insert_new-indexed key kv v s h k = ground (
    arith,
    ==_iff key k,
    find-insert key k (length (kv.m_values ++ v ∷ []) - 1) kv.m_keys,
    index_of-append_one k key kv.m_keyptrs,
    length-append kv.m_values (v ∷ []),
    s.sized,
    s.indexed k,
    h,
  )

  -- `insert`, of a new key or of one that is there, keeps the map, the values and the key pointers in
  -- agreement.
  pub insert-IsSync :
      (key : K) (value : V) (kv : KeyedVector K V) → IsSync kv → IsSync (insert key value kv)
  unfolding insert
  insert-IsSync key value kv s = elim (Option-cases (StdMap.find key kv.m_keys)) [
    | inl h ↦
        rw (h, insert)
          (record {
            is_map = insert-IsMap key _ kv.m_keys s.is_map;
            counted =
                length-insert key _ kv.m_keys
                ∙ rw h (omega (arith, s.counted, length-append kv.m_values (value ∷ [])));
            sized = omega (
              arith,
              s.sized,
              length-append kv.m_keyptrs (key ∷ []),
              length-append kv.m_values (value ∷ []),
            );
            distinct = append_one-IsDistinct key kv.m_keyptrs (sym (s.indexed key) ∙ h) s.distinct;
            indexed = insert_new-indexed key kv value s (sym (s.indexed key) ∙ h);
          })
    | inr (i, h) ↦
        rw (h, insert)
          (record {
            is_map = s.is_map;
            counted = s.counted ∙ sym (length-set kv.m_values i value);
            sized = s.sized ∙ sym (length-set kv.m_values i value);
            distinct = s.distinct;
            indexed = s.indexed;
          })
  ]

  -- Erasing the key at index `i` moves every index behind it down by one.
  erased-indexed :
      (i : ℕ) (key : K) (kv : KeyedVector K V)
      → IsSync kv
      → get_elem? kv.m_keyptrs i ≡ some key
      → (k : K)
      → StdMap.find k (shuffle (drop i (erase_idx kv.m_keyptrs i)) (StdMap.erase key kv.m_keys))
        ≡ index_of k (erase_idx kv.m_keyptrs i)
  erased-indexed i key kv s at_i k =
      find-shuffle k _ (StdMap.erase key kv.m_keys)
        (drop-IsDistinct _ i (erase_idx-IsDistinct kv.m_keyptrs i s.distinct))
      ∙ elim (Option-cases (index_of k kv.m_keyptrs)) [
        | inl no_key ↦ ground (
          arith,
          no_key,
          ==_iff key k,
          s.indexed k,
          index_of-drop k (erase_idx kv.m_keyptrs i) i
              (erase_idx-IsDistinct kv.m_keyptrs i s.distinct),
          index_of-erase_idx k key kv.m_keyptrs i s.distinct at_i,
          find-erase_ne key k kv.m_keys,
          find-erase_self key kv.m_keys s.is_map,
        )
        | inr (j, at_j) ↦ ground (
          arith,
          at_j,
          at_i,
          ==_iff key k,
          s.indexed k,
          index_of-drop k (erase_idx kv.m_keyptrs i) i
              (erase_idx-IsDistinct kv.m_keyptrs i s.distinct),
          index_of-erase_idx k key kv.m_keyptrs i s.distinct at_i,
          find-erase_ne key k kv.m_keys,
          find-erase_self key kv.m_keys s.is_map,
          get_elem?-index_of k kv.m_keyptrs j,
        )
      ]

  -- `erase(iterator)` removes the key at its index from all three parts.
  pub erase_pos-IsSync :
      (i : ℕ) (key : K) (kv : KeyedVector K V)
      → IsSync kv
      → get_elem? kv.m_keyptrs i ≡ some key
      → (kv' : KeyedVector K V) × (erase_pos i kv ≡ ok (kv', i + 1))
        × IsSync kv'
        × (kv'.m_keyptrs ≡ erase_idx kv.m_keyptrs i)
        × (kv'.m_values ≡ erase_idx kv.m_values i)
  unfolding erase_pos
  erase_pos-IsSync i key kv s at_i = (
    _,
    ground (arith, at_i),
    record {
      is_map =
          shuffle-IsMap (drop i (erase_idx kv.m_keyptrs i)) _ (erase-IsMap key kv.m_keys s.is_map);
      counted = omega (
        arith,
        length-shuffle (drop i (erase_idx kv.m_keyptrs i)) (StdMap.erase key kv.m_keys),
        length-erase key i kv.m_keys found,
        length-erase_idx kv.m_values i below,
        s.counted,
      );
      sized = omega (
        arith,
        length-erase_idx kv.m_values i below,
        length-erase_idx kv.m_keyptrs i (rw s.sized (below)),
        s.sized,
      );
      distinct = erase_idx-IsDistinct kv.m_keyptrs i s.distinct;
      indexed = erased-indexed i key kv s at_i;
    },
    refl,
    refl,
  )
    where
      found : StdMap.find key kv.m_keys ≡ some i
      found = s.indexed key ∙ index_of-get_elem? key kv.m_keyptrs i s.distinct at_i

      below : i < length kv.m_values
      below = rw s.sized at (index_of-lt key kv.m_keyptrs i (sym (s.indexed key) ∙ found))
