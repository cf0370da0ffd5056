-- ===== src/Tests/KeyedVectors.antt =====
-- util/keyed_vector.h on vectors of two and three entries.
use hwpp.Prelude.{
  ℕ, ◌≤◌, ◌≡◌, refl, [], ◌∷◌, arith, Bytes, codes, bytes_eqb, bytes_eq, ok, undefined,
}
use hwpp.Util.StdMap
use hwpp.Util.KeyedVector.{KeyedVector, clear, size, insert, erase, erase_range}
use hwpp.Util.KeyedVector.Invariant.{IsSync, clear-IsSync, insert-IsSync}
use hwpp.Util.KeyedVector.Refines.{entries, entries-insert, entries-erase}
use hwpp.Util.KeyedVector.Range.{erase_range-skips, erase_range-all}

abbrev two_items : KeyedVector Bytes ℕ
two_items = insert (codes "b") 2 (insert (codes "a") 1 clear)

abbrev three_items : KeyedVector Bytes ℕ
three_items = insert (codes "c") 3 two_items

two_items-IsSync : IsSync two_items
two_items-IsSync = insert-IsSync (codes "b") 2 _ (insert-IsSync (codes "a") 1 clear clear-IsSync)

three_items-IsSync : IsSync three_items
three_items-IsSync = insert-IsSync (codes "c") 3 two_items two_items-IsSync

entries-insert_example :
    entries (insert (codes "a") 7 two_items) ≡ StdMap.insert (codes "a") 7 (entries two_items)
entries-insert_example = entries-insert (codes "a") 7 two_items two_items-IsSync

entries-erase_example :
    (kv' : KeyedVector Bytes ℕ) × (it : ℕ) × (erase (codes "a") three_items ≡ ok (kv', it))
    × IsSync kv'
    × (entries kv' ≡ StdMap.erase (codes "a") (entries three_items))
entries-erase_example = entries-erase (codes "a") three_items three_items-IsSync

three_entries : entries three_items ≡ (codes "a", 1) ∷ (codes "b", 2) ∷ (codes "c", 3) ∷ []
unfolding insert clear StdMap.find StdMap.insert bytes_eqb
three_entries = refl

erase_range-skips_example :
    (kv' : KeyedVector Bytes ℕ) × (erase_range 2 0 three_items ≡ ok (kv', 2))
    × (entries kv' ≡ (codes "b", 2) ∷ [])
erase_range-skips_example =
    erase_range-skips three_items (codes "a", 1) (codes "b", 2) (codes "c", 3) [] three_items-IsSync
      three_entries

two_size : 2 ≤ size two_items
unfolding insert clear size StdMap.find StdMap.insert bytes_eqb
two_size = omega arith

erase_range-all_example : erase_range (size two_items) 0 two_items ≡ undefined
erase_range-all_example = erase_range-all two_items two_items-IsSync two_size
