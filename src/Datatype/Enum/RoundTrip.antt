-- ===== src/Datatype/Enum/RoundTrip.antt =====
-- Evaluating a value of an enumeration and looking the string up again.
use hwpp.Prelude.{
  ℕ, ◌≡◌, refl, sym, ◌∙◌, subst, inl, inr, false, some, arith, if◌then◌else◌, Bool-cases, ◌==◌,
  ==_iff, ==_refl, get_elem?, Bytes, bytes_eq, ok,
}
use hwpp.Prelude.Int.{ℤ, pos, int_eq}
use hwpp.Util.StdMap
use hwpp.Util.StdMap.{find-get_elem?}
use hwpp.Util.KeyedVector
use hwpp.Util.KeyedVector.{KeyedVector, size, at, key_at}
use hwpp.Util.KeyedVector.Invariant.{IsSync}
use hwpp.Util.KeyedVector.Refines.{entries, ReadsAt, at-entries}
use hwpp.Util.KeyedVector.Copy.{entries-IsMap}
use hwpp.Datatype.Enum.{
  EnumDatatype, escaping, search, value_is, key_is, evaluate, lookup_string, lookup_value, blank,
  add_value, set_unknown, bool_datatype, bool_lookup_value,
}
use hwpp.Datatype.Enum.Search.{
  some-inj, position_from-get_elem?, position_from-some, search-value, search-key,
}

-- The entry that a search by value stops at.
value-found :
    (value : ℤ) (kv : KeyedVector Bytes ℤ) (k : ℕ) (name : Bytes)
    → IsSync kv
    → get_elem? (entries kv) k ≡ some (name, value)
    → (j : ℕ) × (search (size kv) 0 (value_is value kv) ≡ ok (some j))
      × (str : Bytes) × (get_elem? (entries kv) j ≡ some (str, value))
value-found value kv k name s here =
    let (j, found) =
      position_from-some 0 (λ x. x.1 == value) (entries kv) k (name, value) here (==_refl value) in
    let (i, same, (str, w), there, passes) =
      position_from-get_elem? 0 (λ x. x.1 == value) (entries kv) j found in
    let at_i : j ≡ i = omega (arith, same) in
    (j, rw (search-value value kv s, found) refl, str, rw (at_i, ← (==_iff w value).0 passes) there)

-- The entry that a search by key stops at is the one of the key.
key-found :
    (str : Bytes) (value : ℤ) (kv : KeyedVector Bytes ℤ) (k : ℕ)
    → IsSync kv
    → get_elem? (entries kv) k ≡ some (str, value)
    → (j : ℕ) × (search (size kv) 0 (key_is str kv) ≡ ok (some j))
      × (get_elem? (entries kv) j ≡ some (str, value))
key-found str value kv k s here =
    let (j, found) =
      position_from-some 0 (λ x. x.0 == str) (entries kv) k (str, value) here (==_refl str) in
    let (i, same, (str', w), there, passes) =
      position_from-get_elem? 0 (λ x. x.0 == str) (entries kv) j found in
    let at_i : j ≡ i = omega (arith, same) in
    let there' : get_elem? (entries kv) i ≡ some (str, w) =
      rw (← (==_iff str' str).0 passes) there in
    let unique : w ≡ value = some-inj (
      sym (find-get_elem? str w (entries kv) i (entries-IsMap kv s) there')
      ∙ find-get_elem? str value (entries kv) k (entries-IsMap kv s) here) in
    (j, rw (search-key str kv s, found) refl, rw (at_i, ← unique) there')

-- A value that an entry of the enumeration has evaluates to a name, and that name, looked up, gives
-- the value.
pub evaluate-lookup_string :
    (value : ℤ) (e : EnumDatatype) (k : ℕ) (name : Bytes)
    → IsSync e.m_values
    → get_elem? (entries e.m_values) k ≡ some (name, value)
    → (str : Bytes) × (evaluate value e ≡ ok str)
      × (lookup_string str e ≡ ok value)
      × (lookup_value value e ≡ ok value)
unfolding evaluate lookup_string lookup_value escaping
evaluate-lookup_string value e k name s here =
    let (j, found, str, there) = value-found value e.m_values k name s here in
    let (i, found_key, there_key) = key-found str value e.m_values j s there in
    let reads : ReadsAt j e.m_values (some (str, value)) =
      subst (ReadsAt j e.m_values) there (at-entries j e.m_values s) in
    let reads_key : ReadsAt i e.m_values (some (str, value)) =
      subst (ReadsAt i e.m_values) there_key (at-entries i e.m_values s) in
    (str, rw (found, reads.0) refl, rw (found_key, reads_key.1) refl, rw (found, reads.1) refl)

-- A BoolDatatype with two different names shows 0 by the second and any other value by the first,
-- and looking the name up gives what looking the value up gives.
bool_datatype-round :
    (true_str false_str : Bytes) (value : ℤ)
    → (true_str == false_str) ≡ false
    → (evaluate value (bool_datatype true_str false_str)
        ≡ ok (if value == pos 0 then false_str else true_str))
      × (lookup_string
            (if value == pos 0 then false_str else true_str)
            (bool_datatype true_str false_str)
          ≡ ok (bool_lookup_value value))
unfolding bool_datatype evaluate lookup_string blank add_value set_unknown bool_lookup_value search
    value_is key_is escaping KeyedVector.insert KeyedVector.clear at key_at size StdMap.find
    StdMap.insert
bool_datatype-round true_str false_str value differ = elim (Bool-cases (value == pos 0)) [
  | inl is_zero ↦
      let value_zero : value ≡ pos 0 = (==_iff value (pos 0)).0 is_zero in
      rw value_zero (ground (arith, differ), ground (arith, differ, ==_refl false_str))
  | inr not_zero ↦
      (ground (arith, differ, not_zero), ground (arith, differ, not_zero, ==_refl true_str))
]
