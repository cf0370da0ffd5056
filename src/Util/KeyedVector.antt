-- ===== src/Util/KeyedVector.antt =====
-- util/keyed_vector.h: a vector whose values also have keys. A map iterator stays valid until its
-- entry is erased, so the key of its entry stands for it. Value iterators are indices, with
-- `end()` the number of values.
pub mod Sync
pub mod Invariant
pub mod Refines
pub mod Copy
pub mod Range
use hwpp.Prelude.{
  ℕ, zero, suc, ◌+◌, ◌-◌, Bool, not, none, some, List, [], ◌∷◌, ◌++◌, leb, eqb, if◌then◌else◌, Eq,
  length, set, drop, erase_idx, Outcome, ok, throw, ◌>>=◌, ◌>>◌, raw,
}
use hwpp.Util.StdMap

pub record KeyedVector (K V : Type 0) : Type 0 where
  pub m_keys : List (K × ℕ)
  pub m_values : List V
  pub m_keyptrs : List K

pub data OutOfRange : Type 0 where
  out_of_range : OutOfRange

module _ {K V : Type 0} where
  unfoldable pub clear : KeyedVector K V
  clear = record { m_keys = []; m_values = []; m_keyptrs = [] }

  unfoldable pub size : KeyedVector K V → ℕ
  size kv = length kv.m_values

  unfoldable pub empty : KeyedVector K V → Bool
  empty kv = eqb (length kv.m_values) 0

  -- Check index bounds.
  unfoldable pub bounds_check : ℕ → KeyedVector K V → Outcome OutOfRange (Unit {0})
  unfolding size
  bounds_check index kv = if leb (size kv) index then throw out_of_range else ok tt

  unfoldable pub at : ℕ → KeyedVector K V → Outcome OutOfRange V
  unfolding bounds_check
  at index kv = do bounds_check index kv; raw kv.m_values index

  unfoldable pub key_at : ℕ → KeyedVector K V → Outcome OutOfRange K
  unfolding bounds_check
  key_at index kv = do bounds_check index kv; raw kv.m_keyptrs index

  unfoldable pub front : KeyedVector K V → Outcome OutOfRange V
  unfolding bounds_check
  front kv = do bounds_check 0 kv; raw kv.m_values 0

  unfoldable pub back : KeyedVector K V → Outcome OutOfRange V
  unfolding bounds_check
  back kv = do bounds_check 0 kv; raw kv.m_values (length kv.m_values - 1)

  -- `find(size_type)`
  unfoldable pub find_index : ℕ → KeyedVector K V → ℕ
  unfolding size
  find_index index kv = if leb (size kv) index then size kv else index

module _ {K : Type 0} ⦃e : Eq K⦄ where
  -- `m_keyptrs[i]->second--`
  pub decrement : K → List (K × ℕ) → List (K × ℕ)
  decrement key m = elim (StdMap.find key m) [ none ↦ m | some i ↦ StdMap.insert key (i - 1) m ]

  -- The loop of `erase` over the key pointers from the erased place on.
  pub shuffle : List K → List (K × ℕ) → List (K × ℕ)
  unfolding decrement
  shuffle [] m = m
  shuffle (k ∷ ks) m = shuffle ks (decrement k m)

module _ {K V : Type 0} ⦃e : Eq K⦄ where
  -- `find(const Tkey &)`
  unfoldable pub find : K → KeyedVector K V → ℕ
  unfolding size
  find key kv = elim (StdMap.find key kv.m_keys) [ none ↦ size kv | some i ↦ i ]

  unfoldable pub has_key : K → KeyedVector K V → Bool
  unfolding find size
  has_key key kv = not (eqb (find key kv) (size kv))

  -- `at(const Tkey &)`
  unfoldable pub at_key : K → KeyedVector K V → Outcome OutOfRange V
  unfolding find size
  at_key key kv =
      if not (eqb (find key kv) (size kv))
      then raw kv.m_values (find key kv)
      else throw out_of_range

  -- A new key enters the map with the last index of the values; a known key keeps its place. The
  -- map's value -1, which stands for a moment, is overwritten before anything reads it.
  unfoldable pub insert : K → V → KeyedVector K V → KeyedVector K V
  insert key value kv = elim (StdMap.find key kv.m_keys) [
    | none ↦
        let values = kv.m_values ++ value ∷ [] in
        record {
          m_keys = StdMap.insert key (length values - 1) kv.m_keys;
          m_values = values;
          m_keyptrs = kv.m_keyptrs ++ key ∷ [];
        }
    | some i ↦ record kv { m_values = set kv.m_values i value }
  ]

  -- `erase(iterator)`, with the iterator that it returns.
  unfoldable pub erase_pos : ℕ → KeyedVector K V → Outcome OutOfRange (KeyedVector K V × ℕ)
  unfolding shuffle
  erase_pos index kv = do
    key ← raw kv.m_keyptrs index
    let keyptrs = erase_idx kv.m_keyptrs index
    ok (
      record {
        m_keys = shuffle (drop index keyptrs) (StdMap.erase key kv.m_keys);
        m_values = erase_idx kv.m_values index;
        m_keyptrs = keyptrs;
      },
      index + 1,
    )

  -- `erase(const Tkey &)`
  unfoldable pub erase : K → KeyedVector K V → Outcome OutOfRange (KeyedVector K V × ℕ)
  unfolding find size
  erase key kv =
      if not (eqb (find key kv) (size kv)) then erase_pos (find key kv) kv else ok (kv, size kv)

  -- `erase(iterator, iterator)`: the rounds are `last - first`.
  unfoldable pub erase_range : ℕ → ℕ → KeyedVector K V → Outcome OutOfRange (KeyedVector K V × ℕ)
  erase_range zero first kv = ok (kv, first)
  erase_range (suc rounds) first kv = do
    (kv', _) ← erase_pos first kv
    erase_range rounds (first + 1) kv'

  unfoldable pub pop_front : KeyedVector K V → Outcome OutOfRange (KeyedVector K V × ℕ)
  unfolding bounds_check
  pop_front kv = do bounds_check 0 kv; key ← raw kv.m_keyptrs 0; erase key kv

  unfoldable pub pop_back : KeyedVector K V → Outcome OutOfRange (KeyedVector K V × ℕ)
  unfolding bounds_check
  pop_back kv = do bounds_check 0 kv; key ← raw kv.m_keyptrs (length kv.m_keyptrs - 1); erase key kv

  -- The loop of `operator=`, from index `i` of the source on.
  unfoldable pub copy_from :
      ℕ → ℕ → KeyedVector K V → KeyedVector K V → Outcome OutOfRange (KeyedVector K V)
  copy_from zero i other tmp = ok tmp
  copy_from (suc rounds) i other tmp = do
    key ← key_at i other
    value ← at i other
    copy_from rounds (suc i) other (insert key value tmp)

  unfoldable pub copy : KeyedVector K V → Outcome OutOfRange (KeyedVector K V)
  copy other = copy_from (size other) 0 other clear
