-- ===== src/Datatype/Enum/Search.antt =====
-- The searches of EnumDatatype find the first entry that passes their test.
use hwpp.Prelude.{
  ℕ, zero, suc, ◌+◌, ◌≤◌, ◌≡◌, refl, sym, ap, ◌∙◌, subst, inl, inr, Bool, true, Option, none, some,
  List, [], ◌∷◌, arith, if◌then◌else◌, Bool-cases, ◌==◌, length, get_elem?, drop, get_elem?-lt,
  Bytes, bytes_eq, Outcome, ok,
}
use hwpp.Prelude.Int.{ℤ, int_eq}
use hwpp.Util.KeyedVector.{KeyedVector, size}
use hwpp.Util.KeyedVector.Invariant.{IsSync}
use hwpp.Util.KeyedVector.Refines.{entries, ReadsAt, at-entries, length-zip}
use hwpp.Datatype.{DatatypeError}
use hwpp.Datatype.Enum.{escaping, search, value_is, key_is}

pub some-inj : {A : Type 0} {a b : A} → some a ≡ some b → a ≡ b
some-inj h = cc

module _ {A : Type 0} where
  -- The first index, counted from a start, whose element passes a test.
  abbrev pub position_from : ℕ → (A → Bool) → List A → Option ℕ
  position_from i p [] = none
  position_from i p (x ∷ xs) = if p x then some i else position_from (suc i) p xs

  -- The element at the position passes the test.
  pub position_from-get_elem? :
      (i : ℕ) (p : A → Bool) (xs : List A) (j : ℕ)
      → position_from i p xs ≡ some j
      → (k : ℕ) × (j ≡ k + i) × (x : A) × (get_elem? xs k ≡ some x) × (p x ≡ true)
  position_from-get_elem? i p [] j h = cc
  position_from-get_elem? i p (x ∷ xs) j h = elim (Bool-cases (p x)) [
    | inl passes ↦
        let start : j ≡ i = some-inj (sym h ∙ rw passes refl) in
        (0, omega (arith, start), x, refl, passes)
    | inr fails ↦
        let later : position_from (suc i) p xs ≡ some j = sym (rw fails refl) ∙ h in
        let (k, same, y, there, passes) = position_from-get_elem? (suc i) p xs j later in
        (suc k, omega (arith, same), y, there, passes)
  ]

  -- An element that passes the test is found, or one before it.
  pub position_from-some :
      (i : ℕ) (p : A → Bool) (xs : List A) (k : ℕ) (x : A)
      → get_elem? xs k ≡ some x
      → p x ≡ true
      → (j : ℕ) × (position_from i p xs ≡ some j)
  position_from-some i p [] k x h passes = cc
  position_from-some i p (y ∷ xs) zero x h passes = (i, rw (some-inj h, passes) refl)
  position_from-some i p (y ∷ xs) (suc k) x h passes = elim (Bool-cases (p y)) [
    | inl here ↦ (i, rw here refl)
    | inr not_here ↦
        let (j, later) = position_from-some (suc i) p xs k x h passes in (j, rw not_here later)
  ]

  drop-get_elem? :
      (xs : List A) (i : ℕ) (x : A) → get_elem? xs i ≡ some x → drop i xs ≡ x ∷ drop (suc i) xs
  drop-get_elem? [] i x h = cc
  drop-get_elem? (y ∷ xs) zero x h = ap (λ z. z ∷ xs) (some-inj h)
  drop-get_elem? (y ∷ xs) (suc i) x h = drop-get_elem? xs i x h

  drop-end : (xs : List A) (i : ℕ) → length xs ≤ i → drop i xs ≡ []
  drop-end [] zero h = refl
  drop-end [] (suc i) h = refl
  drop-end (x ∷ xs) zero h = absurd (omega arith)
  drop-end (x ∷ xs) (suc i) h = drop-end xs i (omega arith)

  pub search-position_from :
      (xs : List A) (p : A → Bool) (test : ℕ → Outcome DatatypeError Bool)
      → ((i : ℕ) (x : A) → get_elem? xs i ≡ some x → test i ≡ ok (p x))
      → (n i : ℕ) → n + i ≡ length xs
      → search n i test ≡ ok (position_from i p (drop i xs))
  unfolding search
  search-position_from xs p test reads zero i len = rw (drop-end xs i (omega arith)) refl
  search-position_from xs p test reads (suc n) i len =
      let (x, here) = get_elem?-lt xs i (omega arith) in
      rw
        (
          reads i x here,
          drop-get_elem? xs i x here,
          search-position_from xs p test reads n (suc i) (omega arith),
        )
        (ground arith)

value_is-entries :
    (value : ℤ) (kv : KeyedVector Bytes ℤ)
    → IsSync kv
    → (i : ℕ) (x : Bytes × ℤ) → get_elem? (entries kv) i ≡ some x
    → value_is value kv i ≡ ok (x.1 == value)
unfolding value_is escaping
value_is-entries value kv s i x here =
    let reads : ReadsAt i kv (some x) = subst (ReadsAt i kv) here (at-entries i kv s) in
    rw reads.1 refl

key_is-entries :
    (str : Bytes) (kv : KeyedVector Bytes ℤ)
    → IsSync kv
    → (i : ℕ) (x : Bytes × ℤ) → get_elem? (entries kv) i ≡ some x
    → key_is str kv i ≡ ok (x.0 == str)
unfolding key_is escaping
key_is-entries str kv s i x here =
    let reads : ReadsAt i kv (some x) = subst (ReadsAt i kv) here (at-entries i kv s) in
    rw reads.0 refl

length-entries : (kv : KeyedVector Bytes ℤ) → IsSync kv → size kv ≡ length (entries kv)
unfolding size
length-entries kv s = sym (length-zip kv.m_keyptrs kv.m_values s.sized)

pub search-value :
    (value : ℤ) (kv : KeyedVector Bytes ℤ)
    → IsSync kv
    → search (size kv) 0 (value_is value kv) ≡ ok (position_from 0 (λ x. x.1 == value) (entries kv))
search-value value kv s =
    search-position_from (entries kv) (λ x. x.1 == value) (value_is value kv)
      (value_is-entries value kv s) (size kv) 0 (omega (arith, length-entries kv s))

pub search-key :
    (str : Bytes) (kv : KeyedVector Bytes ℤ)
    → IsSync kv
    → search (size kv) 0 (key_is str kv) ≡ ok (position_from 0 (λ x. x.0 == str) (entries kv))
search-key str kv s =
    search-position_from (entries kv) (λ x. x.0 == str) (key_is str kv) (key_is-entries str kv s)
      (size kv) 0 (omega (arith, length-entries kv s))
