-- ===== src/Datatype/Multi/Ranges.antt =====
-- The ranges of a MultiDatatype stay in order and apart, and a new range adds its values and no
-- others.
use hwpp.Prelude.{
  ◌≡◌, refl, sym, ◌∙◌, ◌⊎◌, inl, inr, Bool, true, false, ◌&&◌, ◌||◌, List, [], ◌∷◌, arith,
  if◌then◌else◌, Bool-cases, Outcome, ok, throw, undefined, ◌>>=◌, >>=-eq-ok, ok-inj, and-true,
}
use hwpp.Prelude.Int.{ℤ, z_leb, z_ltb, z_lt→le, z_lt_le_trans, z_leb_not, z_ltb_not, z_le_lt_trans}
use hwpp.Datatype.{Datatype}
use hwpp.Datatype.Multi.{
  MultiRange, MultiDatatype, val_in_range, evaluate_parts, evaluate, insert_range, add_range,
}

-- Every range starts above a value.
abbrev pub AllAbove : ℤ → List MultiRange → Type 0
AllAbove h [] = Unit
AllAbove h (p ∷ ps) = (z_ltb h p.low ≡ true) × AllAbove h ps

-- Every range holds a value, and the ranges stand in order and apart.
abbrev pub IsSorted : List MultiRange → Type 0
IsSorted [] = Unit
IsSorted (p ∷ ps) = (z_leb p.low p.high ≡ true) × AllAbove p.high ps × IsSorted ps

AllAbove-lower : (h k : ℤ) (ps : List MultiRange) → z_ltb h k ≡ true → AllAbove k ps → AllAbove h ps
AllAbove-lower h k [] lt above = tt
AllAbove-lower h k (p ∷ ps) lt above =
    (z_lt_le_trans h k p.low lt (z_lt→le k p.low above.0), AllAbove-lower h k ps lt above.1)

-- Inversion of `insert_range` at a list that is not empty.
insert_range-cons :
    (r p : MultiRange) (ps qs : List MultiRange)
    → insert_range r (p ∷ ps) ≡ ok qs
    → ((z_ltb p.high r.low ≡ true)
        × (rest : List MultiRange) × (insert_range r ps ≡ ok rest)
        × (qs ≡ p ∷ rest))
      ⊎ ((z_ltb r.high p.low ≡ true) × (qs ≡ r ∷ p ∷ ps))
unfolding insert_range
insert_range-cons r p ps qs h = elim (Bool-cases (z_ltb p.high r.low)) [
  | inl above ↦
      let (rest, done, same) =
        >>=-eq-ok (insert_range r ps) (λ x. ok (p ∷ x)) {b = qs} (sym (skip above) ∙ h) in
      inl (above, rest, done, cc)
  | inr not_above ↦ elim (Bool-cases (z_ltb r.high p.low)) [
    | inl below ↦ inr (below, cc)
    | inr over ↦ cc
  ]
]
  where
    skip :
        z_ltb p.high r.low ≡ true
        → insert_range r (p ∷ ps) ≡ (insert_range r ps >>= λ x. ok (p ∷ x))
    skip above = rw above refl

insert_range-nil : (r : MultiRange) (qs : List MultiRange) → insert_range r [] ≡ ok qs → qs ≡ r ∷ []
unfolding insert_range
insert_range-nil r qs h = cc

insert_range-AllAbove :
    (h : ℤ) (r : MultiRange) (ps qs : List MultiRange)
    → z_ltb h r.low ≡ true
    → AllAbove h ps
    → insert_range r ps ≡ ok qs
    → AllAbove h qs
unfolding insert_range
insert_range-AllAbove h r [] qs lt above done = rw (insert_range-nil r qs done) (lt, tt)
insert_range-AllAbove h r (p ∷ ps) qs lt above done = elim (insert_range-cons r p ps qs done) [
  | inl (up, rest, more, same) ↦
      rw same (above.0, insert_range-AllAbove h r ps rest lt above.1 more)
  | inr (low, same) ↦ rw same (lt, above)
]

insert_range-IsSorted :
    (r : MultiRange) (ps qs : List MultiRange)
    → z_leb r.low r.high ≡ true
    → IsSorted ps
    → insert_range r ps ≡ ok qs
    → IsSorted qs
unfolding insert_range
insert_range-IsSorted r [] qs some_value sorted done =
    rw (insert_range-nil r qs done) (some_value, tt, tt)
insert_range-IsSorted r (p ∷ ps) qs some_value sorted done =
    elim (insert_range-cons r p ps qs done) [
      | inl (up, rest, more, same) ↦ rw same (
        sorted.0,
        insert_range-AllAbove p.high r ps rest up sorted.1 more,
        insert_range-IsSorted r ps rest some_value sorted.2 more,
      )
      | inr (low, same) ↦ rw same (
        some_value,
        (
          low,
          AllAbove-lower r.high p.high ps (z_lt_le_trans r.high p.low p.high low sorted.0) sorted.1,
        ),
        sorted,
      )
    ]

-- No value is in a range and in one above it.
val_in_range-apart :
    (value : ℤ) (p r : MultiRange)
    → z_ltb p.high r.low ≡ true
    → val_in_range value p ≡ true
    → val_in_range value r ≡ false
unfolding val_in_range
val_in_range-apart value p r up h =
    let (_, high) = and-true (z_leb p.low value) (z_leb value p.high) h in
    rw (z_leb_not value r.low (z_le_lt_trans value p.high r.low high up)) refl

evaluate-insert_range :
    (value : ℤ) (r : MultiRange) (ps qs : List MultiRange)
    → insert_range r ps ≡ ok qs
    → evaluate_parts value qs
      ≡ (if val_in_range value r then Datatype.evaluate r.type value else evaluate_parts value ps)
unfolding insert_range evaluate_parts
evaluate-insert_range value r [] qs done = rw (insert_range-nil r qs done) refl
evaluate-insert_range value r (p ∷ ps) qs done = elim (insert_range-cons r p ps qs done) [
  | inl (up, rest, more, same) ↦ elim (Bool-cases (val_in_range value p)) [
    | inl inside ↦ rw (same, inside, val_in_range-apart value p r up inside) refl
    | inr outside ↦ rw (same, outside, evaluate-insert_range value r ps rest more) refl
  ]
  | inr (low, same) ↦ rw same refl
]

add_range-inserts :
    (datatype : Datatype) (min max : ℤ) (m m' : MultiDatatype)
    → add_range datatype min max m ≡ ok m'
    → (z_leb min max ≡ true)
      × (qs : List MultiRange) × (insert_range
            (record { type = datatype; low = min; high = max })
            m.m_parts
          ≡ ok qs)
      × (m' ≡ record { m_parts = qs })
unfolding add_range
add_range-inserts datatype min max m m' done = elim (Bool-cases (z_ltb max min)) [
  | inl wrong ↦ cc
  | inr right ↦
      let (qs, inserted, same) =
        >>=-eq-ok (insert_range _ m.m_parts) (λ parts. ok (record { m_parts = parts })) {b = m'}
          (sym (past right) ∙ done) in
      (z_ltb_not max min right, qs, inserted, ok-inj (sym same))
]
  where
    past :
        z_ltb max min ≡ false
        → add_range datatype min max m ≡ (
            insert_range (record { type = datatype; low = min; high = max }) m.m_parts >>= λ parts.
            ok (record { m_parts = parts }))
    past right = rw right refl

-- On ranges in order and apart, `add_range`, when it returns, gives ranges in order and apart, and
-- the values of the new range are evaluated with its datatype, all others as before.
pub add_range-evaluate :
    (datatype : Datatype) (min max value : ℤ) (m m' : MultiDatatype)
    → IsSorted m.m_parts
    → add_range datatype min max m ≡ ok m'
    → IsSorted m'.m_parts
      × (evaluate value m' ≡ (
          if z_leb min value && z_leb value max
          then Datatype.evaluate datatype value
          else evaluate value m))
unfolding add_range evaluate val_in_range
add_range-evaluate datatype min max value m m' sorted done =
    let r : MultiRange = record { type = datatype; low = min; high = max } in
    let (some_value, qs, inserted, same) = add_range-inserts datatype min max m m' done in
    rw same (
      insert_range-IsSorted r m.m_parts qs some_value sorted inserted,
      evaluate-insert_range value r m.m_parts qs inserted,
    )

-- Whether two ranges have no value in common.
abbrev pub are_apart : ℤ → ℤ → List MultiRange → Bool
are_apart min max [] = true
are_apart min max (p ∷ ps) = (z_ltb p.high min || z_ltb max p.low) && are_apart min max ps

abbrev pub returns : {E A : Type 0} → Outcome E A → Bool
returns (ok a) = true
returns _ = false

returns->>= :
    {E A B : Type 0} (o : Outcome E A) (f : A → B) → returns (o >>= λ a. ok (f a)) ≡ returns o
returns->>= (ok a) f = refl
returns->>= (throw e) f = refl
returns->>= undefined f = refl

AllAbove-are_apart :
    (min max : ℤ) (ps : List MultiRange) → AllAbove max ps → are_apart min max ps ≡ true
AllAbove-are_apart min max [] above = refl
AllAbove-are_apart min max (p ∷ ps) above =
    rw (above.0, AllAbove-are_apart min max ps above.1) (ground arith)

insert_range-returns :
    (r : MultiRange) (ps : List MultiRange)
    → z_leb r.low r.high ≡ true
    → IsSorted ps
    → returns (insert_range r ps) ≡ are_apart r.low r.high ps
unfolding insert_range
insert_range-returns r [] some_value sorted = refl
insert_range-returns r (p ∷ ps) some_value sorted =
    let later = insert_range-returns r ps some_value sorted.2 in
    elim (Bool-cases (z_ltb p.high r.low)) [
      | inl up ↦ rw up (returns->>= (insert_range r ps) (λ qs. p ∷ qs) ∙ later)
      | inr not_up ↦ elim (Bool-cases (z_ltb r.high p.low)) [
        | inl below ↦
            let above =
              AllAbove-lower r.high p.high ps (z_lt_le_trans r.high p.low p.high below sorted.0)
                sorted.1 in
            rw (not_up, below, AllAbove-are_apart r.low r.high ps above) refl
        | inr over ↦ rw (not_up, over) refl
      ]
    ]

-- On ranges in order and apart, `add_range` returns exactly if the new range holds a value and none
-- that another range holds.
pub add_range-returns :
    (datatype : Datatype) (min max : ℤ) (m : MultiDatatype)
    → IsSorted m.m_parts
    → returns (add_range datatype min max m) ≡ (z_leb min max && are_apart min max m.m_parts)
unfolding add_range
add_range-returns datatype min max m sorted = elim (Bool-cases (z_ltb max min)) [
  | inl wrong ↦ rw (wrong, z_leb_not max min wrong) refl
  | inr right ↦
      let some_value = z_ltb_not max min right in
      rw (right, some_value)
        (returns->>= (insert_range _ m.m_parts) (λ parts. record { m_parts = parts })
          ∙ insert_range-returns (record { type = datatype; low = min; high = max }) m.m_parts
              some_value sorted)
]
