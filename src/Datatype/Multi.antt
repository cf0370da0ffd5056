-- ===== src/Datatype/Multi.antt =====
-- datatype_types.h: MultiDatatype, which chooses the datatype by the range of the value.
pub mod Ranges
use hwpp.Prelude.{
  Bool, ◌&&◌, List, [], ◌∷◌, ◌++◌, if◌then◌else◌, Bytes, codes, bytes_eq, Outcome, ok, throw,
  undefined, ◌>>=◌,
}
use hwpp.Prelude.Int.{ℤ, z_leb, z_ltb, int_to_string}
use hwpp.Datatype.{DatatypeError, invalid, Datatype}

pub record MultiRange : Type 0 where
  pub type : Datatype
  pub low : ℤ
  pub high : ℤ

-- `m_parts`
pub record MultiDatatype : Type 0 where
  pub m_parts : List MultiRange

unfoldable pub val_in_range : ℤ → MultiRange → Bool
val_in_range value range = z_leb range.low value && z_leb value range.high

-- `sprintfxx("<!%d!>", value)`
unfoldable pub unknown_value : ℤ → Bytes
unfolding int_to_string
unknown_value value = codes "<!" ++ int_to_string value ++ codes "!>"

-- The loop of `evaluate`.
unfoldable pub evaluate_parts : ℤ → List MultiRange → Outcome DatatypeError Bytes
unfolding val_in_range unknown_value
evaluate_parts value [] = ok (unknown_value value)
evaluate_parts value (p ∷ ps) =
    if val_in_range value p then Datatype.evaluate p.type value else evaluate_parts value ps

unfoldable pub evaluate : ℤ → MultiDatatype → Outcome DatatypeError Bytes
unfolding evaluate_parts
evaluate value m = evaluate_parts value m.m_parts

-- The loop of `lookup` by string, which passes over parts that throw `InvalidError`.
unfoldable pub lookup_string_parts : Bytes → List MultiRange → Outcome DatatypeError ℤ
unfolding val_in_range
lookup_string_parts str [] = throw invalid
lookup_string_parts str (p ∷ ps) =
    let rest = lookup_string_parts str ps in
    elim (Datatype.lookup_string p.type str) [
      | ok val ↦ if val_in_range val p then ok val else rest
      | throw invalid ↦ rest
      | throw e ↦ throw e
      | undefined ↦ undefined
    ]

unfoldable pub lookup_string : Bytes → MultiDatatype → Outcome DatatypeError ℤ
unfolding lookup_string_parts
lookup_string str m = lookup_string_parts str m.m_parts

-- The loop of `lookup` by value.
unfoldable pub lookup_value_parts : ℤ → List MultiRange → Outcome DatatypeError ℤ
unfolding val_in_range
lookup_value_parts value [] = throw invalid
lookup_value_parts value (p ∷ ps) =
    if val_in_range value p then ok value else lookup_value_parts value ps

unfoldable pub lookup_value : ℤ → MultiDatatype → Outcome DatatypeError ℤ
unfolding lookup_value_parts
lookup_value value m = lookup_value_parts value m.m_parts

-- The loop of `add_range`, which keeps the parts in order.
unfoldable pub insert_range : MultiRange → List MultiRange → Outcome DatatypeError (List MultiRange)
insert_range r [] = ok (r ∷ [])
insert_range r (p ∷ ps) =
    let rest = insert_range r ps in
    if z_ltb p.high r.low
    then (rest >>= λ qs. ok (p ∷ qs))
    else if z_ltb r.high p.low
    then ok (r ∷ p ∷ ps)
    else throw invalid

unfoldable pub add_range : Datatype → ℤ → ℤ → MultiDatatype → Outcome DatatypeError MultiDatatype
unfolding insert_range
add_range datatype min max m =
    if z_ltb max min
    then throw invalid
    else insert_range (record { type = datatype; low = min; high = max }) m.m_parts >>= λ parts.
        ok (record { m_parts = parts })
