-- ===== src/Field/Shown.antt =====
-- What a field shows of a value that was written to it.
use hwpp.Prelude.{ℕ, ◌^◌, ◌<◌, ◌≡◌, ap, ◌∙◌, some, get_elem?, Bytes, bytes_eq, ok}
use hwpp.Prelude.Int.{pos}
use native.Mathlib.Nat.{mod-eq_of_lt}
use hwpp.RegBits.{Register, RegBits, init, width}
use hwpp.RegBits.Access.{IsPopcount, IsCell, read-write}
use hwpp.Util.KeyedVector.Invariant.{IsSync}
use hwpp.Util.KeyedVector.Refines.{entries}
use hwpp.Datatype.{Datatype}
use hwpp.Datatype.Enum
use hwpp.Datatype.Enum.{EnumDatatype}
use hwpp.Datatype.Enum.RoundTrip.{evaluate-lookup_string}
use hwpp.Field.{direct_field, write, evaluate, lookup_string}

-- An enumeration as a datatype.
abbrev pub of_enum : EnumDatatype → Datatype
of_enum e = record {
  evaluate = λ v. Enum.evaluate v e;
  lookup_string = λ s. Enum.lookup_string s e;
  lookup_value = λ v. Enum.lookup_value v e;
}

-- Written to a field of an enumeration over a bit range of a memory-like register, a value of the
-- enumeration that fits the range is shown by a name that the field looks up to the value.
pub evaluate-write :
    {S : Type 0} (popcount : ℕ → ℕ)
    → IsPopcount popcount
    → (reg : Register S) → IsCell reg
    → (hi lo : ℕ) (b : RegBits S) → init (some reg) hi lo ≡ ok b
    → (e : EnumDatatype) (k value : ℕ) (name : Bytes) → IsSync e.m_values
    → get_elem? (entries e.m_values) k ≡ some (name, pos value)
    → value < 2 ^ width popcount b
    → (s : S)
    → (str : Bytes) × (evaluate popcount
          (direct_field (of_enum e) b)
          (write popcount (direct_field (of_enum e) b) value s)
        ≡ ok str)
      × (lookup_string (direct_field (of_enum e) b) str ≡ ok (pos value))
unfolding evaluate write lookup_string
evaluate-write popcount p reg cell hi lo b made e k value name sync here fits s =
    let back = read-write popcount p reg cell hi lo b made value s ∙ mod-eq_of_lt fits in
    let (str, shown, looked, valid) = evaluate-lookup_string (pos value) e k name sync here in
    (str, ap (λ v. Enum.evaluate (pos v) e) back ∙ shown, looked)
