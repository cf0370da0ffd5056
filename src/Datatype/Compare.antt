-- ===== src/Datatype/Compare.antt =====
-- The default comparison of datatype.h.
use hwpp.Prelude.{
  ◌≡◌, refl, ap, if◌then◌else◌, Bytes, bytes_eq, Outcome, ok, throw, undefined, ◌>>=◌,
}
use hwpp.Prelude.Int.{ℤ, pos, negsuc, ◌-ℤ◌, z_ltb, sub-sign, sub-sign_up}
use hwpp.Datatype.{DatatypeError, Datatype, sign_of, compare_string, compare_value}

-- -1, 0 or 1, by the order of two integers.
abbrev pub order : ℤ → ℤ → ℤ
order a b = if z_ltb a b then negsuc 0 else if z_ltb b a then pos 1 else pos 0

sign_of-sub : (a b : ℤ) → sign_of (a -ℤ b) ≡ order a b
unfolding sign_of
sign_of-sub a b = rw (sub-sign a b, sub-sign_up a b) refl

-- `compare` by string and by value answer -1, 0 or 1 by the order of the value and of what the
-- argument is looked up as, and pass on what the lookup throws.
compare-order :
    (d : Datatype) (lhs : ℤ) (str : Bytes) (rhs : ℤ)
    → (compare_string d lhs str ≡ (d.lookup_string str >>= λ v. ok (order lhs v)))
      × (compare_value d lhs rhs ≡ (d.lookup_value rhs >>= λ v. ok (order lhs v)))
unfolding compare_string compare_value
compare-order d lhs str rhs = (chain (d.lookup_string str), chain (d.lookup_value rhs))
  where
    chain :
        (o : Outcome DatatypeError ℤ)
        → (o >>= λ v. ok (sign_of (lhs -ℤ v))) ≡ (o >>= λ v. ok (order lhs v))
    chain (ok v) = ap ok (sign_of-sub lhs v)
    chain (throw e) = refl
    chain undefined = refl
