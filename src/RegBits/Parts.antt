-- ===== src/RegBits/Parts.antt =====
-- Sequences of ranges of registers that work as memory: what is written to them reads back.
use hwpp.Prelude.{ℕ, ◌+◌, ◌-◌, ◌<◌, ◌≡◌, ◌⊎◌, some, List, [], ◌∷◌, ok}
use hwpp.RegBits.{Register, RegBits, SubBits, nil, cons, init, read, write}
use hwpp.RegBits.Access.{IsCell}

-- The arguments of `init`.
pub record Range (S : Type 0) : Type 0 where
  pub m_reg : Register S
  pub m_hi_bit : ℕ
  pub m_lo_bit : ℕ

module _ {S : Type 0} where
  -- The parts are what `init` makes of the ranges, in order.
  unfoldable pub AreMade : List (Range S) → SubBits S → Type 0
  AreMade [] nil = Unit
  AreMade [] (cons b bs) = ⊥
  AreMade (r ∷ rs) nil = ⊥
  AreMade (r ∷ rs) (cons b bs) = (init (some r.m_reg) r.m_hi_bit r.m_lo_bit ≡ ok b) × AreMade rs bs

  unfoldable pub AllCells : List (Range S) → Type 0
  AllCells [] = Unit
  AllCells (r ∷ rs) = IsCell r.m_reg × AllCells rs

  -- A write to the one register leaves the other.
  abbrev pub Spares : Register S → Register S → Type 0
  Spares written other = (v : ℕ) (s : S) → other.read (written.write v s) ≡ other.read s

  -- Two ranges without common bits of one register, or ranges of two registers of which a write to
  -- the first leaves the second.
  abbrev pub Disjoint : Range S → Range S → Type 0
  Disjoint r q =
      ((r.m_reg ≡ q.m_reg) × ((r.m_hi_bit < q.m_lo_bit) ⊎ (q.m_hi_bit < r.m_lo_bit)))
      ⊎ Spares r.m_reg q.m_reg

  unfoldable pub DisjointFrom : Range S → List (Range S) → Type 0
  DisjointFrom r [] = Unit
  DisjointFrom r (q ∷ qs) = Disjoint r q × DisjointFrom r qs

  unfoldable pub AllDisjoint : List (Range S) → Type 0
  unfolding DisjointFrom
  AllDisjoint [] = Unit
  AllDisjoint (r ∷ rs) = DisjointFrom r rs × AllDisjoint rs

  -- The number of bits of the ranges.
  unfoldable pub total_bits : List (Range S) → ℕ
  total_bits [] = 0
  total_bits (r ∷ rs) = (r.m_hi_bit - r.m_lo_bit + 1) + total_bits rs
