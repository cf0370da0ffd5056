-- ===== src/Prelude/Results.antt =====
-- What a C++ operation does: it returns, throws, or its behaviour is undefined.
use hwpp.Prelude.Lists.{length, get_elem?}
use mathlib.Core.Path.{◌≡◌, refl, ap}
use mathlib.Core.Logic.{◌⊎◌, inl, inr}
use mathlib.Core.List.{List, [], ◌∷◌}
use mathlib.Core.Option.{Option, none, some}
use mathlib.Core.Bool.{Bool, true, false}
use hwpp.Prelude.Tests.{if◌then◌else◌}
use Prim.Native.Nat.{ℕ, zero, suc, ◌<◌}
use native.Mathlib.Omega.{arith}

pub data Outcome (E A : Type 0) : Type 0 where
  ok : A → Outcome E A
  throw : E → Outcome E A
  undefined : Outcome E A

infixl 5 ◌>>=◌ ◌>>◌
abbrev pub ◌>>=◌ : {E A B : Type 0} → Outcome E A → (A → Outcome E B) → Outcome E B
ok a >>= f = f a
throw e >>= f = throw e
undefined >>= f = undefined

abbrev pub ◌>>◌ : {E B : Type 0} → Outcome E (Unit {0}) → Outcome E B → Outcome E B
m >> k = m >>= λ _. k

-- `v[i]` of a std::vector, which checks nothing.
abbrev pub raw : {E A : Type 0} → List A → ℕ → Outcome E A
raw xs i = elim (get_elem? xs i) [ none ↦ undefined | some x ↦ ok x ]

-- An index that can be read is inside.
pub raw-lt :
    {E A : Type 0} (xs : List A) (i : ℕ) {x : A}
    → ◌≡◌ {A = Outcome E A} (raw xs i) (ok x)
    → i < length xs
raw-lt [] i h = cc
raw-lt (x ∷ xs) zero h = omega arith
raw-lt (x ∷ xs) (suc i) h = omega (arith, raw-lt xs i h)

-- Inversion of a chain that returned.
pub >>=-eq-ok :
    {E A B : Type 0} (first : Outcome E A) (next : A → Outcome E B) {b : B}
    → first >>= next ≡ ok b
    → (got : A) × (first ≡ ok got) × (next got ≡ ok b)
>>=-eq-ok (ok got) next returned = (got, refl, returned)
>>=-eq-ok (throw e) next returned = cc
>>=-eq-ok undefined next returned = cc

pub ok-inj : {E A : Type 0} {a b : A} → ◌≡◌ {A = Outcome E A} (ok a) (ok b) → a ≡ b
ok-inj h = cc

-- Inversion of a search that returned something.
pub found-inversion :
    {E A C : Type 0} (o : Option A) (next : A → Outcome E (Option C)) {c : C}
    → elim o [ none ↦ ok none | some a ↦ next a ] ≡ ok (some c)
    → (a : A) × (o ≡ some a) × (next a ≡ ok (some c))
found-inversion none next h = cc
found-inversion (some a) next h = (a, refl, h)

pub found-if :
    {E C : Type 0} (test : Bool) (x : Outcome E (Option C)) {c : C}
    → (if test then x else ok none) ≡ ok (some c)
    → (test ≡ true) × (x ≡ ok (some c))
found-if true x h = (refl, h)
found-if false x h = cc

pub raw-get :
    {E A : Type 0} (xs : List A) (i : ℕ) {x : A}
    → ◌≡◌ {A = Outcome E A} (raw xs i) (ok x)
    → get_elem? xs i ≡ some x
raw-get {E} {A} xs i {x} = go (get_elem? xs i)
  where
    go :
        (o : Option A)
        → ◌≡◌ {A = Outcome E A} (elim o [ none ↦ undefined | some y ↦ ok y ]) (ok x)
        → o ≡ some x
    go none h = cc
    go (some y) h = cc

-- Two searches that returned the same.
pub found-inj :
    {E A C : Type 0} {a x : A} {c y : C}
    → ◌≡◌ {A = Outcome E (Option (A × C))} (ok (some (a, c))) (ok (some (x, y)))
    → (a ≡ x) × (c ≡ y)
found-inj h = (cc, cc)

pub if-cases :
    {A : Type 0} (test : Bool) {x y z : A}
    → (if test then x else y) ≡ z
    → ((test ≡ true) × (x ≡ z)) ⊎ ((test ≡ false) × (y ≡ z))
if-cases true h = inl (refl, h)
if-cases false h = inr (refl, h)

-- A chain and a search whose first part is known.
pub >>=-ok :
    {E A B : Type 0} (first : Outcome E A) (next : A → Outcome E B) {a : A}
    → first ≡ ok a
    → first >>= next ≡ next a
>>=-ok first next h = ap (λ o. o >>= next) h

pub found-some :
    {E A C : Type 0} (o : Option A) (next : A → Outcome E (Option C)) {a : A}
    → o ≡ some a
    → elim o [ none ↦ ok none | some x ↦ next x ] ≡ next a
found-some none next h = cc
found-some (some x) next h = ap next (cc)

pub if-false : {A : Type 0} (test : Bool) (x y : A) → test ≡ false → (if test then x else y) ≡ y
if-false true x y h = cc
if-false false x y h = refl

pub >>=-throw :
    {E A B : Type 0} (first : Outcome E A) (next : A → Outcome E B) {e : E}
    → first ≡ throw e
    → first >>= next ≡ throw e
>>=-throw first next h = ap (λ o. o >>= next) h

-- An operation that does not throw an exception, and so does not a chain of such operations.
abbrev pub Avoids : {E A : Type 0} → E → Outcome E A → Type 0
Avoids {E} {A} e o = ¬ (◌≡◌ {A = Outcome E A} o (throw e))

pub >>=-Avoids :
    {E A B : Type 0} (e : E) (first : Outcome E A) (next : A → Outcome E B)
    → Avoids e first
    → ((a : A) → first ≡ ok a → Avoids e (next a))
    → Avoids e (first >>= next)
>>=-Avoids e (ok a) next h k = k a refl
>>=-Avoids e (throw x) next h k = λ same. h cc
>>=-Avoids e undefined next h k = λ same. h cc

pub if-Avoids :
    {E A : Type 0} (e : E) (test : Bool) (x y : Outcome E A)
    → (test ≡ true → Avoids e x)
    → (test ≡ false → Avoids e y)
    → Avoids e (if test then x else y)
if-Avoids e true x y h k = h refl
if-Avoids e false x y h k = k refl

pub found-Avoids :
    {E A C : Type 0} (e : E) (o : Option A) (next : A → Outcome E (Option C))
    → ((a : A) → o ≡ some a → Avoids e (next a))
    → Avoids e (elim o [ none ↦ ok none | some a ↦ next a ])
found-Avoids e none next h = λ same. cc
found-Avoids e (some a) next h = h a refl

pub ok-Avoids : {E A : Type 0} (e : E) (a : A) → Avoids e (ok a)
ok-Avoids e a = λ same. cc

pub raw-Avoids : {E A : Type 0} (e : E) (xs : List A) (i : ℕ) → Avoids e (raw xs i)
raw-Avoids {E} {A} e xs i = go (get_elem? xs i)
  where
    go : (o : Option A) → Avoids e (elim o [ none ↦ undefined | some x ↦ ok x ])
    go none = λ same. cc
    go (some x) = λ same. cc
