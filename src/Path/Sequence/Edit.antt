-- ===== src/Path/Sequence/Edit.antt =====
-- Adding and removing the elements of a path.
use hwpp.Prelude.{
  suc, ◌≡◌, refl, sym, ap, ap₂, ◌∙◌, ◌↔◌, inl, inr, Bool, true, false, List, [], ◌∷◌, ◌++◌, map,
  append-nil, append_assoc, arith, eqb, bool_eqb, eqb_iff, Bool-cases, ==_iff, ==_refl, length,
  Bytes, bytes_eq, ok, and-true,
}
use hwpp.Path.Element.{Element}
use hwpp.Path.Element
use hwpp.Path.Sequence.{
  HwppPath, push_back, push_elements, push_back_path, pop_back, back, last, without_last,
  elements_equal, equals, size,
}

push_elements-append :
    (es : List Element) (p : HwppPath) → push_elements es p ≡ record p { m_list = p.m_list ++ es }
unfolding push_elements push_back
push_elements-append [] p = ap (λ es. record p { m_list = es }) (sym (append-nil p.m_list))
push_elements-append (e ∷ es) p =
    push_elements-append es (push_back e p)
    ∙ ap (λ xs. record p { m_list = xs }) (append_assoc p.m_list (e ∷ []) es)

-- `push_back` of another path puts its elements, in their order, behind those that are there, and
-- keeps whether the path is absolute.
push_back_path-append :
    (path p : HwppPath) → push_back_path path p ≡ record p { m_list = p.m_list ++ path.m_list }
unfolding push_back_path
push_back_path-append path p = push_elements-append path.m_list p

last-append_one : (e x : Element) (es : List Element) → last x (es ++ e ∷ []) ≡ e
unfolding last
last-append_one e x [] = refl
last-append_one e x (y ∷ es) = last-append_one e y es

without_last-append_one :
    (e x : Element) (es : List Element) → without_last x (es ++ e ∷ []) ≡ x ∷ es
unfolding without_last
without_last-append_one e x [] = refl
without_last-append_one e x (y ∷ es) = ap (◌∷◌ x) (without_last-append_one e y es)

pop_back-list :
    (e : Element) (es : List Element) (absolute : Bool)
    → pop_back (record { m_list = es ++ e ∷ []; m_absolute = absolute })
      ≡ ok (e, record { m_list = es; m_absolute = absolute })
unfolding pop_back back last without_last
pop_back-list e [] absolute = refl
pop_back-list e (x ∷ es) absolute = rw (last-append_one e x es, without_last-append_one e x es) refl

-- `pop_back` takes off the element that `push_back` put on, and gives it back.
pub pop_back-push_back : (e : Element) (p : HwppPath) → pop_back (push_back e p) ≡ ok (e, p)
unfolding push_back
pop_back-push_back e p = pop_back-list e p.m_list p.m_absolute

pub back-push_back : (e : Element) (p : HwppPath) → back (push_back e p) ≡ ok e
unfolding back push_back
back-push_back e p = go p.m_list
  where
    go : (es : List Element) → back (record p { m_list = es ++ e ∷ [] }) ≡ ok e
    go [] = refl
    go (x ∷ es) = ap ok (last-append_one e x es)

cons-inj : {x y : Bytes} {xs ys : List Bytes} → x ∷ xs ≡ y ∷ ys → (x ≡ y) × (xs ≡ ys)
cons-inj h = (cc, cc)

false≢true : ¬ (false ≡ true)
false≢true h = cc

elements_equal_iff :
    (es xs : List Element)
    → length es ≡ length xs
    → (elements_equal es xs ≡ true) ↔ (map Element.to_string es ≡ map Element.to_string xs)
unfolding elements_equal Element.equals
elements_equal_iff [] [] h = (λ _. refl, λ _. refl)
elements_equal_iff [] (x ∷ xs) h = absurd (omega (arith, h))
elements_equal_iff (e ∷ es) [] h = absurd (omega (arith, h))
elements_equal_iff (e ∷ es) (x ∷ xs) h =
    let rest = elements_equal_iff es xs (omega (arith, h)) in
    (
      (λ t.
          let (same, others) = and-true (Element.equals e x) (elements_equal es xs) t in
          ap₂ ◌∷◌ ((==_iff (Element.to_string e) (Element.to_string x)).0 same) (rest.0 others)),
      (λ t.
          let (same, others) = cons-inj t in
          rw (rest.1 others, same, ==_refl (Element.to_string x)) refl),
    )

bool_eqb_iff : (a b : Bool) → (bool_eqb a b ≡ true) ↔ (a ≡ b)
bool_eqb_iff true b = (λ h. sym h, λ h. sym h)
bool_eqb_iff false true = (λ h. cc, λ h. cc)
bool_eqb_iff false false = (λ h. refl, λ h. refl)

length-map : {A B : Type 0} (f : A → B) (xs : List A) → length (map f xs) ≡ length xs
length-map f [] = refl
length-map f (x ∷ xs) = ap suc (length-map f xs)

-- Two paths are equal exactly if both or neither are absolute and their elements print alike, one by
-- one.
equals_iff :
    (p other : HwppPath)
    → (equals p other ≡ true) ↔ (
        (p.m_absolute ≡ other.m_absolute)
        × (map Element.to_string p.m_list ≡ map Element.to_string other.m_list))
unfolding equals size
equals_iff p other = (forward, backward)
  where
    forward :
        equals p other ≡ true
        → (p.m_absolute ≡ other.m_absolute)
          × (map Element.to_string p.m_list ≡ map Element.to_string other.m_list)
    forward h = elim (Bool-cases (eqb (length p.m_list) (length other.m_list))) [
      | inl sizes ↦ elim (Bool-cases (bool_eqb p.m_absolute other.m_absolute)) [
        | inl kinds ↦ (
          (bool_eqb_iff p.m_absolute other.m_absolute).0 kinds,
          (elements_equal_iff p.m_list other.m_list ((eqb_iff _ _).0 sizes)).0
              (sym (rw (sizes, kinds) refl) ∙ h),
        )
        | inr kinds ↦ absurd (false≢true (sym (rw (sizes, kinds) refl) ∙ h))
      ]
      | inr sizes ↦ absurd (false≢true (sym (rw sizes refl) ∙ h))
    ]

    backward :
        (p.m_absolute ≡ other.m_absolute)
          × (map Element.to_string p.m_list ≡ map Element.to_string other.m_list)
        → equals p other ≡ true
    backward h =
        let sizes : length p.m_list ≡ length other.m_list =
          sym (length-map Element.to_string p.m_list)
          ∙ ap length h.1
          ∙ length-map Element.to_string other.m_list in
        rw
          (
            (eqb_iff (length p.m_list) (length other.m_list)).1 sizes,
            (bool_eqb_iff p.m_absolute other.m_absolute).1 h.0,
            (elements_equal_iff p.m_list other.m_list sizes).1 h.1,
          )
          refl
