-- ===== src/Path/Sequence/Text.antt =====
-- Printing a path and reading it back. What Boost promises of `trim_copy` and `split` is a record of
-- hypotheses.
use hwpp.Prelude.{
  ℕ, suc, ◌≡◌, refl, sym, ap, ◌∙◌, Bool, true, false, not, ◌&&◌, List, [], ◌∷◌, ◌++◌, map,
  append-nil, append_assoc, arith, leb, eqb, length, length-append, Bytes, bytes_eqb, bytes_eq, ok,
}
use hwpp.Path.Element.{Element, InvalidError, invalid, parse, run, initial}
use hwpp.Path.Element
use hwpp.Path.Sequence.{
  HwppPath, push_back, elements_to_string, to_string, push_parts, starts_blank, append, of_string,
  empty_path,
}

-- No character of the string is a `/` or white space.
abbrev pub is_plain_char : ℕ → Bool
is_plain_char c = not (eqb c b'/') && not (eqb c b' ') && not (leb 9 c && leb c 13)

abbrev pub is_plain : Bytes → Bool
is_plain [] = true
is_plain (c ∷ cs) = is_plain_char c && is_plain cs

-- No character of the string is white space.
abbrev pub is_dense : Bytes → Bool
is_dense [] = true
is_dense (c ∷ cs) = not (eqb c b' ') && not (leb 9 c && leb c 13) && is_dense cs

abbrev pub starts_with_slash : Bytes → Bool
starts_with_slash [] = false
starts_with_slash (c ∷ cs) = eqb c b'/'

-- `trim_copy` takes white space off the ends only; `split` at `/` cuts a string at each run of
-- slashes.
pub record BoostLaws (trim_copy : Bytes → Bytes) (split : Bytes → List Bytes) : Type 0 where
  pub trim_dense : (s : Bytes) → is_dense s ≡ true → trim_copy s ≡ s
  pub split_plain : (s : Bytes) → is_plain s ≡ true → split s ≡ s ∷ []
  pub split_slash :
      (s rest : Bytes)
      → is_plain s ≡ true
      → starts_with_slash rest ≡ false
      → split (s ++ b'/' ∷ rest) ≡ s ∷ split rest

-- The elements print without slashes and white space, and parse back.
abbrev pub AllParseBack : List Element → Type 0
AllParseBack [] = Unit
AllParseBack (e ∷ es) =
    (is_plain (Element.to_string e) ≡ true) × (parse (Element.to_string e) ≡ ok e) × AllParseBack es

-- The empty string is no element.
parse-nonempty : (s : Bytes) (e : Element) → parse s ≡ ok e → eqb (length s) 0 ≡ false
unfolding parse run bytes_eqb
parse-nonempty [] e h = cc
parse-nonempty (c ∷ s) e h = ground arith

eqb-suc : (n : ℕ) → eqb (suc n) 0 ≡ false
eqb-suc n = ground arith

plain-no_slash :
    (s rest : Bytes)
    → is_plain s ≡ true
    → eqb (length s) 0 ≡ false
    → starts_with_slash (s ++ rest) ≡ false
plain-no_slash [] rest h n = cc
plain-no_slash (c ∷ s) rest h n = ground (arith, h)

plain-dense : (s : Bytes) → is_plain s ≡ true → is_dense s ≡ true
plain-dense [] h = refl
plain-dense (c ∷ s) h = ground (arith, h, plain-dense s)

dense-append : (s t : Bytes) → is_dense s ≡ true → is_dense t ≡ true → is_dense (s ++ t) ≡ true
dense-append [] t hs ht = ht
dense-append (c ∷ s) t hs ht = ground (arith, hs, ht, dense-append s t)

elements-dense : (es : List Element) → AllParseBack es → is_dense (elements_to_string es) ≡ true
unfolding elements_to_string
elements-dense [] h = refl
elements-dense (e ∷ []) h = plain-dense (Element.to_string e) h.0
elements-dense (e ∷ x ∷ es) h =
    dense-append (Element.to_string e) _ (plain-dense (Element.to_string e) h.0)
      (elements-dense (x ∷ es) h.2)

elements-no_slash :
    (e : Element) (es : List Element)
    → AllParseBack (e ∷ es)
    → starts_with_slash (elements_to_string (e ∷ es)) ≡ false
unfolding elements_to_string
elements-no_slash e [] h =
    sym (ap starts_with_slash (append-nil (Element.to_string e)))
    ∙ plain-no_slash (Element.to_string e) [] h.0 (parse-nonempty (Element.to_string e) e h.1)
elements-no_slash e (x ∷ es) h =
    plain-no_slash (Element.to_string e) _ h.0 (parse-nonempty (Element.to_string e) e h.1)

push_parts-AllParseBack :
    (es : List Element) (p : HwppPath)
    → AllParseBack es
    → push_parts (map Element.to_string es) p ≡ ok (record p { m_list = p.m_list ++ es })
unfolding push_parts push_back
push_parts-AllParseBack [] p h =
    ap (λ xs. ok (record p { m_list = xs })) (sym (append-nil p.m_list))
push_parts-AllParseBack (e ∷ es) p h =
    rw (parse-nonempty (Element.to_string e) e h.1, h.1)
      (push_parts-AllParseBack es (push_back e p) h.2
        ∙ ap (λ xs. ok (record p { m_list = xs })) (append_assoc p.m_list (e ∷ []) es))

module _ (trim_copy : Bytes → Bytes) (split : Bytes → List Bytes)
    (laws : BoostLaws trim_copy split) where
  split-elements :
      (e : Element) (es : List Element)
      → AllParseBack (e ∷ es)
      → split (elements_to_string (e ∷ es)) ≡ map Element.to_string (e ∷ es)
  unfolding elements_to_string
  split-elements e [] h = laws.split_plain (Element.to_string e) h.0
  split-elements e (x ∷ es) h =
      laws.split_slash (Element.to_string e) (elements_to_string (x ∷ es)) h.0
        (elements-no_slash x es h.2)
      ∙ ap (◌∷◌ (Element.to_string e)) (split-elements x es h.2)

  elements-nonempty :
      (e : Element) (es : List Element)
      → AllParseBack (e ∷ es)
      → eqb (length (elements_to_string (e ∷ es))) 0 ≡ false
  unfolding elements_to_string
  elements-nonempty e [] h = parse-nonempty (Element.to_string e) e h.1
  elements-nonempty e (x ∷ es) h =
      ground (arith, length-append (Element.to_string e) (b'/' ∷ elements_to_string (x ∷ es)))

  of_string-list :
      (es : List Element) (absolute : Bool)
      → AllParseBack es
      → of_string trim_copy split (to_string (record { m_list = es; m_absolute = absolute }))
        ≡ ok (record { m_list = es; m_absolute = absolute })
  unfolding of_string append empty_path push_back to_string elements_to_string push_parts
      starts_blank
  of_string-list [] false h = rw (laws.trim_dense [] refl) refl
  of_string-list [] true h =
      rw
        (
          laws.trim_dense (b'/' ∷ []) refl,
          laws.split_slash [] [] refl refl,
          laws.split_plain [] refl,
        )
        refl
  of_string-list (e ∷ es) false h =
      rw
        (
          laws.trim_dense (elements_to_string (e ∷ es)) (elements-dense (e ∷ es) h),
          elements-nonempty e es h,
          split-elements e es h,
          parse-nonempty (Element.to_string e) e h.1,
          h.1,
        )
        (push_parts-AllParseBack es (push_back e empty_path) h.2)
  of_string-list (e ∷ es) true h =
      rw
        (
          laws.trim_dense (b'/' ∷ elements_to_string (e ∷ es)) (elements-dense (e ∷ es) h),
          laws.split_slash [] (elements_to_string (e ∷ es)) refl (elements-no_slash e es h),
          split-elements e es h,
          eqb-suc (length (elements_to_string (e ∷ es))),
        )
        (push_parts-AllParseBack (e ∷ es) (record { m_list = []; m_absolute = true }) h)

  -- With Boost as documented, a path, absolute or not, whose elements print without slashes and
  -- white space and parse back, prints to a string that reads back as the same path.
  pub of_string-to_string :
      (p : HwppPath) → AllParseBack p.m_list → of_string trim_copy split (to_string p) ≡ ok p
  of_string-to_string p h = of_string-list p.m_list p.m_absolute h
