-- ===== src/RegBits/Joined.antt =====
-- Sequences of parts: widths add up, and the parts stand one above the other.
use hwpp.Prelude.{ℕ, ◌+◌, ◌*◌, ◌/◌, ◌%◌, ◌^◌, ◌<◌, bit_and, bit_or, ◌≡◌, refl, sym, ap, ◌∙◌, arith}
use hwpp.Prelude.Bits.{zero-bit_or}
use hwpp.RegBits.{
  RegBits, simple, complex, SubBits, nil, cons, push_back, join, width, width_subs, read, read_subs,
  write, write_subs,
}
use hwpp.RegBits.Field.{or_above, pow-add, digit_lt, div-pow-add, mod-pow-add}

module _ {S : Type 0} (popcount : ℕ → ℕ) where
  -- No part reads more than its width.
  abbrev pub Fits : RegBits S → Type 0
  Fits b = (s : S) → read popcount b s < 2 ^ width popcount b

  abbrev pub AllFit : SubBits S → Type 0
  AllFit nil = Unit
  AllFit (cons b bs) = Fits b × AllFit bs

  -- What has been read before stands above the parts to come.
  read_subs-above :
      (bs : SubBits S) (result : ℕ) (s : S)
      → AllFit bs
      → read_subs popcount bs result s
        ≡ result * 2 ^ width_subs popcount bs + read_subs popcount bs 0 s
  unfolding read width
  read_subs-above nil result s h = omega arith
  read_subs-above (cons b bs) result s h =
      rw
        (
          or_above result (width popcount b) (read popcount b s) (h.0 s),
          or_above 0 (width popcount b) (read popcount b s) (h.0 s),
          read_subs-above bs (result * 2 ^ width popcount b + read popcount b s) s h.1,
          read_subs-above bs (0 * 2 ^ width popcount b + read popcount b s) s h.1,
          pow-add (width popcount b) (width_subs popcount bs),
        )
        (grind arith)

  read_subs-cons :
      (b : RegBits S) (bs : SubBits S) (s : S)
      → AllFit (cons b bs)
      → read_subs popcount (cons b bs) 0 s
        ≡ read popcount b s * 2 ^ width_subs popcount bs + read_subs popcount bs 0 s
  unfolding read
  read_subs-cons b bs s h =
      rw
        (
          or_above 0 (width popcount b) (read popcount b s) (h.0 s),
          read_subs-above bs (0 * 2 ^ width popcount b + read popcount b s) s h.1,
        )
        (ap (λ (t : ℕ). t * 2 ^ width_subs popcount bs + read_subs popcount bs 0 s) (omega arith))

  read_subs-lt :
      (bs : SubBits S) (s : S) → AllFit bs → read_subs popcount bs 0 s < 2 ^ width_subs popcount bs
  unfolding read width
  read_subs-lt nil s h = omega arith
  read_subs-lt (cons b bs) s h =
      rw (read_subs-cons b bs s h, pow-add (width popcount b) (width_subs popcount bs))
        (digit_lt _ (2 ^ width_subs popcount bs) _ (2 ^ width popcount b) (h.0 s)
          (read_subs-lt bs s h.1))

  -- A sequence of parts none of which reads more than its width does not either.
  pub complex-Fits : (bs : SubBits S) → AllFit bs → Fits (complex bs)
  unfolding read width
  complex-Fits bs h s = read_subs-lt bs s h

  read_subs-push_back :
      (bs : SubBits S) (that : RegBits S) (result : ℕ) (s : S)
      → read_subs popcount (push_back bs that) result s
        ≡ bit_or (read_subs popcount bs result s * 2 ^ width popcount that) (read popcount that s)
  unfolding read push_back
  read_subs-push_back nil that result s = refl
  read_subs-push_back (cons b bs) that result s =
      read_subs-push_back bs that (bit_or (result * 2 ^ width popcount b) (read popcount b s)) s

  width_subs-push_back :
      (bs : SubBits S) (that : RegBits S)
      → width_subs popcount (push_back bs that) ≡ width_subs popcount bs + width popcount that
  unfolding width push_back
  width_subs-push_back nil that = omega arith
  width_subs-push_back (cons b bs) that = omega (arith, width_subs-push_back bs that)

  -- `A + B` reads `(A << B.width()) | B`, and as the right part does not read more than its width,
  -- that is `A` above `B`; the widths add up.
  read-join :
      (a b : RegBits S)
      → Fits b
      → (s : S)
      → (read popcount (join a b) s ≡ read popcount a s * 2 ^ width popcount b + read popcount b s)
        × (width popcount (join a b) ≡ width popcount a + width popcount b)
  unfolding join read width
  read-join (simple reg lo hi m) b h s = (
    or_above _ (width popcount b) (read popcount b s) (h s)
        ∙ ap (λ (t : ℕ). t * 2 ^ width popcount b + read popcount b s)
            (ap (λ (t : ℕ). bit_or t (bit_and (reg.read s / 2 ^ lo) m)) nothing
              ∙ zero-bit_or (bit_and (reg.read s / 2 ^ lo) m)),
    omega arith,
  )
    where
      nothing : 0 * 2 ^ popcount m ≡ 0
      nothing = omega arith
  read-join (complex bs) b h s = (
    read_subs-push_back bs b 0 s ∙ or_above _ (width popcount b) (read popcount b s) (h s),
    width_subs-push_back bs b,
  )

  -- Each part reads back what is written to it, and a write to a part leaves those to its right.
  abbrev pub AreApart : SubBits S → Type 0
  AreApart nil = Unit
  AreApart (cons b bs) =
      ((v : ℕ) (s : S) → read popcount b (write popcount b v s) ≡ v % 2 ^ width popcount b)
      × ((v : ℕ) (s : S)
          → read_subs popcount bs 0 (write popcount b v s) ≡ read_subs popcount bs 0 s)
      × AreApart bs

  -- What is left of the value after a part is written is shifted by the widths written so far.
  write_subs-rest :
      (bs : SubBits S) (v : ℕ) (s : S)
      → (write_subs popcount bs v s).0 ≡ v / 2 ^ width_subs popcount bs
  unfolding write width
  write_subs-rest nil v s = omega arith
  write_subs-rest (cons b bs) v s =
      ap (λ (t : ℕ). t / 2 ^ width popcount b) (write_subs-rest bs v s)
      ∙ sym (div-pow-add v (width_subs popcount bs) (width popcount b))
      ∙ ap (λ (n : ℕ). v / 2 ^ n) (omega arith)

  -- A sequence of parts that stand apart reads back what was written to it, cut to its width.
  pub read-write_subs :
      (bs : SubBits S) (v : ℕ) (s : S)
      → AllFit bs
      → AreApart bs
      → read_subs popcount bs 0 (write_subs popcount bs v s).1 ≡ v % 2 ^ width_subs popcount bs
  unfolding read write width
  read-write_subs nil v s f a = omega arith
  read-write_subs (cons b bs) v s f a =
      read_subs-cons b bs (write popcount b rest after) f
      ∙ rw (a.0 rest after, a.1 rest after, read-write_subs bs v s f.1 a.2, write_subs-rest bs v s)
          (sym (mod-pow-add v (width popcount b) (width_subs popcount bs)))
    where
      rest : ℕ
      rest = (write_subs popcount bs v s).0

      after : S
      after = (write_subs popcount bs v s).1
