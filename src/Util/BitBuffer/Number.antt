-- ===== src/Util/BitBuffer/Number.antt =====
-- Numbers and buffers: a number written to a buffer reads back.
use hwpp.Prelude.{
  ℕ, zero, suc, ◌+◌, ◌*◌, ◌/◌, ◌%◌, ◌^◌, ◌≤◌, ◌<◌, ◌≡◌, refl, sym, ap, ◌∙◌, inl, inr, some, [], ◌∷◌,
  ◌++◌, append-nil, append_assoc, arith, ltb, eqb, if◌then◌else◌, Bool-cases, length, get_elem?,
  set, take, replicate, length-set, length-replicate, get_elem?-lt, take-suc, take-length, Bytes,
  bytes_eq, ok, ◌>>=◌,
}
use native.Mathlib.Nat.{div-add-mod, mod-lt, mod-eq_of_lt, add-mod_right}
use hwpp.Util.BitBuffer.{
  BitBuffer, byte_at, byte_count, raw_buffer, count_bytes, store_bytes, to_bitbuffer, load_bytes,
  of_bitbuffer,
}
use hwpp.Util.BitBuffer.Fill.{reset-replicate}

-- The number whose bytes these are, the lowest first.
unfoldable pub le_value : Bytes → ℕ
le_value [] = 0
le_value (b ∷ bs) = b + 256 * le_value bs

-- The lowest bytes of a number, the lowest first.
unfoldable pub le_bytes : ℕ → ℕ → Bytes
le_bytes zero val = []
le_bytes (suc n) val = val % 256 ∷ le_bytes n (val / 256)

pub length-le_bytes : (n val : ℕ) → length (le_bytes n val) ≡ n
unfolding le_bytes
length-le_bytes zero val = refl
length-le_bytes (suc n) val = ap suc (length-le_bytes n (val / 256))

take-set-suc :
    (buf : Bytes) (i x : ℕ) → i < length buf → take (suc i) (set buf i x) ≡ take i buf ++ x ∷ []
take-set-suc [] i x h = absurd (omega (arith, h))
take-set-suc (y ∷ buf) zero x h = refl
take-set-suc (y ∷ buf) (suc i) x h = ap (◌∷◌ y) (take-set-suc buf i x (omega (arith, h)))

-- A place that an int counts is that place.
byte_at-small : (i : ℕ) (buf : Bytes) → i < length buf → length buf ≤ 2 ^ 31 → byte_at i buf ≡ ok i
unfolding byte_at
byte_at-small i buf inside short =
    let low : i % 2 ^ 32 ≡ i = mod-eq_of_lt (omega (arith, inside, short)) in
    ground (arith, low, inside, short)

store_bytes-le_bytes :
    (n i val : ℕ) (buf : Bytes)
    → length buf ≡ i + n
    → i + n ≤ 2 ^ 31
    → store_bytes n i val buf ≡ ok (take i buf ++ le_bytes n val)
unfolding store_bytes le_bytes
store_bytes-le_bytes zero i val buf len short =
    let at_end : i ≡ length buf = omega (arith, len) in rw (at_end, take-length, append-nil) refl
store_bytes-le_bytes (suc n) i val buf len short =
    let there = byte_at-small i buf (omega (arith, len)) (omega (arith, len, short)) in
    ap (λ o. o >>= λ place. store_bytes n (suc i) (val / 256) (set buf place (val % 256))) there
    ∙ store_bytes-le_bytes n (suc i) (val / 256) (set buf i (val % 256))
        (omega (arith, len, length-set buf i (val % 256))) (omega (arith, short))
    ∙ ap ok
        (rw (take-set-suc buf i (val % 256) (omega (arith, len))) (append_assoc (take i buf) _ _))

pow256-suc : (k : ℕ) → 256 ^ suc k ≡ 256 * 256 ^ k
pow256-suc k = omega arith

le_value-append_one :
    (bs : Bytes) (b : ℕ) → le_value (bs ++ b ∷ []) ≡ le_value bs + b * 256 ^ length bs
unfolding le_value
le_value-append_one [] b = omega arith
le_value-append_one (x ∷ bs) b = rw (le_value-append_one bs b, pow256-suc (length bs)) (omega arith)

load_bytes-suc :
    (k acc b : ℕ) (buf : Bytes)
    → get_elem? buf k ≡ some b
    → k < length buf
    → length buf ≤ 2 ^ 31
    → load_bytes (suc k) acc buf ≡ load_bytes k (acc * 256 + b) buf
unfolding load_bytes
load_bytes-suc k acc b buf here inside short =
    rw (byte_at-small k buf inside short) (ground (arith, here))

length-take : (k : ℕ) (buf : Bytes) → k ≤ length buf → length (take k buf) ≡ k
length-take zero buf h = refl
length-take (suc k) [] h = absurd (omega (arith, h))
length-take (suc k) (x ∷ buf) h = ap suc (length-take k buf (omega (arith, h)))

horner :
    (acc b low k : ℕ) → (acc * 256 + b) * 256 ^ k + low ≡ acc * 256 ^ suc k + (low + b * 256 ^ k)
horner acc b low k = rw (pow256-suc k) (omega arith)

pub load_bytes-le_value :
    (k acc : ℕ) (buf : Bytes)
    → k ≤ length buf
    → length buf ≤ 2 ^ 31
    → load_bytes k acc buf ≡ ok (acc * 256 ^ k + le_value (take k buf))
unfolding load_bytes le_value
load_bytes-le_value zero acc buf h short = ap ok (omega arith)
load_bytes-le_value (suc k) acc buf h short =
    let (b, here) = get_elem?-lt buf k (omega (arith, h)) in
    load_bytes-suc k acc b buf here (omega (arith, h)) short
    ∙ load_bytes-le_value k (acc * 256 + b) buf (omega (arith, h)) short
    ∙ ap ok (
        rw
          (
            take-suc buf k b here,
            le_value-append_one (take k buf) b,
            length-take k buf (omega (arith, h)),
          )
          (horner acc b (le_value (take k buf)) k))

-- The lowest bytes leave a multiple of a power of 256.
le_value-le_bytes :
    (n val : ℕ)
    → (q : ℕ) × (val ≡ le_value (le_bytes n val) + q * 256 ^ n)
      × (le_value (le_bytes n val) < 256 ^ n)
unfolding le_value le_bytes
le_value-le_bytes zero val = (val, omega arith, omega arith)
le_value-le_bytes (suc n) val =
    let (q, whole, low) = le_value-le_bytes n (val / 256) in
    (
      q,
      (rw (pow256-suc n) (omega (arith, whole, div-add-mod val 256))),
      grind (arith, low, mod-lt val {m = 256} (omega arith)),
    )

-- As many bytes as the code counts hold the number.
count_bytes-enough : (fuel val : ℕ) → val ≤ fuel → val < 256 ^ count_bytes fuel val
unfolding count_bytes
count_bytes-enough zero val h = omega (arith, h)
count_bytes-enough (suc fuel) val h =
    let smaller = count_bytes-enough fuel (val / 256) in
    elim (Bool-cases (eqb val 0)) [
      | inl none_left ↦ rw none_left (ground (arith, none_left))
      | inr more ↦ rw more (
          grind (
            arith,
            smaller (ground (arith, more, h)),
            div-add-mod val 256,
            mod-lt val {m = 256} (omega arith),
          ))
    ]

-- The number of bytes that `to_bitbuffer` gives a buffer.
unfoldable pub width_bytes : ℕ → ℕ → ℕ
unfolding count_bytes
width_bytes bits val = if ltb 0 bits then (bits + 7) % 2 ^ 64 / 8 else count_bytes val val

pub byte_count-mul : (n : ℕ) → n * 8 + 7 < 2 ^ 64 → byte_count (n * 8) ≡ n
unfolding byte_count
byte_count-mul n h = rw (mod-eq_of_lt h) (omega arith)

pub to_bitbuffer-le_bytes :
    (bits val : ℕ)
    → width_bytes bits val ≤ 2 ^ 31
    → to_bitbuffer bits val
      ≡ ok (record {
        m_data = le_bytes (width_bytes bits val) val;
        m_bits = width_bytes bits val * 8;
        m_bytes = width_bytes bits val;
      })
unfolding to_bitbuffer width_bytes
to_bitbuffer-le_bytes bits val h =
    let n = width_bytes bits val in
    rw (reset-replicate (n * 8) 0 raw_buffer, byte_count-mul n (omega (arith, h)))
      (ap (λ o. o >>= λ x. ok (record { m_data = x; m_bits = n * 8; m_bytes = n }))
        (store_bytes-le_bytes n 0 val (replicate n 0) (omega (arith, length-replicate n zero))
          (omega (arith, h))))

mod-multiple : (r q p : ℕ) → r < p → (r + q * p) % p ≡ r
mod-multiple r zero p h = ap (λ x. x % p) (plus_none r p) ∙ mod-eq_of_lt h
  where
    plus_none : (r p : ℕ) → r + 0 * p ≡ r
    plus_none r p = omega arith
mod-multiple r (suc q) p h =
    ap (λ x. x % p) (one_more r q p) ∙ add-mod_right (r + q * p) p ∙ mod-multiple r q p h
  where
    one_more : (r q p : ℕ) → r + suc q * p ≡ (r + q * p) + p
    one_more r q p = omega arith

le_value-mod : (n val : ℕ) → le_value (le_bytes n val) ≡ val % 256 ^ n
le_value-mod n val =
    let (q, whole, low) = le_value-le_bytes n val in
    sym (ap (λ x. x % 256 ^ n) whole ∙ mod-multiple (le_value (le_bytes n val)) q (256 ^ n) low)

pub take-le_bytes : (n val : ℕ) → take n (le_bytes n val) ≡ le_bytes n val
unfolding le_bytes
take-le_bytes zero val = refl
take-le_bytes (suc n) val = ap (◌∷◌ (val % 256)) (take-le_bytes n (val / 256))

cut_value : (n val : ℕ) → 0 * 256 ^ n + le_value (take n (le_bytes n val)) ≡ val % 256 ^ n
cut_value n val = rw (take-le_bytes n val) (omega (arith, le_value-mod n val))

-- A number, written to a buffer of a width, or of as many bytes as it needs if the width is 0, reads
-- back as the number cut to the bytes of the buffer, if the
-- buffer has at most 2^31 bytes, which an int counts.
pub of_bitbuffer-to_bitbuffer :
    (bits val : ℕ)
    → width_bytes bits val ≤ 2 ^ 31
    → (b : BitBuffer) × (to_bitbuffer bits val ≡ ok b)
      × (of_bitbuffer b ≡ ok (val % 256 ^ width_bytes bits val))
unfolding of_bitbuffer
of_bitbuffer-to_bitbuffer bits val h =
    let n = width_bytes bits val in
    (
      _,
      to_bitbuffer-le_bytes bits val h,
      load_bytes-le_value n 0 (le_bytes n val) (omega (arith, length-le_bytes n val))
            (omega (arith, length-le_bytes n val, h))
          ∙ ap ok (cut_value n val),
    )

-- A number, written to a buffer with as many bytes as the code counts for it, reads back unchanged.
pub of_bitbuffer-to_bitbuffer_whole :
    (val : ℕ)
    → count_bytes val val ≤ 2 ^ 31
    → (b : BitBuffer) × (to_bitbuffer 0 val ≡ ok b) × (of_bitbuffer b ≡ ok val)
unfolding width_bytes count_bytes
of_bitbuffer-to_bitbuffer_whole val h =
    let (b, written, back) = of_bitbuffer-to_bitbuffer 0 val h in
    (b, written, back ∙ ap ok (mod-eq_of_lt (count_bytes-enough val val (omega arith))))
