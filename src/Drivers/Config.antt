-- ===== src/Drivers/Config.antt =====
-- Reading the configuration space of a device whose file behaves like a regular file.
use hwpp.Prelude.{
  ℕ, zero, suc, ◌+◌, ◌-◌, ◌*◌, ◌/◌, ◌^◌, ◌≤◌, ◌≡◌, refl, sym, ap, ◌∙◌, inl, inr, true, false, some,
  [], ◌∷◌, ◌++◌, arith, leb, eqb, Bool-cases, length, take, drop, replicate, length-append,
  length-replicate, take-length, Bytes, bytes_eq, ok, >>=-ok,
}
use hwpp.Prelude.Int.{pos}
use hwpp.Util.BitBuffer.{raw_buffer, reset, memcpy, of_bitbuffer, load_bytes, byte_count}
use hwpp.Util.BitBuffer.Fill.{reset-replicate}
use hwpp.Util.BitBuffer.Number.{le_value, load_bytes-le_value}
use hwpp.Util.File.{
  Kernel, File, seek_set, seek_cur, checked, read_file, seek, tell, file_size, is_eof,
}
use hwpp.Drivers.{as_uint}
use hwpp.Drivers.Bindings.{PciAddress, pci_check}
use hwpp.Drivers.Checks.{IsSupported, pci_check_iff}
use hwpp.Drivers.PciIo.{from_file, from_buffer, allow_eof, pci_read}

-- What POSIX says of lseek, read and fstat on a regular file: seeking sets the offset, a read gets the
-- bytes from the offset on, as many as there are and as were asked for, and moves the offset past them.
pub record IsRegularFile {W : Type 0} (kernel : Kernel W) (fd : ℕ) (contents : W → Bytes)
    (offset : W → ℕ) : Type 0 where
  pub seek_to :
      (n : ℕ) (w : W)
      → (w' : W) × (kernel.sys_lseek fd n seek_set w ≡ (some n, w'))
        × (contents w' ≡ contents w)
        × (offset w' ≡ n)
  pub told : (w : W) → kernel.sys_lseek fd 0 seek_cur w ≡ (some (offset w), w)
  pub sized : (w : W) → kernel.sys_fstat_size fd w ≡ (some (length (contents w)), w)
  pub read_from :
      (n : ℕ) (w : W)
      → (w' : W) × (kernel.sys_read fd n w ≡ (some (take n (drop (offset w) (contents w))), w'))
        × (contents w' ≡ contents w)
        × (offset w' ≡ offset w + length (take n (drop (offset w) (contents w))))

length-drop : (n : ℕ) (xs : Bytes) → length (drop n xs) ≡ length xs - n
length-drop zero xs = omega arith
length-drop (suc n) [] = omega arith
length-drop (suc n) (x ∷ xs) = omega (arith, length-drop n xs)

length-take_le : (n : ℕ) (xs : Bytes) → length (take n xs) ≤ n
length-take_le zero xs = omega arith
length-take_le (suc n) [] = omega arith
length-take_le (suc n) (x ∷ xs) = omega (arith, length-take_le n xs)

-- A read is short only at the end.
short-end :
    (n : ℕ) (xs : Bytes) → eqb (length (take n xs)) n ≡ false → length (take n xs) ≡ length xs
short-end zero xs h = absurd (true≢false h)
  where
    true≢false : ¬ (true ≡ false)
    true≢false e = cc
short-end (suc n) [] h = refl
short-end (suc n) (x ∷ xs) h = ap suc (short-end n xs (ground (arith, h)))

pub drop-replicate : (k n : ℕ) (x : ℕ) → drop k (replicate n x) ≡ replicate (n - k) x
drop-replicate zero n x = let same : n ≡ n - 0 = omega arith in ap (λ m. replicate m x) same
drop-replicate (suc k) zero x =
    let same : 0 ≡ 0 - suc k = omega arith in ap (λ m. replicate m x) same
drop-replicate (suc k) (suc n) x =
    let same : n - k ≡ suc n - suc k = omega arith in
    drop-replicate k n x ∙ ap (λ m. replicate m x) same

-- Bytes with 0xff behind them, up to a length.
abbrev pub padded : ℕ → Bytes → Bytes
padded n got = got ++ replicate (n - length got) 255

memcpy-padded : (n : ℕ) (got : Bytes) → memcpy (length got) got (replicate n 255) ≡ padded n got
unfolding memcpy
memcpy-padded n got = rw (take-length got, drop-replicate (length got) n 255) refl

length-padded : (n : ℕ) (got : Bytes) → length got ≤ n → length (padded n got) ≡ n
length-padded n got h = omega (
  arith,
  length-append got (replicate (n - length got) 255),
  length-replicate {A = ℕ} (n - length got) 255,
)

pub take-all : (n : ℕ) (xs : Bytes) → length xs ≡ n → take n xs ≡ xs
take-all n xs h = rw (← h) (take-length xs)

of_bitbuffer-padded :
    (n bits : ℕ) (got : Bytes)
    → length got ≤ n
    → n ≤ 2 ^ 31
    → of_bitbuffer
        (record { m_data = memcpy (length got) got (replicate n 255); m_bits = bits; m_bytes = n })
      ≡ ok (le_value (padded n got))
unfolding of_bitbuffer
of_bitbuffer-padded n bits got h short =
    let whole = length-padded n got h in
    ap (load_bytes n 0) (memcpy-padded n got)
    ∙ load_bytes-le_value n 0 (padded n got) (omega (arith, whole)) (omega (arith, whole, short))
    ∙ ap ok (ap (λ xs. 0 * 256 ^ n + le_value xs) (take-all n (padded n got) whole) ∙ omega arith)

as_uint-exact : (a n : ℕ) → pos a ≡ pos n → n ≤ 4096 → as_uint (pos a) ≡ a
unfolding as_uint
as_uint-exact a n same small = let e : a ≡ n = pos-inj same in omega (arith, e, small)
  where
    pos-inj : {a b : ℕ} → pos a ≡ pos b → a ≡ b
    pos-inj e = cc

byte_count-supported : (width : ℕ) → IsSupported width → byte_count width ≡ width / 8
unfolding byte_count
byte_count-supported width s = ground (arith, s)

-- The buffer that `read` fills.
buffer-filled :
    (width : ℕ)
    → IsSupported width
    → from_buffer (reset width 255 raw_buffer)
      ≡ ok (record { m_data = replicate (width / 8) 255; m_bits = width; m_bytes = width / 8 })
buffer-filled width s =
    ap from_buffer (reset-replicate width 255 raw_buffer)
    ∙ ap (λ n. ok (record { m_data = replicate n 255; m_bits = width; m_bytes = n }))
        (byte_count-supported width s)

module _ {W : Type 0} (kernel : Kernel W) (contents : W → Bytes) (offset : W → ℕ) (f : File)
    (regular : IsRegularFile kernel f.m_fd contents offset) where
  -- The end of the file is seen where the offset is at the length.
  is_eof-end : (w : W) → is_eof kernel f w ≡ ok (leb (length (contents w)) (offset w), w)
  unfolding is_eof tell seek file_size checked
  is_eof-end w = rw (regular.told w, regular.sized w) refl

  allow_eof-read :
      (n : ℕ) (w1 w2 : W)
      → contents w2 ≡ contents w1
      → offset w2 ≡ offset w1 + length (take n (drop (offset w1) (contents w1)))
      → allow_eof kernel (length (take n (drop (offset w1) (contents w1)))) n f w2 ≡ ok (tt, w2)
  unfolding allow_eof
  allow_eof-read n w1 w2 same moved =
      elim (Bool-cases (eqb (length (take n (drop (offset w1) (contents w1)))) n)) [
        | inl whole ↦ rw whole refl
        | inr short ↦
            let all = short-end n (drop (offset w1) (contents w1)) short in
            let left = length-drop (offset w1) (contents w1) in
            let size : length (contents w2) ≡ length (contents w1) = ap length same in
            let ended : leb (length (contents w2)) (offset w2) ≡ true =
              ground (arith, all, left, size, moved) in
            rw short (
              >>=-ok (from_file (is_eof kernel f w2)) _ (ap from_file (is_eof-end w2))
              ∙ rw ended refl)
      ]

  seeks :
      (a : ℕ) (w w1 : W)
      → as_uint (pos a) ≡ a
      → kernel.sys_lseek f.m_fd a seek_set w ≡ (some a, w1)
      → from_file (seek kernel (as_uint (pos a)) seek_set f w) ≡ ok (a, w1)
  unfolding seek checked
  seeks a w w1 exact h = rw exact (ap (λ x. from_file (checked x)) h)

  reads :
      (n : ℕ) (w w1 : W) (got : Bytes)
      → kernel.sys_read f.m_fd n w ≡ (some got, w1)
      → from_file (read_file kernel n f w) ≡ ok (got, w1)
  unfolding read_file checked
  reads n w w1 got h = ap (λ x. from_file (checked x)) h

  -- A read of the configuration space that passes the checks returns the bytes that the file has at the
  -- address, the lowest first, with 0xff for those behind the end of the file, and leaves the contents.
  pub pci_read-le_value :
      (address width : ℕ) (device : PciAddress) (w : W)
      → pci_check (pos address) width ≡ ok tt
      → (w' : W) × (pci_read kernel
            (record { m_address = device; m_file = f })
            (pos address)
            width
            w
          ≡ ok (
            pos (le_value (padded (width / 8) (take (width / 8) (drop address (contents w))))),
            w',
          ))
        × (contents w' ≡ contents w)
  unfolding pci_read
  pci_read-le_value address width device w allowed =
      let (supported, n, same, inside) = (pci_check_iff (pos address) width).0 allowed in
      let bytes = width / 8 in
      let exact : as_uint (pos address) ≡ address =
        as_uint-exact address n same (omega (arith, inside)) in
      let (w1, sought, kept1, at) = regular.seek_to address w in
      let (w2, read, kept2, moved) = regular.read_from bytes w1 in
      let got = take bytes (drop address (contents w)) in
      let here : take bytes (drop (offset w1) (contents w1)) ≡ got = rw (at, kept1) refl in
      (
        w2,
        >>=-ok (pci_check (pos address) width) _ allowed
            ∙ >>=-ok _ _ (seeks address w w1 exact sought)
            ∙ >>=-ok _ _ (buffer-filled width supported)
            ∙ >>=-ok _ _ (reads bytes w1 w2 got (read ∙ ap (λ x. (some x, w2)) here))
            ∙ >>=-ok _ _ (
                ap (λ x. allow_eof kernel (length x) bytes f w2) (sym here)
                ∙ allow_eof-read bytes w1 w2 kept2 moved)
            ∙ >>=-ok _ _ (
                ap from_buffer (
                  of_bitbuffer-padded bytes width got
                    (length-take_le bytes (drop address (contents w)))
                    (ground (arith, supported)))),
        kept2 ∙ kept1,
      )
