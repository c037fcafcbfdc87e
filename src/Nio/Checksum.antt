-- ===== src/Nio/Checksum.antt =====
-- `nio_protocol_checksum` of sys/nio_protocol.c (and `fuji_calc_checksum` of sys/fujicom.c, which
-- has the same body): a byte sum with the carry folded back in, over 16-bit words.
use fujinet_msdos.Base.{
  ℕ, ◌+◌, ◌-◌, ◌/◌, ◌%◌, ◌≡◌, ◌≢◌, refl, sym, ap, ◌∙◌, [], ◌∷◌, ◌++◌, arith, Bytes, IsByte,
  AllBytes, u16, if◌then◌else◌, ◌==◌,
}

-- One round of the loop. `unsigned` has 16 bits on the target, so the sum wraps there.
unfoldable pub add_carry : ℕ → ℕ → ℕ
add_carry chk b = u16 (chk + b) / 256 + u16 (chk + b) % 256

-- The bytes are those from `ptr` on, `len` of them.
unfoldable pub checksum : Bytes → ℕ → ℕ
checksum [] chk = chk
checksum (b ∷ bs) chk = checksum bs (add_carry chk b)

-- The plain sum of the bytes.
abbrev pub sum : Bytes → ℕ
sum [] = 0
sum (b ∷ bs) = b + sum bs

-- The residue modulo 255 that is 0 only for 0.
abbrev pub residue : ℕ → ℕ
residue n = if n == 0 then 0 else 1 + (n - 1) % 255

-- Data spread over two buffers is summed by two calls, the first result seeding the second.
pub checksum-append :
    (xs ys : Bytes) (seed : ℕ) → checksum (xs ++ ys) seed ≡ checksum ys (checksum xs seed)
unfolding checksum
checksum-append [] ys seed = refl
checksum-append (x ∷ xs) ys seed = checksum-append xs ys (add_carry seed x)

pub add_carry-IsByte : (chk b : ℕ) → IsByte chk → IsByte b → IsByte (add_carry chk b)
unfolding add_carry
add_carry-IsByte chk b h k = omega arith

-- The checksum of bytes, seeded with a byte, is a byte: the cast to `uint8_t` loses nothing.
pub checksum-IsByte :
    (bs : Bytes) (seed : ℕ) → IsByte seed → AllBytes bs → IsByte (checksum bs seed)
unfolding checksum
checksum-IsByte [] seed h k = h
checksum-IsByte (b ∷ bs) seed h (kb, kbs) =
    checksum-IsByte bs (add_carry seed b) (add_carry-IsByte seed b h kb) kbs

residue-add_carry :
    (chk b rest : ℕ)
    → IsByte chk
    → IsByte b
    → residue (add_carry chk b + rest) ≡ residue (chk + (b + rest))
unfolding add_carry
residue-add_carry chk b rest h k = ground arith

-- On bytes, seeded with a byte, the loop computes the residue of the plain sum modulo 255, where
-- only the sum 0 gives 0.
pub checksum-residue :
    (bs : Bytes) (seed : ℕ) → IsByte seed → AllBytes bs → checksum bs seed ≡ residue (seed + sum bs)
unfolding checksum
checksum-residue [] seed h k = ground arith
checksum-residue (b ∷ bs) seed h (kb, kbs) =
    checksum-residue bs (add_carry seed b) (add_carry-IsByte seed b h kb) kbs
    ∙ residue-add_carry seed b (sum bs) h kb

pub sum-append : (xs ys : Bytes) → sum (xs ++ ys) ≡ sum xs + sum ys
sum-append [] ys = omega arith
sum-append (x ∷ xs) ys = omega (arith, sum-append xs ys)

pub AllBytes-append : (xs ys : Bytes) → AllBytes xs → AllBytes ys → AllBytes (xs ++ ys)
AllBytes-append [] ys h k = k
AllBytes-append (x ∷ xs) ys (h, hs) k = (h, AllBytes-append xs ys hs k)

-- Two bytes that the checksum tells apart: they differ, and are not 0x00 and 0xFF.
abbrev pub Distinct : ℕ → ℕ → Type 0
Distinct x y = (x ≢ y) × (x + 255 ≢ y) × (y + 255 ≢ x)

residue_apart : (n x y : ℕ) → IsByte x → IsByte y → Distinct x y → residue (n + x) ≢ residue (n + y)
residue_apart n x y hx hy d = ground arith

-- Two sequences of bytes that differ in one byte, which is not 0x00 in one and 0xFF in the other,
-- have different checksums under one seed.
pub checksum_one_byte :
    (xs ys : Bytes) (x y seed : ℕ)
    → IsByte seed
    → AllBytes xs
    → AllBytes ys
    → IsByte x
    → IsByte y
    → Distinct x y
    → checksum (xs ++ x ∷ ys) seed ≢ checksum (xs ++ y ∷ ys) seed
checksum_one_byte xs ys x y seed hs hxs hys hx hy d e =
    residue_apart (seed + sum xs + sum ys) x y hx hy d (sym (regroup x hx) ∙ e ∙ regroup y hy)
  where
    regroup :
        (z : ℕ) → IsByte z → checksum (xs ++ z ∷ ys) seed ≡ residue (seed + sum xs + sum ys + z)
    regroup z hz =
        checksum-residue (xs ++ z ∷ ys) seed hs (AllBytes-append xs (z ∷ ys) hxs (hz, hys))
        ∙ ap residue (omega (arith, sum-append xs (z ∷ ys)))
