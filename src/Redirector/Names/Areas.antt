-- ===== src/Redirector/Names/Areas.antt =====
-- Names in their areas of 11 characters, and strings cut at a character.
use fujinet_msdos.Base.{
  ℕ, zero, suc, ◌+◌, ◌≤◌, ◌≡◌, ◌≢◌, refl, ap, true, false, none, some, [], ◌∷◌, ◌++◌, Bytes, arith,
  length, take, drop, set, blit, replicate, ◌==◌, List,
}
use fujinet_msdos.Redirector.Names.{
  no_name, split_first, split_last, extension, fcbitize, fcbname_loop,
}

-- The character is not in the string.
abbrev pub Without : ℕ → Bytes → Type 0
Without c [] = Unit {0}
Without c (x ∷ xs) = (x ≢ c) × Without c xs

other_char : {x c : ℕ} → x ≢ c → (x == c) ≡ false
other_char h = ground arith

same_char : (c : ℕ) → (c == c) ≡ true
same_char c = ground arith

pub split_first-append :
    (c : ℕ) (front behind : Bytes)
    → Without c front
    → split_first c (front ++ c ∷ behind) ≡ (front, some behind)
unfolding split_first
split_first-append c [] behind h = rw (split_first, same_char c) refl
split_first-append c (x ∷ xs) behind (ne, h) =
    let e = split_first-append c xs behind h in rw (split_first, other_char ne, e) refl

split_last-none : (c : ℕ) (s : Bytes) → Without c s → split_last c s ≡ none
unfolding split_last
split_last-none c [] h = refl
split_last-none c (x ∷ xs) (ne, h) = rw (split_last, split_last-none c xs h, other_char ne) refl

pub split_last-append :
    (c : ℕ) (front behind : Bytes)
    → Without c behind
    → split_last c (front ++ c ∷ behind) ≡ some (front, behind)
unfolding split_last
split_last-append c [] behind h = rw (split_last, split_last-none c behind h, same_char c) refl
split_last-append c (x ∷ xs) behind h = rw (split_last, split_last-append c xs behind h) refl

-- The name in an area that is padded with spaces.
pub split_first-blit :
    (n : ℕ) (s : Bytes)
    → Without b' ' s
    → length s ≤ n
    → (split_first b' ' (blit (replicate n b' ') 0 s)).0 ≡ s
unfolding split_first
split_first-blit zero [] h k = refl
split_first-blit (suc n) [] h k = refl
split_first-blit zero (x ∷ xs) h k = absurd (omega arith)
split_first-blit (suc n) (x ∷ xs) (ne, h) k =
    let e = split_first-blit n xs h (omega arith) in rw (split_first, other_char ne) (ap (◌∷◌ x) e)

module _ {ℓ} {A : Type ℓ} where
  pub take_short : (n : ℕ) (xs : List A) → length xs ≤ n → take n xs ≡ xs
  take_short zero [] h = refl
  take_short zero (x ∷ xs) h = absurd (omega arith)
  take_short (suc n) [] h = refl
  take_short (suc n) (x ∷ xs) h = ap (◌∷◌ x) (take_short n xs (omega arith))

  pub take-blit_behind : (n : ℕ) (xs src : List A) → take n (blit xs n src) ≡ take n xs
  take-blit_behind zero xs src = refl
  take-blit_behind (suc n) [] src = refl
  take-blit_behind (suc n) (x ∷ xs) src = ap (◌∷◌ x) (take-blit_behind n xs src)

  pub take-blit :
      (n : ℕ) (xs src : List A) → take n (blit xs 0 src) ≡ blit (take n xs) 0 (take n src)
  take-blit zero [] src = refl
  take-blit zero (x ∷ xs) src = refl
  take-blit (suc n) [] src = refl
  take-blit (suc n) (x ∷ xs) [] = refl
  take-blit (suc n) (x ∷ xs) (y ∷ ys) = ap (◌∷◌ y) (take-blit n xs ys)

  pub drop-blit : (n : ℕ) (xs src : List A) → drop n (blit xs n src) ≡ blit (drop n xs) 0 src
  drop-blit zero xs src = refl
  drop-blit (suc n) [] src = refl
  drop-blit (suc n) (x ∷ xs) src = drop-blit n xs src

  pub drop-blit_before :
      (n : ℕ) (xs src : List A) → length src ≤ n → drop n (blit xs 0 src) ≡ drop n xs
  drop-blit_before zero [] [] h = refl
  drop-blit_before zero (x ∷ xs) [] h = refl
  drop-blit_before zero xs (y ∷ ys) h = absurd (omega arith)
  drop-blit_before (suc n) [] src h = refl
  drop-blit_before (suc n) (x ∷ xs) [] h = refl
  drop-blit_before (suc n) (x ∷ xs) (y ∷ ys) h = drop-blit_before n xs ys (omega arith)

  -- One character more.
  pub blit-set :
      (xs : List A) (i : ℕ) (v : A) (vs : List A)
      → blit (set xs i v) (i + 1) vs ≡ blit xs i (v ∷ vs)
  blit-set [] i v vs = refl
  blit-set (x ∷ xs) zero v vs = refl
  blit-set (x ∷ xs) (suc i) v vs =
      let at : suc i + 1 ≡ suc (i + 1) = omega arith in rw at (ap (◌∷◌ x) (blit-set xs i v vs))

  pub blit_nothing : (xs : List A) (i : ℕ) → blit xs i [] ≡ xs
  blit_nothing [] i = refl
  blit_nothing (x ∷ xs) zero = refl
  blit_nothing (x ∷ xs) (suc i) = ap (◌∷◌ x) (blit_nothing xs i)

-- A name in 8.3 form goes into the area as it is.
pub fcbitize_short :
    (base ext : Bytes)
    → Without b'.' base
    → length base ≤ 8
    → length ext ≤ 3
    → fcbitize (base ++ b'.' ∷ ext) ≡ blit (blit no_name 0 base) 8 ext
unfolding fcbitize extension
fcbitize_short base ext dotless h k =
    rw (fcbitize, split_first-append b'.' base ext dotless, take_short 8 base h, take_short 3 ext k)
      refl

split_first-none : (c : ℕ) (s : Bytes) → Without c s → split_first c s ≡ (s, none)
unfolding split_first
split_first-none c [] h = refl
split_first-none c (x ∷ xs) (ne, h) = rw (split_first, split_first-none c xs h, other_char ne) refl

-- So does one that has no extension.
pub fcbitize_plain :
    (base : Bytes)
    → Without b'.' base
    → length base ≤ 8
    → fcbitize base ≡ blit (blit no_name 0 base) 8 []
unfolding fcbitize extension
fcbitize_plain base dotless h =
    rw (fcbitize, split_first-none b'.' base dotless, take_short 8 base h) refl

-- The characters in front of a dot are put into the area one by one.
pub fcbname_loop-append :
    (s rest : Bytes) (i : ℕ) (area : Bytes)
    → Without b'.' s
    → fcbname_loop (s ++ rest) i area ≡ fcbname_loop rest (i + length s) (blit area i s)
unfolding fcbname_loop
fcbname_loop-append [] rest i area h =
    let same : i + 0 ≡ i = omega arith in rw (same, blit_nothing area i) refl
fcbname_loop-append (x ∷ xs) rest i area (ne, h) =
    let same : i + 1 + length xs ≡ i + suc (length xs) = omega arith in
    let rest_is = fcbname_loop-append xs rest (i + 1) (set area i x) h in
    rw (fcbname_loop, other_char ne, rest_is, blit-set area i x xs, same) refl
