-- ===== src/Base/Lists.antt =====
-- Lists measured and indexed by native numbers, under the library's names, and `blit`, the copy of
-- one memory block into another.
use Prim.Native.Nat.{ℕ, zero, suc, ◌+◌, ◌-◌, ◌≤◌, ◌<◌, min}
use mathlib.Core.Path.{◌≡◌, refl, ap}
use mathlib.Core.Option.{Option, none, some}
use mathlib.Core.List.{List, [], ◌∷◌, ◌++◌}
use native.Mathlib.Omega.{arith}

module _ {ℓ} {A : Type ℓ} where
  abbrev pub length : List A → ℕ
  length [] = 0
  length (x ∷ xs) = suc (length xs)

  abbrev pub get_or : List A → ℕ → A → A
  get_or [] i d = d
  get_or (x ∷ xs) zero d = x
  get_or (x ∷ xs) (suc i) d = get_or xs i d

  abbrev pub get_elem? : List A → ℕ → Option A
  get_elem? [] i = none
  get_elem? (x ∷ xs) zero = some x
  get_elem? (x ∷ xs) (suc i) = get_elem? xs i

  -- A write out of bounds changes nothing.
  abbrev pub set : List A → ℕ → A → List A
  set [] i v = []
  set (x ∷ xs) zero v = v ∷ xs
  set (x ∷ xs) (suc i) v = x ∷ set xs i v

  abbrev pub take : ℕ → List A → List A
  take zero xs = []
  take (suc n) [] = []
  take (suc n) (x ∷ xs) = x ∷ take n xs

  abbrev pub drop : ℕ → List A → List A
  drop zero xs = xs
  drop (suc n) [] = []
  drop (suc n) (x ∷ xs) = drop n xs

  abbrev pub replicate : ℕ → A → List A
  replicate zero a = []
  replicate (suc n) a = a ∷ replicate n a

  -- `memcpy(dst + off, src, length src)`; what falls behind the end of `dst` is not modelled.
  abbrev pub blit : List A → ℕ → List A → List A
  blit [] off src = []
  blit (x ∷ xs) zero [] = x ∷ xs
  blit (x ∷ xs) zero (y ∷ ys) = y ∷ blit xs zero ys
  blit (x ∷ xs) (suc off) src = x ∷ blit xs off src

module _ {ℓ} {A : Type ℓ} where
  pub length-append : (xs ys : List A) → length (xs ++ ys) ≡ length xs + length ys
  length-append [] ys = omega arith
  length-append (x ∷ xs) ys = omega (arith, length-append xs ys)

  pub length-set : (xs : List A) (i : ℕ) (v : A) → length (set xs i v) ≡ length xs
  length-set [] i v = refl
  length-set (x ∷ xs) zero v = refl
  length-set (x ∷ xs) (suc i) v = ap suc (length-set xs i v)

  pub length-take : (n : ℕ) (xs : List A) → length (take n xs) ≡ min n (length xs)
  length-take zero xs = omega arith
  length-take (suc n) [] = omega arith
  length-take (suc n) (x ∷ xs) = omega (arith, length-take n xs)

  pub length-drop : (n : ℕ) (xs : List A) → length (drop n xs) ≡ length xs - n
  length-drop zero xs = omega arith
  length-drop (suc n) [] = omega arith
  length-drop (suc n) (x ∷ xs) = omega (arith, length-drop n xs)

  pub length-blit : (dst : List A) (off : ℕ) (src : List A) → length (blit dst off src) ≡ length dst
  length-blit [] off src = refl
  length-blit (x ∷ xs) zero [] = refl
  length-blit (x ∷ xs) zero (y ∷ ys) = ap suc (length-blit xs zero ys)
  length-blit (x ∷ xs) (suc off) src = ap suc (length-blit xs off src)

  -- Taking the length of the front part gives the front part back.
  pub take-append : (xs ys : List A) → take (length xs) (xs ++ ys) ≡ xs
  take-append [] ys = refl
  take-append (x ∷ xs) ys = ap (◌∷◌ x) (take-append xs ys)

  pub take_all : (n : ℕ) (xs : List A) → n ≡ length xs → take n xs ≡ xs
  take_all zero [] h = refl
  take_all zero (x ∷ xs) h = absurd (omega arith)
  take_all (suc n) [] h = refl
  take_all (suc n) (x ∷ xs) h = ap (◌∷◌ x) (take_all n xs (omega arith))

  pub get_or-set : (xs : List A) (i : ℕ) (v d : A) → i < length xs → get_or (set xs i v) i d ≡ v
  get_or-set [] i v d h = ground arith
  get_or-set (x ∷ xs) zero v d h = refl
  get_or-set (x ∷ xs) (suc i) v d h = get_or-set xs i v d (omega arith)

  -- Inside the block that was copied stands what was copied.
  pub get_or-blit :
      (xs : List A) (off : ℕ) (src : List A) (i j : ℕ) (d : A)
      → i ≡ off + j
      → j < length src
      → i < length xs
      → get_or (blit xs off src) i d ≡ get_or src j d
  get_or-blit [] off src i j d h k l = absurd (omega arith)
  get_or-blit (x ∷ xs) zero [] i j d h k l = absurd (omega arith)
  get_or-blit (x ∷ xs) zero (y ∷ ys) zero zero d h k l = refl
  get_or-blit (x ∷ xs) zero (y ∷ ys) zero (suc j) d h k l = absurd (omega arith)
  get_or-blit (x ∷ xs) zero (y ∷ ys) (suc i) zero d h k l = absurd (omega arith)
  get_or-blit (x ∷ xs) zero (y ∷ ys) (suc i) (suc j) d h k l =
      get_or-blit xs zero ys i j d (omega arith) (omega arith) (omega arith)
  get_or-blit (x ∷ xs) (suc off) src zero j d h k l = absurd (omega arith)
  get_or-blit (x ∷ xs) (suc off) src (suc i) j d h k l =
      get_or-blit xs off src i j d (omega arith) k (omega arith)

-- Blocks of a memory block, as `memcpy` moves them.
module _ {ℓ} {A : Type ℓ} where
  -- What lies in front of a copy is as it was.
  pub take-drop-blit_before :
      (xs : List A) (off : ℕ) (src : List A) (i n : ℕ)
      → i + n ≤ off
      → take n (drop i (blit xs off src)) ≡ take n (drop i xs)
  take-drop-blit_before [] off src i n h = refl
  take-drop-blit_before (x ∷ xs) zero src zero zero h = refl
  take-drop-blit_before (x ∷ xs) zero src (suc i) n h = absurd (omega arith)
  take-drop-blit_before (x ∷ xs) zero src zero (suc n) h = absurd (omega arith)
  take-drop-blit_before (x ∷ xs) (suc off) src zero zero h = refl
  take-drop-blit_before (x ∷ xs) (suc off) src zero (suc n) h =
      ap (◌∷◌ x) (take-drop-blit_before xs off src zero n (omega arith))
  take-drop-blit_before (x ∷ xs) (suc off) src (suc i) n h =
      take-drop-blit_before xs off src i n (omega arith)

  take-drop-blit_start :
      (xs src : List A) (i n : ℕ)
      → i + n ≤ length src
      → length src ≤ length xs
      → take n (drop i (blit xs 0 src)) ≡ take n (drop i src)
  take-drop-blit_start xs [] zero zero h k = refl
  take-drop-blit_start xs [] zero (suc n) h k = absurd (omega arith)
  take-drop-blit_start xs [] (suc i) n h k = absurd (omega arith)
  take-drop-blit_start [] (y ∷ ys) i n h k = absurd (omega arith)
  take-drop-blit_start (x ∷ xs) (y ∷ ys) zero zero h k = refl
  take-drop-blit_start (x ∷ xs) (y ∷ ys) zero (suc n) h k =
      ap (◌∷◌ y) (take-drop-blit_start xs ys zero n (omega arith) (omega arith))
  take-drop-blit_start (x ∷ xs) (y ∷ ys) (suc i) n h k =
      take-drop-blit_start xs ys i n (omega arith) (omega arith)

  -- Within a copy that fits lies what was copied.
  pub take-drop-blit_within :
      (xs : List A) (off : ℕ) (src : List A) (at i n : ℕ)
      → at ≡ off + i
      → i + n ≤ length src
      → off + length src ≤ length xs
      → take n (drop at (blit xs off src)) ≡ take n (drop i src)
  take-drop-blit_within xs zero src at i n e h k =
      let same : at ≡ i = omega arith in rw same (take-drop-blit_start xs src i n h (omega arith))
  take-drop-blit_within [] (suc off) src at i n e h k = absurd (omega arith)
  take-drop-blit_within (x ∷ xs) (suc off) src zero i n e h k = absurd (omega arith)
  take-drop-blit_within (x ∷ xs) (suc off) src (suc at) i n e h k =
      take-drop-blit_within xs off src at i n (omega arith) h (omega arith)

  -- A block of the front part is a block of the whole.
  pub take-drop-take :
      (m : ℕ) (xs : List A) (i n : ℕ) → i + n ≤ m → take n (drop i (take m xs)) ≡ take n (drop i xs)
  take-drop-take zero xs zero zero h = refl
  take-drop-take zero xs zero (suc n) h = absurd (omega arith)
  take-drop-take zero xs (suc i) n h = absurd (omega arith)
  take-drop-take (suc m) [] i n h = refl
  take-drop-take (suc m) (x ∷ xs) zero zero h = refl
  take-drop-take (suc m) (x ∷ xs) zero (suc n) h =
      ap (◌∷◌ x) (take-drop-take m xs zero n (omega arith))
  take-drop-take (suc m) (x ∷ xs) (suc i) n h = take-drop-take m xs i n (omega arith)
