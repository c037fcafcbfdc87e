-- ===== src/Console/Digits.antt =====
-- The numbers of the console can be read back.
use native.Mathlib.Nat.{
  lt-div-mul-add, div-div-eq-div-mul, div-eq_of_lt, mod-eq_of_lt, pow-zero, pow-suc,
}
use fujinet_msdos.Base.{
  ℕ, zero, suc, ◌+◌, ◌-◌, ◌*◌, ◌/◌, ◌%◌, ◌^◌, ◌≤◌, ◌<◌, ◌≡◌, ◌≢◌, ◌⊎◌, inl, inr, refl, sym, ap, ◌∙◌,
  Bool, true, ◌||◌, ◌&&◌, [], ◌∷◌, ◌++◌, Bytes, arith, leb, ◌==◌, if◌then◌else◌, replicate, length,
  Bool-cases,
}
use fujinet_msdos.Console.{
  count_digits, digits_of, pad, hex_char, hex_loop, print_hex, weight, dec_loop, print_dec,
  is_digit,
}

-- What a row of digits stands for, in a base and by what each digit stands for.
unfoldable pub read_digits : ℕ → (ℕ → ℕ) → ℕ → Bytes → ℕ
read_digits base digit acc [] = acc
read_digits base digit acc (c ∷ cs) = read_digits base digit (acc * base + digit c) cs

abbrev pub dec_digit : ℕ → ℕ
dec_digit c = c - b'0'

abbrev pub hex_digit : ℕ → ℕ
hex_digit c = if leb c b'9' then c - b'0' else c - 55

-- The digits of the hexadecimal numbers, with capital letters.
abbrev pub is_hex_digit : ℕ → Bool
is_hex_digit c = is_digit c || (leb b'A' c && leb c b'F')

abbrev pub All : (ℕ → Bool) → Bytes → Type 0
All is [] = Unit {0}
All is (c ∷ cs) = (is c ≡ true) × All is cs

abbrev pub AllDigits : Bytes → Type 0
AllDigits = All is_digit

-- As many digits as the number needs, and no more.
abbrev Needs : ℕ → ℕ → ℕ → Type 0
Needs base n k = (n < base ^ k) × ((k ≡ 0) ⊎ (base ^ (k - 1) ≤ n))

-- A number as it is printed: the padding, and characters that are digits, from which the number can be
-- read, as many as it needs.
pub record Shown (base : ℕ) (is : ℕ → Bool) (digit : ℕ → ℕ) (n width leading : ℕ) (out : Bytes)
    : Type 0 where
  pub digits : Bytes
  pub out_is : out ≡ replicate (width - length digits) leading ++ digits
  pub digits_are : All is digits
  pub value_is : read_digits base digit 0 digits ≡ n
  pub some_digit : 1 ≤ length digits
  pub no_more : (length digits ≡ 1) ⊎ (base ^ (length digits - 1) ≤ n)

module _ (base : ℕ) (pos : 0 < base) (up : (t x : ℕ) → t / base < x → t < x * base)
    (down : (t x : ℕ) → t < x * base → t / base < x)
    (back : (t x : ℕ) → x ≤ t / base → x * base ≤ t) where
  pow-le : (k n : ℕ) → 1 ≤ n → (k ≡ 0) ⊎ (base ^ (k - 1) ≤ n / base) → base ^ k ≤ n
  pow-le zero n pos h = rw pow-zero pos
  pow-le (suc k) n pos (inl e) = absurd (omega arith)
  pow-le (suc k) n pos (inr le) =
      let same : suc k - 1 ≡ k = omega arith in
      rw (pow-suc base k) (back n (base ^ k) (rw same at le))

  count_digits-Needs :
      (fuel n d : ℕ)
      → n < base ^ fuel
      → (k : ℕ) × (count_digits fuel base n d ≡ d + k) × Needs base n k
  unfolding count_digits
  count_digits-Needs zero n d h = (0, omega arith, (h, inl refl))
  count_digits-Needs (suc fuel) n d h = elim (Bool-cases (n == 0)) [
    | inl nothing ↦
        (0, rw (count_digits, nothing) (omega arith), (rw pow-zero (ground arith), inl refl))
    | inr something ↦
        let less = down n (base ^ fuel) (rw (pow-suc base fuel) at h) in
        let (k, e, (small, large)) = count_digits-Needs fuel (n / base) (d + 1) less in
        let lower = pow-le k n (ground arith) large in
        let same : suc k - 1 ≡ k = omega arith in
        (
          suc k,
          rw (count_digits, something) (omega (arith, e)),
          (rw (pow-suc base k) (up n (base ^ k) small), inr (rw same lower)),
        )
  ]

  abbrev HasDigits : ℕ → Type 0
  HasDigits n =
      (k : ℕ) × (digits_of base n ≡ suc k) × (n < base ^ suc k) × ((k ≡ 0) ⊎ (base ^ k ≤ n))

  has_digits : (k n : ℕ) → count_digits 10 base n 0 ≡ 0 + k → Needs base n k → HasDigits n
  unfolding digits_of
  has_digits zero n e (small, large) =
      let none_left : count_digits 10 base n 0 ≡ 0 = omega (arith, e) in
      let nothing : n ≡ 0 = omega (arith, pow-zero base, small) in
      (0, ground arith, rw (nothing, pow-suc base 0, pow-zero base) (omega arith), inl refl)
  has_digits (suc k) n e (small, large) =
      let some_left : count_digits 10 base n 0 ≡ suc k = omega (arith, e) in
      let same : suc k - 1 ≡ k = omega arith in
      (
        k,
        ground arith,
        small,
        elim large [ inl absent ↦ absurd (omega arith) | inr le ↦ inr (rw same at le) ],
      )

  -- A number below the tenth power has one digit at least, as many as it needs, and no more.
  digits_of-HasDigits : (n : ℕ) → n < base ^ 10 → HasDigits n
  digits_of-HasDigits n h =
      let (k, e, needs) = count_digits-Needs 10 n 0 h in has_digits k n e needs

div-pow-suc : (base n k : ℕ) → n / base ^ suc k ≡ n / base ^ k / base
div-pow-suc base n k = rw (pow-suc base k) (sym (div-div-eq-div-mul n (base ^ k) base))

-- Digits as many as the number needs, behind their padding.
padded-Shown :
    (base : ℕ) (is : ℕ → Bool) (digit : ℕ → ℕ) (n width leading k : ℕ) (ds : Bytes)
    → All is ds
    → length ds ≡ suc k
    → read_digits base digit 0 ds ≡ n
    → (k ≡ 0) ⊎ (base ^ k ≤ n)
    → Shown base is digit n width leading (replicate (width - suc k) leading ++ ds)
padded-Shown base is digit n width leading k ds all e v more =
    let same : length ds - 1 ≡ k = omega arith in
    record {
      digits = ds;
      out_is = rw e refl;
      digits_are = all;
      value_is = v;
      some_digit = omega arith;
      no_more = elim more [ inl z ↦ inl (omega arith) | inr le ↦ inr (rw same le) ];
    }

-- Hexadecimal.
hex_digit-hex_char : (x : ℕ) → x < 16 → hex_digit (hex_char x) ≡ x
unfolding hex_char
hex_digit-hex_char x h = ground arith

read-hex_loop : (k n : ℕ) → read_digits 16 hex_digit (n / 16 ^ k) (hex_loop k n) ≡ n
unfolding read_digits hex_loop
read-hex_loop zero n = omega arith
read-hex_loop (suc k) n =
    let split : n / 16 ^ suc k * 16 + hex_digit (hex_char (n / 16 ^ k % 16)) ≡ n / 16 ^ k =
      rw (div-pow-suc 16 n k, hex_digit-hex_char (n / 16 ^ k % 16) (omega arith)) (omega arith) in
    ap (λ acc. read_digits 16 hex_digit acc (hex_loop k n)) split ∙ read-hex_loop k n

hex_char_lem : (x : ℕ) → x < 16 → is_hex_digit (hex_char x) ≡ true
unfolding hex_char
hex_char_lem x h = ground arith

hex_loop-All : (k n : ℕ) → All is_hex_digit (hex_loop k n)
unfolding hex_loop
hex_loop-All zero n = tt
hex_loop-All (suc k) n = (hex_char_lem (n / 16 ^ k % 16) (omega arith), hex_loop-All k n)

length-hex_loop : (k n : ℕ) → length (hex_loop k n) ≡ k
unfolding hex_loop
length-hex_loop zero n = refl
length-hex_loop (suc k) n = ap suc (length-hex_loop k n)

-- A number of 32 bits is printed in hexadecimal so that it can be read back: padding up to the width, and
-- digits that stand for the number, as many as it needs and no more.
pub print_hex-Shown :
    (n width leading : ℕ)
    → n < 4294967296
    → Shown 16 is_hex_digit hex_digit n width leading (print_hex n width leading)
unfolding print_hex pad
print_hex-Shown n width leading small =
    let (k, e, less, more) =
      digits_of-HasDigits 16 (omega arith) (λ t x h. omega arith) (λ t x h. omega arith)
        (λ t x h. omega arith) n (omega arith) in
    let value = ap (λ acc. read_digits 16 hex_digit acc (hex_loop (suc k) n)) (div-eq_of_lt less) in
    rw e (
      padded-Shown 16 is_hex_digit hex_digit n width leading k (hex_loop (suc k) n)
        (hex_loop-All (suc k) n) (length-hex_loop (suc k) n) (sym value ∙ read-hex_loop (suc k) n)
        more)

-- Decimal.
weight_lem : (modulus n : ℕ) → 10 ^ n < modulus → weight modulus n ≡ 10 ^ n
unfolding weight
weight_lem modulus zero h = refl
weight_lem modulus (suc n) h =
    rw (weight_lem modulus n (omega (arith, pow-suc 10 n)), ← pow-suc 10 n) (mod-eq_of_lt h)

pow-div : (k : ℕ) → 10 ^ suc k / 10 ≡ 10 ^ k
pow-div k = omega (arith, pow-suc 10 k)

dec_loop-AllDigits : (k n tens : ℕ) → AllDigits (dec_loop k n tens)
unfolding dec_loop
dec_loop-AllDigits zero n tens = tt
dec_loop-AllDigits (suc k) n tens = (ground arith, dec_loop-AllDigits k n (tens / 10))

-- The weight is that of the first digit.
read-dec_loop :
    (k n : ℕ) → read_digits 10 dec_digit (n / 10 ^ suc k) (dec_loop (suc k) n (10 ^ k)) ≡ n
unfolding read_digits dec_loop
read-dec_loop zero n = omega arith
read-dec_loop (suc k) n =
    let split : n / 10 ^ suc (suc k) * 10 + dec_digit (b'0' + n / 10 ^ suc k % 10)
        ≡ n / 10 ^ suc k =
      rw (div-pow-suc 10 n (suc k)) (omega arith) in
    ap (λ acc. read_digits 10 dec_digit acc (dec_loop (suc k) n (10 ^ suc k / 10))) split
    ∙ rw (pow-div k) (read-dec_loop k n)

length-dec_loop : (k n tens : ℕ) → length (dec_loop k n tens) ≡ k
unfolding dec_loop
length-dec_loop zero n tens = refl
length-dec_loop (suc k) n tens = ap suc (length-dec_loop k n (tens / 10))

-- The digits of a number below the modulus.
DecDigits : ℕ → ℕ → Type 0
DecDigits modulus n =
    (k : ℕ) × (digits_of 10 n ≡ suc k)
    × (weight modulus (suc k - 1) ≡ 10 ^ k)
    × (read_digits 10 dec_digit 0 (dec_loop (suc k) n (10 ^ k)) ≡ n)
    × ((k ≡ 0) ⊎ (10 ^ k ≤ n))
    × (n < 10 ^ suc k)

digits_of-DecDigits :
    (modulus n : ℕ) → 1 < modulus → modulus ≤ 4294967296 → n < modulus → DecDigits modulus n
unfolding DecDigits
digits_of-DecDigits modulus n two fits small =
    let (k, e, less, more) =
      digits_of-HasDigits 10 (omega arith) (λ t x h. omega arith) (λ t x h. omega arith)
        (λ t x h. omega arith) n (omega arith) in
    let same : suc k - 1 ≡ k = omega arith in
    let first = weight_lem modulus k (elim more [ inl z ↦ rw z two | inr le ↦ omega arith ]) in
    let value =
      ap (λ acc. read_digits 10 dec_digit acc (dec_loop (suc k) n (10 ^ k))) (div-eq_of_lt less) in
    (k, e, rw same first, sym value ∙ read-dec_loop k n, more, less)

-- A number below the modulus, which is 2 to 2^32, is printed in decimal as padding up to the
-- width and characters from 0 to 9 from which the number can be read back, at least one, and no
-- more of them than it needs.
pub print_dec-Shown :
    (modulus n width leading : ℕ)
    → 1 < modulus
    → modulus ≤ 4294967296
    → n < modulus
    → Shown 10 is_digit dec_digit n width leading (print_dec modulus n width leading)
unfolding print_dec pad DecDigits
print_dec-Shown modulus n width leading two fits small =
    let (k, e, first, value, more, less) = digits_of-DecDigits modulus n two fits small in
    let ds = dec_loop (suc k) n (10 ^ k) in
    rw (e, first)
      (padded-Shown 10 is_digit dec_digit n width leading k ds
        (dec_loop-AllDigits (suc k) n (10 ^ k)) (length-dec_loop (suc k) n (10 ^ k)) value more)

first_digit :
    (k n : ℕ) → 1 ≤ n → n < 10 ^ suc k → (k ≡ 0) ⊎ (10 ^ k ≤ n) → b'0' + n / 10 ^ k % 10 ≢ b'0'
first_digit k n pos less more h =
    let below_ten = div-pow-suc 10 n k ∙ refl in
    let gone : n / 10 ^ suc k ≡ 0 = div-eq_of_lt less in
    let nothing : n / 10 ^ k ≡ 0 = omega (arith, below_ten, gone) in
    let le : 10 ^ k ≤ n = elim more [ inl z ↦ rw z (omega arith) | inr le ↦ le ] in
    let above = lt-div-mul-add {a = n} {b = 10 ^ k} (omega arith) in
    omega (arith, le, rw nothing at above)

-- Without padding a number other than 0 begins with a digit other than `0`.
pub print_dec_plain :
    (n leading : ℕ)
    → 1 ≤ n
    → n < 65536
    → (d : ℕ) × (ds : Bytes) × (print_dec 65536 n 0 leading ≡ d ∷ ds)
      × (d ≢ b'0')
      × AllDigits (d ∷ ds)
      × (read_digits 10 dec_digit 0 (d ∷ ds) ≡ n)
unfolding print_dec pad dec_loop DecDigits
print_dec_plain n leading pos small =
    let (k, e, first, value, more, less) =
      digits_of-DecDigits 65536 n (omega arith) (omega arith) small in
    (
      b'0' + n / 10 ^ k % 10,
      dec_loop k n (10 ^ k / 10),
      let none_left : 0 - suc k ≡ 0 = omega arith in rw (e, first, none_left),
      first_digit k n pos less more,
      dec_loop-AllDigits (suc k) n (10 ^ k),
      value,
    )
