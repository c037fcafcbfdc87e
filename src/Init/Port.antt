-- ===== src/Init/Port.antt =====
-- fujicom_init of sys/port_config.c: the serial port that the environment names.
use native.Mathlib.Nat.{
  div-mul-le_self, le-div_iff_mul-le, div-le_of_le-mul, mul-le-mul_right, mod-eq_of_lt,
  lt-div-mul-add,
}
use mathlib.Core.Option.{some-injective, none-ne-some}
use fujinet_msdos.Base.{
  ◌⊎◌, inl, inr, Bool-cases, ℕ, ◌+◌, ◌-◌, ◌*◌, ◌/◌, ◌%◌, ◌≤◌, ◌<◌, ◌≡◌, refl, ap, arith, Bool,
  false, ◌&&◌, ◌||◌, Option, none, some, [], ◌∷◌, Bytes, ◌==◌, if◌then◌else◌, length, get_or, drop,
}

-- The C library's `strtoul` in a base, without the place where it ends, and `atoi`, which may be negative:
-- the result is the 16 bits of its `int`.
pub record Numerals : Type 0 where
  pub strtoul : Bytes → ℕ → ℕ
  pub atoi : Bytes → ℕ

-- SERIAL_BPS.
abbrev pub serial_bps : ℕ
serial_bps = 115200

-- What `port_init` is called with, and the number of the interrupt, which nothing takes.
pub record PortSetting : Type 0 where
  pub base : ℕ
  pub divisor : ℕ
  pub irq : ℕ

-- `strchr(fuji_port, ',')`: what is in front of the comma, and what is behind it.
pub before_comma : Bytes → Bytes
before_comma [] = []
before_comma (c ∷ text) = let rest = before_comma text in if c == b',' then [] else c ∷ rest

pub behind_comma : Bytes → Option Bytes
behind_comma [] = none
behind_comma (c ∷ text) = let rest = behind_comma text in if c == b',' then some text else rest

-- `strncasecmp(fuji_port, "0x", 2) == 0`.
pub is_hex : Bytes → Bool
is_hex (a ∷ b ∷ rest) = (a == b'0') && ((b == b'x') || (b == b'X'))
is_hex _ = false

-- The base addresses and interrupts of the ports by number; the first is that of all other numbers.
pub com_port : ℕ → ℕ × ℕ
com_port comp =
    if comp == 2
    then (0x2F8, 11)
    else if comp == 3
    then (0x3E8, 12)
    else if comp == 4
    then (0x2E8, 11)
    else (0x3F8, 12)

module _ (lib : Numerals) where
  -- The base and the interrupt from `FUJI_PORT`. The byte in front of the string is looked at when it
  -- begins with a comma or is empty.
  pub named_port : ℕ → Bytes → ℕ × ℕ
  named_port front text =
      let name = before_comma text in
      let final = if length name == 0 then front else get_or name (length name - 1) 0 in
      let (base, irq) : ℕ × ℕ =
        if is_hex text
        then (lib.strtoul (drop 2 text) 16 % 65536, 12)
        else if (final == b'h') || (final == b'H')
        then (lib.strtoul text 16 % 65536, 12)
        else com_port (lib.atoi text) in
      elim (behind_comma text) [ none ↦ (base, irq) | some number ↦ (base, lib.atoi number) ]

  -- `none` is a division by zero.
  pub fujicom_init : ℕ → Option Bytes → Option Bytes → Option PortSetting
  fujicom_init front fuji_bps fuji_port =
      let bps : ℕ = elim fuji_bps [ none ↦ serial_bps | some text ↦ lib.strtoul text 10 ] in
      let (base, irq) : ℕ × ℕ = elim fuji_port [
        | none ↦ (0x3F8, 12)
        | some text ↦ named_port front text
      ] in
      if bps == 0
      then none
      else some (record { base = base; divisor = 115200 / bps % 65536; irq = irq })

  -- For a speed from 2 to 115200, the divisor is the greatest with which the port is no slower than that.
  pub fujicom_init_speed :
      (front : ℕ) (text : Bytes) (fuji_port : Option Bytes)
      → 2 ≤ lib.strtoul text 10
      → lib.strtoul text 10 ≤ 115200
      → (r : PortSetting) × (fujicom_init front (some text) fuji_port ≡ some r)
        × (1 ≤ r.divisor)
        × (r.divisor * lib.strtoul text 10 ≤ 115200)
        × (115200 < r.divisor * lib.strtoul text 10 + lib.strtoul text 10)
  unfolding fujicom_init
  fujicom_init_speed front text fuji_port some_bps few_bps =
      let bps = lib.strtoul text 10 in
      let asked : (bps == 0) ≡ false = ground arith in
      let low = div-mul-le_self 115200 bps in
      let high = lt-div-mul-add {a = 115200} {b = bps} (omega arith) in
      let fits : 115200 / bps % 65536 ≡ 115200 / bps = mod-eq_of_lt (
        omega (
          arith,
          div-le_of_le-mul bps {m = 115200} {n = 57600} (mul-le-mul_right 57600 some_bps),
        )) in
      let (base, irq) : ℕ × ℕ = elim fuji_port [
        | none ↦ (0x3F8, 12)
        | some name ↦ named_port front name
      ] in
      (
        record { base = base; divisor = 115200 / bps; irq = irq },
        rw (fujicom_init, asked, fits) refl,
        (le-div_iff_mul-le {k = bps} {x = 1} {y = 115200} (omega arith)).1 (omega arith),
        low,
        high,
      )

  -- No setting where the environment asks for a speed of 0, and one otherwise.
  pub fujicom_init-Speed :
      (front : ℕ) (fuji_bps fuji_port : Option Bytes)
      → (((text : Bytes) × (fuji_bps ≡ some text) × (lib.strtoul text 10 ≡ 0))
          × (fujicom_init front fuji_bps fuji_port ≡ none))
        ⊎ ((((text : Bytes) × (fuji_bps ≡ some text) × (lib.strtoul text 10 ≡ 0)) → ⊥)
            × (serial : PortSetting) × (fujicom_init front fuji_bps fuji_port ≡ some serial))
  unfolding fujicom_init
  fujicom_init-Speed front none fuji_port = inr (λ (text, e, z). none-ne-some text e, _, refl)
  fujicom_init-Speed front (some text) fuji_port = elim (Bool-cases (lib.strtoul text 10 == 0)) [
    | inl nothing ↦ inl ((text, refl, ground arith), rw (fujicom_init, nothing) refl)
    | inr something ↦
        let (base, irq) : ℕ × ℕ = elim fuji_port [
          | none ↦ (0x3F8, 12)
          | some name ↦ named_port front name
        ] in
        inr (
          λ (text', e, z).
              let same = ap (λ t. lib.strtoul t 10) (some-injective text text' e) in ground arith,
          record { base = base; divisor = 115200 / lib.strtoul text 10 % 65536; irq = irq },
          rw (fujicom_init, something) refl,
        )
  ]
