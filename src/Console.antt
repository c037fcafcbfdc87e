-- ===== src/Console.antt =====
-- sys/print.c: the formatted output of the drivers and the programs. A function gives the characters that it
-- prints, in order.
pub mod Digits
pub mod Format
mod Tests
use fujinet_msdos.Base.{
  ℕ, zero, suc, ◌+◌, ◌-◌, ◌*◌, ◌/◌, ◌%◌, ◌^◌, Bool, true, false, ◌&&◌, ◌||◌, Option, none, some,
  List, [], ◌∷◌, ◌++◌, Bytes, u8, u16, u32, ltb, leb, ◌==◌, if◌then◌else◌, replicate, drop, length,
}

-- The loop that counts the digits of a number in some base, on fuel: a number of 32 bits has 10 at most.
pub count_digits : ℕ → ℕ → ℕ → ℕ → ℕ
count_digits zero base tval digits = digits
count_digits (suc fuel) base tval digits =
    let more = count_digits fuel base (tval / base) (digits + 1) in
    if tval == 0 then digits else more

-- A 0 has one digit.
pub digits_of : ℕ → ℕ → ℕ
digits_of base val = let digits = count_digits 10 base val 0 in if digits == 0 then 1 else digits

-- `for (; digits < width; width--)`.
pub pad : ℕ → ℕ → ℕ → Bytes
pad digits width leading = replicate (width - digits) leading

pub hex_char : ℕ → ℕ
hex_char c = b'0' + c + (if ltb 9 c then 7 else 0)

-- The loop over the digits, from the first one on.
pub hex_loop : ℕ → ℕ → Bytes
hex_loop zero val = []
hex_loop (suc digits) val = hex_char (val / 16 ^ digits % 16) ∷ hex_loop digits val

-- `printHex` and `printHex32`, which differ in the width of the number only.
pub print_hex : ℕ → ℕ → ℕ → Bytes
print_hex val width leading =
    let digits = digits_of 16 val in pad digits width leading ++ hex_loop digits val

-- The weight of the first digit, in words of the type of the number.
pub weight : ℕ → ℕ → ℕ
weight modulus zero = 1
weight modulus (suc n) = weight modulus n * 10 % modulus

pub dec_loop : ℕ → ℕ → ℕ → Bytes
dec_loop zero val tens = []
dec_loop (suc digits) val tens = (b'0' + val / tens % 10) ∷ dec_loop digits val (tens / 10)

-- `printDec` where the modulus is 2^16, and `printDec32` where it is 2^32.
pub print_dec : ℕ → ℕ → ℕ → ℕ → Bytes
print_dec modulus val width leading =
    let digits = digits_of 10 val in
    pad digits width leading ++ dec_loop digits val (weight modulus (digits - 1))

-- The arguments of a call: a word of 16 bits, one of 32 bits, and a string, near or far, where the
-- pointer is not null.
pub data Arg : Type 0 where
  word : ℕ → Arg
  long : ℕ → Arg
  text : Option Bytes → Arg
  far_text : Option Bytes → Arg

abbrev pub print_string : Option Bytes → Bytes
print_string none = []
print_string (some str) = str

-- What the format pointer stands in: plain text, just behind a `%`, the width, and behind an `l`.
pub data Mode : Type 0 where
  plain : Mode
  percent : Mode
  width_of : ℕ → ℕ → Mode
  long_of : ℕ → ℕ → Mode

abbrev pub is_digit : ℕ → Bool
is_digit c = leb b'0' c && leb c b'9'

-- The conversion by the character at the pointer, with the argument it takes where there is one of its
-- type.
pub convert : ℕ → ℕ → ℕ → List Arg → Option (Bytes × List Arg)
convert c leader width args =
    if c == b'x'
    then elim args [ word n ∷ rest ↦ some (print_hex n width leader, rest) | _ ↦ none ]
    else if (c == b'i') || (c == b'd')
    then elim args [ word n ∷ rest ↦ some (print_dec 65536 n width leader, rest) | _ ↦ none ]
    else if c == b's'
    then elim args [ text t ∷ rest ↦ some (print_string t, rest) | _ ↦ none ]
    else some ([], args)

pub convert_long : ℕ → ℕ → ℕ → List Arg → Option (Bytes × List Arg)
convert_long c leader width args =
    if c == b'x'
    then elim args [ long n ∷ rest ↦ some (print_hex n width leader, rest) | _ ↦ none ]
    else if (c == b'i') || (c == b'd')
    then elim args [ long n ∷ rest ↦ some (print_dec 4294967296 n width leader, rest) | _ ↦ none ]
    else if c == b's'
    then elim args [ far_text t ∷ rest ↦ some (print_string t, rest) | _ ↦ none ]
    else some ([], args)

pub convert_char : List Arg → Option (Bytes × List Arg)
convert_char (word n ∷ rest) = some (u8 n ∷ [], rest)
convert_char _ = none

-- The conversion ends the directive.
abbrev settled : Option (Bytes × List Arg) → Option (Bytes × Mode × List Arg)
settled none = none
settled (some (out, args)) = some (out, plain, args)

-- One character of the format: what is printed, the mode behind it and the arguments that are left.
pub format_char : Mode → ℕ → List Arg → Option (Bytes × Mode × List Arg)
format_char plain c args =
    if c == b'\n'
    then some (b'\r' ∷ b'\n' ∷ [], plain, args)
    else if c == b'%'
    then some ([], percent, args)
    else some (c ∷ [], plain, args)
format_char percent c args =
    if c == b'c'
    then settled (convert_char args)
    else if c == b'0'
    then some ([], width_of b'0' 0, args)
    else if is_digit c
    then some ([], width_of b' ' (c - b'0'), args)
    else if c == b'l'
    then some ([], long_of b' ' 0, args)
    else settled (convert c b' ' 0 args)
format_char (width_of leader width) c args =
    if is_digit c
    then some ([], width_of leader (u8 (width * 10 + (c - b'0'))), args)
    else if c == b'l'
    then some ([], long_of leader width, args)
    else settled (convert c leader width args)
format_char (long_of leader width) c args = settled (convert_long c leader width args)

pub printed : Bytes → Option Bytes → Option Bytes
printed out none = none
printed out (some rest) = some (out ++ rest)

-- `vconsolef` from a place of the format on. There is none where the arguments do not fit the format,
-- and where the format ends within a directive: the pointer is then moved past its end.
pub vconsolef_from : Mode → Bytes → List Arg → Option Bytes
vconsolef_from plain [] args = some []
vconsolef_from _ [] args = none
vconsolef_from mode (c ∷ format) args = elim (format_char mode c args) [
  | none ↦ none
  | some (out, mode', args') ↦ printed out (vconsolef_from mode' format args')
]

pub vconsolef : Bytes → List Arg → Option Bytes
vconsolef format args = vconsolef_from plain format args

-- A line of `dumpHex`: up to 16 bytes, their codes and their characters.
pub dump_codes : ℕ → Bytes → Bytes
dump_codes zero buffer = []
dump_codes (suc inner) [] = b' ' ∷ b' ' ∷ b' ' ∷ dump_codes inner []
dump_codes (suc inner) (c ∷ buffer) = print_hex c 2 b'0' ++ b' ' ∷ dump_codes inner buffer

pub dump_chars : ℕ → Bytes → Bytes
dump_chars zero buffer = []
dump_chars (suc inner) [] = []
dump_chars (suc inner) (c ∷ buffer) =
    (if leb b' ' c && leb c 0x7F then c else b'.') ∷ dump_chars inner buffer

pub dump_line : ℕ → Bytes → Bytes
dump_line address buffer =
    print_hex (u16 address) 4 b'0'
    ++ b' ' ∷ b' ' ∷ dump_codes 16 buffer
    ++ b' ' ∷ b'|' ∷ dump_chars 16 buffer
    ++ b'|' ∷ b'\r' ∷ b'\n' ∷ []

-- `dumpHex`, on fuel: a line for every 16 bytes of the buffer, which has `count` of them.
pub dump_hex : ℕ → Bytes → ℕ → Bytes
dump_hex zero buffer address = []
dump_hex (suc fuel) buffer address =
    let rest = dump_hex fuel (drop 16 buffer) (address + 16) in
    if length buffer == 0 then [] else dump_line address buffer ++ rest
