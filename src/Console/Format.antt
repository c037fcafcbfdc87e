-- ===== src/Console/Format.antt =====
-- `vconsolef` prints what its format says.
use mathlib.Core.List.{append_assoc}
use fujinet_msdos.Base.{
  ℕ, zero, suc, ◌+◌, ◌-◌, ◌*◌, ◌<◌, ◌≡◌, ◌≢◌, inl, inr, refl, sym, ap, ◌∙◌, Bool, true, false,
  Option, none, some, List, [], ◌∷◌, ◌++◌, Bytes, u8, arith, ◌==◌, if◌then◌else◌, Bool-cases,
}
use fujinet_msdos.Console.{
  print_hex, print_dec, Arg, word, long, text, far_text, print_string, plain, percent, width_of,
  is_digit, convert, convert_long, convert_char, format_char, printed, vconsolef_from, vconsolef,
}
use fujinet_msdos.Console.Digits.{read_digits, dec_digit, AllDigits, print_dec_plain}

-- A piece of a format: a character, a number of 16 or of 32 bits, in hexadecimal or in decimal, with zeros
-- or spaces in front up to a width, a character as an argument, and a string, near or far.
pub data Piece : Type 0 where
  plain_char : ℕ → Piece
  number : Bool → Bool → Bool → ℕ → ℕ → Piece
  char_arg : ℕ → Piece
  string_arg : Bool → Option Bytes → Piece

-- A plain character is no `%`, and the width fits into a byte.
abbrev pub IsPiece : Piece → Type 0
IsPiece (plain_char c) = c ≢ b'%'
IsPiece (number is_long is_hex zeros width n) = width < 256
IsPiece (char_arg c) = Unit {0}
IsPiece (string_arg is_far str) = Unit {0}

abbrev pub AllPieces : List Piece → Type 0
AllPieces [] = Unit {0}
AllPieces (p ∷ ps) = IsPiece p × AllPieces ps

abbrev width_text : ℕ → Bytes
width_text width = if width == 0 then [] else print_dec 65536 width 0 b' '

abbrev number_end : Bool → Bool → Bytes
number_end is_long is_hex =
    (if is_long then b'l' ∷ [] else []) ++ (if is_hex then b'x' else b'd') ∷ []

-- The piece as it is written in a format, its argument, and what it prints.
pub format_of : Piece → Bytes
format_of (plain_char c) = c ∷ []
format_of (number is_long is_hex zeros width n) =
    b'%' ∷ (if zeros then b'0' ∷ [] else []) ++ (width_text width ++ number_end is_long is_hex)
format_of (char_arg c) = b'%' ∷ b'c' ∷ []
format_of (string_arg is_far str) = b'%' ∷ (if is_far then b'l' ∷ b's' ∷ [] else b's' ∷ [])

pub args_of : Piece → List Arg
args_of (plain_char c) = []
args_of (number is_long is_hex zeros width n) = (if is_long then long n else word n) ∷ []
args_of (char_arg c) = word c ∷ []
args_of (string_arg is_far str) = (if is_far then far_text str else text str) ∷ []

pub output_of : Piece → Bytes
output_of (plain_char c) = if c == b'\n' then b'\r' ∷ b'\n' ∷ [] else c ∷ []
output_of (number is_long is_hex zeros width n) =
    let leader = if zeros then b'0' else b' ' in
    if is_hex
    then print_hex n width leader
    else print_dec (if is_long then 4294967296 else 65536) n width leader
output_of (char_arg c) = u8 c ∷ []
output_of (string_arg is_far str) = print_string str

pub all_of {ℓ} : {A : Type ℓ} → (Piece → List A) → List Piece → List A
all_of f [] = []
all_of f (p ∷ ps) = f p ++ all_of f ps

printed-nil : (o : Option Bytes) → printed [] o ≡ o
unfolding printed
printed-nil none = refl
printed-nil (some out) = refl

printed-append :
    (xs ys : Bytes) (o : Option Bytes) → printed xs (printed ys o) ≡ printed (xs ++ ys) o
unfolding printed
printed-append xs ys none = refl
printed-append xs ys (some out) = ap some (sym (append_assoc xs ys out))

-- The letters of a number, behind its width.
number_conversion :
    (is_long is_hex : Bool) (leader width n : ℕ) (rest : Bytes) (args : List Arg)
    → vconsolef_from
        (width_of leader width)
        (number_end is_long is_hex ++ rest)
        ((if is_long then long n else word n) ∷ args)
      ≡ printed
          (if is_hex
            then print_hex n width leader
            else print_dec (if is_long then 4294967296 else 65536) n width leader)
          (vconsolef_from plain rest args)
unfolding vconsolef_from format_char convert convert_long
number_conversion true true leader width n rest args = printed-nil _
number_conversion true false leader width n rest args = printed-nil _
number_conversion false true leader width n rest args = refl
number_conversion false false leader width n rest args = refl

-- The letters right behind the `%`.
bare_conversion :
    (is_long is_hex : Bool) (n : ℕ) (rest : Bytes) (args : List Arg)
    → vconsolef_from percent
        (number_end is_long is_hex ++ rest)
        ((if is_long then long n else word n) ∷ args)
      ≡ vconsolef_from
          (width_of b' ' 0)
          (number_end is_long is_hex ++ rest)
          ((if is_long then long n else word n) ∷ args)
unfolding vconsolef_from format_char convert convert_long
bare_conversion true true n rest args = refl
bare_conversion true false n rest args = refl
bare_conversion false true n rest args = refl
bare_conversion false false n rest args = refl

-- The digits of the width.
width_digits :
    (leader acc : ℕ) (ds rest : Bytes) (args : List Arg)
    → AllDigits ds
    → vconsolef_from (width_of leader (u8 acc)) (ds ++ rest) args
      ≡ vconsolef_from (width_of leader (u8 (read_digits 10 dec_digit acc ds))) rest args
unfolding vconsolef_from format_char read_digits
width_digits leader acc [] rest args v = refl
width_digits leader acc (d ∷ ds) rest args (digit, v) =
    let wrap : u8 (u8 acc * 10 + (d - b'0')) ≡ u8 (acc * 10 + (d - b'0')) = omega arith in
    rw (vconsolef_from, format_char, digit, printed-nil, wrap)
      (width_digits leader (acc * 10 + (d - b'0')) ds rest args v)

-- The first digit of a width is not `0`.
first_width_digit :
    (d : ℕ) (rest : Bytes) (args : List Arg)
    → is_digit d ≡ true
    → d ≢ b'0'
    → vconsolef_from percent (d ∷ rest) args ≡ vconsolef_from (width_of b' ' (d - b'0')) rest args
unfolding vconsolef_from format_char
first_width_digit d rest args digit ne =
    let no_c : (d == b'c') ≡ false = ground arith in
    let no_zero : (d == b'0') ≡ false = ground arith in
    rw (vconsolef_from, format_char, no_c, no_zero, digit) (printed-nil _)

zero_width :
    (rest : Bytes) (args : List Arg)
    → vconsolef_from percent (b'0' ∷ rest) args ≡ vconsolef_from (width_of b'0' 0) rest args
unfolding vconsolef_from format_char
zero_width rest args = printed-nil _

-- The width, behind the `%` and a `0` where there is one.
width_read :
    (zeros is_long is_hex : Bool) (width n : ℕ) (rest : Bytes) (args : List Arg)
    → width < 256
    → vconsolef_from percent
        ((if zeros then b'0' ∷ [] else [])
          ++ (width_text width ++ (number_end is_long is_hex ++ rest)))
        ((if is_long then long n else word n) ∷ args)
      ≡ vconsolef_from
          (width_of (if zeros then b'0' else b' ') width)
          (number_end is_long is_hex ++ rest)
          ((if is_long then long n else word n) ∷ args)
unfolding read_digits
width_read true is_long is_hex zero n rest args small = zero_width _ _
width_read false is_long is_hex zero n rest args small = bare_conversion is_long is_hex n rest args
width_read true is_long is_hex (suc w) n rest args small =
    let (d, ds, e, ne, (digit, digits), value) =
      print_dec_plain (suc w) b' ' (omega arith) (omega arith) in
    let arg = (if is_long then long n else word n) ∷ args in
    let behind = number_end is_long is_hex ++ rest in
    let same : u8 (read_digits 10 dec_digit 0 (d ∷ ds)) ≡ suc w = rw value (omega arith) in
    let there : width_text (suc w) ≡ d ∷ ds = ground (arith, e) in
    rw there (
      zero_width (d ∷ ds ++ behind) arg
      ∙ width_digits b'0' 0 (d ∷ ds) behind arg (digit, digits)
      ∙ ap (λ t. vconsolef_from (width_of b'0' t) behind arg) same)
width_read false is_long is_hex (suc w) n rest args small =
    let (d, ds, e, ne, (digit, digits), value) =
      print_dec_plain (suc w) b' ' (omega arith) (omega arith) in
    let arg = (if is_long then long n else word n) ∷ args in
    let behind = number_end is_long is_hex ++ rest in
    let same : u8 (read_digits 10 dec_digit 0 (d ∷ ds)) ≡ suc w = rw value (omega arith) in
    let there : width_text (suc w) ≡ d ∷ ds = ground (arith, e) in
    let first : d - b'0' ≡ u8 (0 * 10 + (d - b'0')) = ground arith in
    rw there (
      first_width_digit d (ds ++ behind) arg digit ne
      ∙ ap (λ t. vconsolef_from (width_of b' ' t) (ds ++ behind) arg) first
      ∙ width_digits b' ' (0 * 10 + (d - b'0')) ds behind arg digits
      ∙ ap (λ t. vconsolef_from (width_of b' ' t) behind arg) same)

piece_lem :
    (p : Piece) (rest : Bytes) (args : List Arg)
    → IsPiece p
    → vconsolef_from plain (format_of p ++ rest) (args_of p ++ args)
      ≡ printed (output_of p) (vconsolef_from plain rest args)
unfolding format_of args_of output_of vconsolef_from format_char convert convert_long convert_char
piece_lem (plain_char c) rest args v = elim (Bool-cases (c == b'\n')) [
  | inl line ↦ rw (vconsolef_from, format_char, line) refl
  | inr other ↦
      let no_percent : (c == b'%') ≡ false = ground arith in
      rw (vconsolef_from, format_char, other, no_percent) refl
]
piece_lem (number is_long is_hex zeros width n) rest args v =
    let zero_text : Bytes = if zeros then b'0' ∷ [] else [] in
    let leader = if zeros then b'0' else b' ' in
    printed-nil _
    ∙ rw (append_assoc zero_text, append_assoc (width_text width))
        (width_read zeros is_long is_hex width n rest args v
          ∙ number_conversion is_long is_hex leader width n rest args)
piece_lem (char_arg c) rest args v = printed-nil _
piece_lem (string_arg true str) rest args v = printed-nil _ ∙ printed-nil _
piece_lem (string_arg false str) rest args v = printed-nil _

-- A format that is put together from pieces, with their arguments: `vconsolef` prints the pieces
-- one after the other. The plain characters are no `%`, and the widths are below 256.
pub vconsolef-pieces :
    (ps : List Piece)
    → AllPieces ps
    → vconsolef (all_of format_of ps) (all_of args_of ps) ≡ some (all_of output_of ps)
unfolding vconsolef all_of vconsolef_from printed
vconsolef-pieces [] v = refl
vconsolef-pieces (p ∷ ps) (v, vs) =
    piece_lem p (all_of format_of ps) (all_of args_of ps) v ∙ rw (vconsolef-pieces ps vs) refl
