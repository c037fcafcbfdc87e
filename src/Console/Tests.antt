-- ===== src/Console/Tests.antt =====
-- The console at concrete inputs.
use fujinet_msdos.Base.{◌≡◌, refl, true, false, none, some, List, [], ◌∷◌, ◌++◌, arith, replicate}
use fujinet_msdos.Console.{
  count_digits, digits_of, pad, hex_char, hex_loop, print_hex, print_dec, word, convert,
  format_char, printed, vconsolef_from, vconsolef, is_digit, dump_hex, dump_line, dump_codes,
  dump_chars,
}
use fujinet_msdos.Console.Digits.{Shown, dec_digit, print_dec-Shown}
use fujinet_msdos.Console.Format.{
  Piece, plain_char, number, char_arg, string_arg, format_of, args_of, output_of, all_of,
  vconsolef-pieces,
}

-- `Unit %02x` of 10.
unit_test :
    vconsolef (b'U' ∷ b' ' ∷ b'%' ∷ b'0' ∷ b'2' ∷ b'x' ∷ []) (word 10 ∷ [])
    ≡ some (b'U' ∷ b' ' ∷ b'0' ∷ b'A' ∷ [])
unfolding vconsolef vconsolef_from format_char convert printed print_hex digits_of count_digits pad
    hex_loop hex_char
unit_test = refl

-- A format that ends with `%` is read past its end.
percent_at_end : vconsolef (b'1' ∷ b'%' ∷ []) [] ≡ none
unfolding vconsolef vconsolef_from format_char printed
percent_at_end = refl

dump_test :
    dump_hex 2 (b'A' ∷ []) 16
    ≡ (b'0' ∷ b'0' ∷ b'1' ∷ b'0' ∷ b' ' ∷ b' ' ∷ b'4' ∷ b'1' ∷ b' ' ∷ replicate 45 b' ')
      ++ (b' ' ∷ b'|' ∷ b'A' ∷ b'|' ∷ b'\r' ∷ b'\n' ∷ [])
unfolding dump_hex dump_line dump_codes dump_chars print_hex digits_of count_digits pad hex_loop
    hex_char
dump_test = refl

print_dec-Shown_example :
    Shown 10 is_digit dec_digit 115200 0 b' ' (print_dec 4294967296 115200 0 b' ')
print_dec-Shown_example =
    print_dec-Shown 4294967296 115200 0 b' ' (omega arith) (omega arith) (omega arith)

-- `Port: %xh  BPS: %ld` and a name.
abbrev pieces : List Piece
pieces =
    number false true false 4 0x3F8
    ∷ plain_char b'h'
    ∷ number true false true 8 115200
    ∷ char_arg b'!'
    ∷ string_arg false (some (b'o' ∷ b'k' ∷ []))
    ∷ plain_char b'\n'
    ∷ []

vconsolef-pieces_example :
    vconsolef (all_of format_of pieces) (all_of args_of pieces) ≡ some (all_of output_of pieces)
vconsolef-pieces_example = vconsolef-pieces pieces (omega arith)
