-- ===== src/Init/Tests.antt =====
-- The initialisation at concrete inputs.
use fujinet_msdos.Base.{
  ◌≡◌, refl, none, some, List, [], ◌∷◌, ◌++◌, Bytes, map, length, arith, ◌+◌, ◌*◌, ◌-◌, ℕ,
}
use fujinet_msdos.Nio.Sample.{Peer, peer_port}
use fujinet_msdos.Driver.Sample.{driver}
use fujinet_msdos.Driver.Config.{Environment}
use fujinet_msdos.Init.{
  skip_name, skip_spaces, skip_option, count_options, copy_option, convert_options, options_from,
  after_name, parse_config, used, string_of, strings_at, environ_of,
}
use fujinet_msdos.Init.Options.{Option', option_text, join, variable_of, texts_of, has_equals}
use fujinet_msdos.Init.Environ.{parse_config-options}
use fujinet_msdos.Init.Bounds.{EnvWithin, parse_config-EnvWithin}
use fujinet_msdos.Init.Command.{InitEnd, init_cmd, Initialised, init_cmd-Initialised}
use fujinet_msdos.Init.Port.{Numerals}

-- `F.SYS`.
abbrev file_name : Bytes
file_name = b'F' ∷ b'.' ∷ b'S' ∷ b'Y' ∷ b'S' ∷ []

-- `A=1` behind a space, and `B` behind two.
abbrev options : List Option'
options =
    record { gap = 0; first = b'A'; others = b'=' ∷ b'1' ∷ [] }
    ∷ record { gap = 1; first = b'B'; others = [] }
    ∷ []

-- A space at the end of the line makes a variable with an empty name.
trailing_space :
    environ_of (parse_config (file_name ++ b' ' ∷ b'A' ∷ b' ' ∷ []))
    ≡ (b'A' ∷ b'=' ∷ []) ∷ (b'=' ∷ []) ∷ []
unfolding environ_of strings_at string_of parse_config after_name options_from skip_name skip_spaces
    skip_option count_options copy_option convert_options
trailing_space = refl

parse_config-options_example :
    (environ_of (parse_config (file_name ++ join options))
      ≡ map (λ o. variable_of (option_text o)) options)
    × (used (parse_config (file_name ++ join options))
        ≡ 2 * (length options + 1) + length (texts_of options))
unfolding texts_of variable_of has_equals
parse_config-options_example =
    parse_config-options file_name options (ground arith) (ground arith) (omega arith)

parse_config-EnvWithin_example : EnvWithin (parse_config (file_name ++ join options))
parse_config-EnvWithin_example = parse_config-EnvWithin (file_name ++ join options)

abbrev no_variables : List Bytes → Environment
no_variables variables = record { getenv = λ name. none; atoi = λ text. 0 }

-- Decimal digits; nothing is hexadecimal here.
abbrev decimal : Bytes → ℕ → ℕ
decimal [] value = value
decimal (c ∷ cs) value = decimal cs (value * 10 + (c - b'0'))

abbrev numerals : Numerals
numerals = record { strtoul = λ text base. decimal text 0; atoi = λ text. decimal text 0 }

init_cmd-Initialised_example :
    (i : InitEnd Peer) × (init_cmd peer_port no_variables numerals 0 60000
        (file_name ++ join options)
        driver
      ≡ some i)
    × Initialised
        (no_variables (environ_of (parse_config (file_name ++ join options))))
        numerals
        0
        i
init_cmd-Initialised_example =
    init_cmd-Initialised peer_port no_variables numerals 0 60000 (file_name ++ join options) driver
