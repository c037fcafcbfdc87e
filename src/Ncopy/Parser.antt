-- ===== src/Ncopy/Parser.antt =====
-- ncopy/parser.c: the commands of the copy program.
pub mod Words
use fujinet_msdos.Base.{
  ℕ, zero, suc, ◌+◌, ◌-◌, Bool, true, false, not, ◌&&◌, ◌||◌, Option, none, some, List, [], ◌∷◌,
  ◌++◌, Bytes, ltb, leb, ◌==◌, if◌then◌else◌,
}

pub data Token : Type 0 where
  cmd_unknown cmd_dir cmd_get cmd_put cmd_cd cmd_exit : Token

-- The command and its arguments from `args[1]` on, in front of the null pointer.
pub record ParsedCommand : Type 0 where
  pub cmd : Token
  pub args : List Bytes

-- DELIM.
pub is_delim : ℕ → Bool
is_delim c = (c == b' ') || (c == b'\t') || (c == b'\r') || (c == b'\n')

pub to_lower : ℕ → ℕ
to_lower c = if leb b'A' c && leb c b'Z' then c + 32 else c

-- `strcasecmp(cmd, name) == 0`; the names of the commands are in lower case.
pub same_name : Bytes → Bytes → Bool
same_name [] [] = true
same_name (c ∷ cmd) (d ∷ name) = (to_lower c == d) && same_name cmd name
same_name _ _ = false

-- `commands`.
abbrev pub commands : List (Bytes × Token)
commands =
    (b'l' ∷ b's' ∷ [], cmd_dir)
    ∷ (b'd' ∷ b'i' ∷ b'r' ∷ [], cmd_dir)
    ∷ (b'g' ∷ b'e' ∷ b't' ∷ [], cmd_get)
    ∷ (b'p' ∷ b'u' ∷ b't' ∷ [], cmd_put)
    ∷ (b'c' ∷ b'd' ∷ [], cmd_cd)
    ∷ (b'q' ∷ b'u' ∷ b'i' ∷ b't' ∷ [], cmd_exit)
    ∷ (b'e' ∷ b'x' ∷ b'i' ∷ b't' ∷ [], cmd_exit)
    ∷ []

pub get_token_from : List (Bytes × Token) → Bytes → Token
get_token_from [] cmd = cmd_unknown
get_token_from ((name, token) ∷ rest) cmd =
    let later = get_token_from rest cmd in if same_name cmd name then token else later

abbrev pub get_token : Bytes → Token
get_token = get_token_from commands

-- `strtok` with these delimiters: a token, and what is left behind the delimiter that ends it.
pub skip_delims : Bytes → Bytes
skip_delims [] = []
skip_delims (c ∷ input) = if is_delim c then skip_delims input else c ∷ input

pub token_of : Bytes → Bytes
token_of [] = []
token_of (c ∷ input) = let rest = token_of input in if is_delim c then [] else c ∷ rest

pub behind_token : Bytes → Bytes
behind_token [] = []
behind_token (c ∷ input) = if is_delim c then input else behind_token input

pub next_token : Bytes → Option (Bytes × Bytes)
next_token input = elim (skip_delims input) [
  | [] ↦ none
  | c ∷ rest ↦ some (token_of (c ∷ rest), behind_token (c ∷ rest))
]

-- The loop over the arguments, with so many places left in `args`, one of its ten for the null pointer.
pub parse_args : ℕ → Bytes → List Bytes
parse_args zero input = []
parse_args (suc places) input = elim (next_token input) [
  | none ↦ []
  | some (token, rest) ↦ token ∷ parse_args places rest
]

abbrev pub max_args : ℕ
max_args = 10

pub parse_command : Bytes → ParsedCommand
parse_command input = elim (next_token input) [
  | none ↦ record { cmd = cmd_unknown; args = [] }
  | some (token, rest) ↦ record { cmd = get_token token; args = parse_args (max_args - 2) rest }
]
