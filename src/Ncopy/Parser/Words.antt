-- ===== src/Ncopy/Parser/Words.antt =====
-- The command line as its words: `strtok` against a reading of the line from its end.
use fujinet_msdos.Base.{
  ℕ, zero, suc, ◌≡◌, ◌⊎◌, inl, inr, refl, sym, ap, ◌∙◌, false, none, some, List, [], ◌∷◌, Bytes,
  if◌then◌else◌, take, Bool-cases, if_rule,
}
use fujinet_msdos.Ncopy.Parser.{
  cmd_unknown, ParsedCommand, is_delim, get_token, skip_delims, token_of, behind_token, next_token,
  parse_args, parse_command,
}

-- A word in front of words, where it has any letters.
put_word : Bytes → List Bytes → List Bytes
put_word [] ws = ws
put_word (c ∷ w) ws = (c ∷ w) ∷ ws

-- The letters that a text begins with, and the words behind them.
first_letters : Bytes → Bytes × List Bytes
first_letters [] = ([], [])
first_letters (c ∷ text) =
    let (w, ws) = first_letters text in if is_delim c then ([], put_word w ws) else (c ∷ w, ws)

-- The words of a text.
pub words : Bytes → List Bytes
words text = put_word (first_letters text).0 (first_letters text).1

words-skip_delims : (text : Bytes) → words (skip_delims text) ≡ words text
unfolding words first_letters skip_delims put_word
words-skip_delims [] = refl
words-skip_delims (c ∷ text) =
    if_rule (λ t. words t ≡ words (c ∷ text)) (is_delim c) _ _
      (λ at_delim. rw at_delim (words-skip_delims text)) (λ inside. refl)

-- What is left begins with a letter.
skip_delims_head :
    (text : Bytes) (c : ℕ) (rest : Bytes) → skip_delims text ≡ c ∷ rest → is_delim c ≡ false
unfolding skip_delims
skip_delims_head [] c rest = λ e. absurd (cc)
skip_delims_head (d ∷ text) c rest =
    if_rule (λ t. t ≡ c ∷ rest → is_delim c ≡ false) (is_delim d) _ _
      (λ at_delim e. skip_delims_head text c rest e) (λ inside e. cc)

token_of-first_letters : (text : Bytes) → token_of text ≡ (first_letters text).0
unfolding token_of first_letters
token_of-first_letters [] = refl
token_of-first_letters (c ∷ text) = elim (Bool-cases (is_delim c)) [
  | inl at_delim ↦ rw (at_delim) refl
  | inr inside ↦ rw (inside) (ap (◌∷◌ c) (token_of-first_letters text))
]

words-behind_token : (text : Bytes) → words (behind_token text) ≡ (first_letters text).1
unfolding behind_token first_letters words put_word
words-behind_token [] = refl
words-behind_token (c ∷ text) = elim (Bool-cases (is_delim c)) [
  | inl at_delim ↦ rw (at_delim) refl
  | inr inside ↦ rw (inside) (words-behind_token text)
]

words-token_of :
    (c : ℕ) (rest : Bytes)
    → is_delim c ≡ false
    → words (c ∷ rest) ≡ token_of (c ∷ rest) ∷ words (behind_token (c ∷ rest))
unfolding words first_letters put_word token_of behind_token
words-token_of c rest inside = rw (inside) (
    ap (λ w. (c ∷ w) ∷ (first_letters rest).1) (sym (token_of-first_letters rest))
    ∙ ap (λ ws. (c ∷ token_of rest) ∷ ws) (sym (words-behind_token rest)))

-- The next token is the first word, where there is one.
NextWord : Bytes → Type 0
NextWord text =
    ((next_token text ≡ none) × (words text ≡ []))
    ⊎ ((token : Bytes) × (rest : Bytes) × (next_token text ≡ some (token, rest))
        × (words text ≡ token ∷ words rest))

next_token-NextWord : (text : Bytes) → NextWord text
unfolding NextWord next_token words put_word first_letters
next_token-NextWord text = go (skip_delims text) refl
  where
    go : (left : Bytes) → skip_delims text ≡ left → NextWord text
    go [] e = inl (rw (next_token, e) refl, sym (words-skip_delims text) ∙ ap words e)
    go (c ∷ left) e = inr (
      token_of (c ∷ left),
      behind_token (c ∷ left),
      rw (next_token, e) refl,
      sym (words-skip_delims text)
          ∙ ap words e
          ∙ words-token_of c left (skip_delims_head text c left e),
    )

parse_args-words : (places : ℕ) (text : Bytes) → parse_args places text ≡ take places (words text)
unfolding parse_args NextWord
parse_args-words zero text = refl
parse_args-words (suc places) text = elim (next_token-NextWord text) [
  | inl (next, ws) ↦ rw (parse_args, next, ws) refl
  | inr (token, rest, next, ws) ↦
      rw (parse_args, next, ws) (ap (◌∷◌ token) (parse_args-words places rest))
]

-- What the words of a line mean: the command that the first is the name of, and at most eight arguments.
pub parsed_words : List Bytes → ParsedCommand
parsed_words [] = record { cmd = cmd_unknown; args = [] }
parsed_words (w ∷ ws) = record { cmd = get_token w; args = take 8 ws }

-- Cutting a line with `strtok` gives the command that its first word is the name of, the words
-- being read from the end of the line, with the next eight words as arguments; a line without
-- words is an unknown command without arguments.
pub parse_command-words : (text : Bytes) → parse_command text ≡ parsed_words (words text)
unfolding parse_command NextWord parsed_words
parse_command-words text = elim (next_token-NextWord text) [
  | inl (next, ws) ↦ rw (parse_command, next, ws) refl
  | inr (token, rest, next, ws) ↦
      rw (parse_command, next, ws)
        (ap (λ found. record { cmd = get_token token; args = found }) (parse_args-words 8 rest))
]
