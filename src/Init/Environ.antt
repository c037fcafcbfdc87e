-- ===== src/Init/Environ.antt =====
-- The options of a line of CONFIG.SYS are found in the environment.
use mathlib.Core.List.{append-nil, append_assoc}
use fujinet_msdos.Base.{
  ℕ, zero, suc, ◌+◌, ◌-◌, ◌*◌, ◌≤◌, ◌≡◌, refl, ap, ◌∙◌, false, List, [], ◌∷◌, ◌++◌, Bytes, arith,
  ◌==◌, length, length-append, drop, map, if_rule,
}
use fujinet_msdos.Init.{
  ConfigEnv, config_size, count_options, options_from, after_name, parse_config, used, string_of,
  strings_at, environ_of,
}
use fujinet_msdos.Init.Options.{
  IsOptionText, IsName, Option', option_text, AllOptions, spaces, join, has_equals, variable_of,
  texts_of, offsets_of, skip_name-append, skip_spaces-spaces, count_options-append,
  convert_options-append,
}

abbrev NoNul : Bytes → Type 0
NoNul [] = Unit {0}
NoNul (c ∷ cs) = ((c == 0) ≡ false) × NoNul cs

NoNul-append : (o p : Bytes) → IsOptionText o → NoNul p → NoNul (o ++ p)
NoNul-append [] p v w = w
NoNul-append (c ∷ o) p (no_space, no_nul, v) w = (no_nul, NoNul-append o p v w)

variable_of-NoNul : (o : Bytes) → IsOptionText o → NoNul (variable_of o)
unfolding variable_of
variable_of-NoNul o v =
    if_rule NoNul (has_equals o) o (o ++ b'=' ∷ []) (λ h. rw append-nil at (NoNul-append o [] v tt))
      (λ h. NoNul-append o (b'=' ∷ []) v (refl, tt))

string_of-append : (v rest : Bytes) → NoNul v → string_of (v ++ 0 ∷ rest) ≡ v
unfolding string_of
string_of-append [] rest h = refl
string_of-append (c ∷ v) rest (no_nul, h) =
    rw (string_of, no_nul) (ap (◌∷◌ c) (string_of-append v rest h))

drop-append : (xs ys : Bytes) (n : ℕ) → n ≡ length xs → drop n (xs ++ ys) ≡ ys
drop-append [] ys zero h = refl
drop-append [] ys (suc n) h = absurd (omega arith)
drop-append (x ∷ xs) ys zero h = absurd (omega arith)
drop-append (x ∷ xs) ys (suc n) h = drop-append xs ys n (omega arith)

strings_at-offsets_of :
    (os : List Option') (env : ConfigEnv) (before : Bytes) (at : ℕ)
    → AllOptions os
    → env.text ≡ before ++ texts_of os
    → at ≡ env.start + length before
    → strings_at (offsets_of at os) env ≡ map (λ o. variable_of (option_text o)) os
unfolding strings_at offsets_of texts_of
strings_at-offsets_of [] env before at vs e h = refl
strings_at-offsets_of (o ∷ os) env before at (v, vs) e h =
    let name = variable_of (option_text o) in
    let here : drop (at - env.start) env.text ≡ name ++ 0 ∷ texts_of os =
      rw e (drop-append before (name ++ 0 ∷ texts_of os) (at - env.start) (omega arith)) in
    let split : env.text ≡ (before ++ (name ++ 0 ∷ [])) ++ texts_of os = e ∙ simp append_assoc in
    let long = length-append before (name ++ 0 ∷ []) in
    let rest =
      strings_at-offsets_of os env (before ++ (name ++ 0 ∷ [])) (at + length name + 1) vs split
        (omega (arith, long, length-append name (0 ∷ []))) in
    rw (here, string_of-append name (texts_of os) (variable_of-NoNul (option_text o) v), rest) refl

length-spaces : (n : ℕ) (cfg : Bytes) → length cfg ≤ length (spaces n cfg)
unfolding spaces
length-spaces zero cfg = omega arith
length-spaces (suc n) cfg = omega (arith, length-spaces n cfg)

length-join : (os : List Option') → length os ≤ length (join os)
unfolding join
length-join [] = omega arith
length-join (o ∷ os) = omega (
  arith,
  length-spaces o.gap (option_text o ++ join os),
  length-append (option_text o) (join os),
  length-join os,
)

-- The options behind the name, where there are any.
options_from-append :
    (o : Option') (os : List Option')
    → AllOptions (o ∷ os)
    → 2 * (length os + 2) + length (texts_of (o ∷ os)) ≤ config_size
    → options_from (option_text o ++ join os) ≡ record {
      table = offsets_of (2 * (length os + 2)) (o ∷ os);
      start = 2 * (length os + 2);
      text = texts_of (o ∷ os);
    }
unfolding options_from offsets_of texts_of
options_from-append o os (v, vs) room =
    let long = length-append (option_text o) (join os) in
    let counted : count_options (suc (length (option_text o ++ join os))) (option_text o ++ join os)
          0
        ≡ suc (length os) =
      count_options-append _ 0 (option_text o) os v vs (omega (arith, long, length-join os))
      ∙ omega arith in
    let base = 2 * (length os + 2) in
    let start_is : 2 * (suc (length os) + 1) ≡ base = omega arith in
    let nothing : base + 0 ≡ base = omega arith in
    let name = variable_of (option_text o) in
    let env : ConfigEnv = record { table = []; start = base; text = [] } in
    rw (counted, start_is)
      (convert_options-append (option_text o) os env v vs
          (omega (arith, length-append name (0 ∷ texts_of os)))
        ∙ rw nothing refl)

after_name-join :
    (o : Option') (os : List Option')
    → IsOptionText (option_text o)
    → after_name (join (o ∷ os)) ≡ options_from (option_text o ++ join os)
unfolding after_name join
after_name-join o os v = rw (skip_spaces-spaces o.gap o.first (o.others ++ join os) v.0) refl

-- A line of CONFIG.SYS with a file name and options of any text without spaces, each behind a
-- space or more, where the table and the strings have room in 256 bytes: the environment has the
-- options, in their order and with an equals sign at the end of those that have none, and the
-- place that is returned is the one behind the last string.
pub parse_config-options :
    (name : Bytes) (os : List Option')
    → IsName name
    → AllOptions os
    → 2 * (length os + 1) + length (texts_of os) ≤ config_size
    → (environ_of (parse_config (name ++ join os)) ≡ map (λ o. variable_of (option_text o)) os)
      × (used (parse_config (name ++ join os)) ≡ 2 * (length os + 1) + length (texts_of os))
unfolding parse_config environ_of
parse_config-options name [] v vs room =
    rw (skip_name-append name [] v) (unfold after_name join texts_of strings_at in (refl, refl))
parse_config-options name (o ∷ os) v (w, vs) room =
    let base = 2 * (length os + 2) in
    let env : ConfigEnv = record {
      table = offsets_of base (o ∷ os);
      start = base;
      text = texts_of (o ∷ os);
    } in
    let found = strings_at-offsets_of (o ∷ os) env [] base (w, vs) refl (omega arith) in
    let made = after_name-join o os w ∙ options_from-append o os (w, vs) (omega arith) in
    rw (skip_name-append name (o ∷ os) v, made) (found, omega arith)
