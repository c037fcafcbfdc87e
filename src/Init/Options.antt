-- ===== src/Init/Options.antt =====
-- How `parse_config` takes the options from a line, one by one.
use mathlib.Core.List.{append_assoc}
use fujinet_msdos.Base.{
  ℕ, zero, suc, ◌+◌, ◌-◌, ◌≤◌, ◌<◌, ◌≡◌, refl, ap, ◌∙◌, Bool, true, false, ◌||◌, List, [], ◌∷◌,
  ◌++◌, Bytes, arith, ltb, leb, ◌==◌, if◌then◌else◌, length, length-append, Bool-cases, inl, inr,
}
use fujinet_msdos.Init.{
  ConfigEnv, config_size, skip_name, skip_spaces, skip_option, count_options, copy_option,
  convert_options, used,
}

-- The characters of an option: no space and no NUL.
abbrev pub IsOptionText : Bytes → Type 0
IsOptionText [] = Unit {0}
IsOptionText (c ∷ cs) = ((c == b' ') ≡ false) × ((c == 0) ≡ false) × IsOptionText cs

-- The characters of a file name are above the space.
abbrev pub IsName : Bytes → Type 0
IsName [] = Unit {0}
IsName (c ∷ cs) = (ltb b' ' c ≡ true) × IsName cs

-- An option with its first character apart, behind one space and so many more.
pub record Option' : Type 0 where
  pub gap : ℕ
  pub first : ℕ
  pub others : Bytes

abbrev pub option_text : Option' → Bytes
option_text o = o.first ∷ o.others

abbrev pub AllOptions : List Option' → Type 0
AllOptions [] = Unit {0}
AllOptions (o ∷ os) = IsOptionText (option_text o) × AllOptions os

unfoldable pub spaces : ℕ → Bytes → Bytes
spaces zero cfg = cfg
spaces (suc n) cfg = b' ' ∷ spaces n cfg

-- The part of the line behind the name.
unfoldable pub join : List Option' → Bytes
join [] = []
join (o ∷ os) = b' ' ∷ spaces o.gap (option_text o ++ join os)

unfoldable pub has_equals : Bytes → Bool
has_equals [] = false
has_equals (c ∷ cs) = (c == b'=') || has_equals cs

-- An option without an equals sign gets one at its end.
unfoldable pub variable_of : Bytes → Bytes
variable_of o = if has_equals o then o else o ++ b'=' ∷ []

unfoldable pub texts_of : List Option' → Bytes
texts_of [] = []
texts_of (o ∷ os) = variable_of (option_text o) ++ 0 ∷ texts_of os

unfoldable pub offsets_of : ℕ → List Option' → List ℕ
offsets_of at [] = []
offsets_of at (o ∷ os) = at ∷ offsets_of (at + length (variable_of (option_text o)) + 1) os

pub skip_name-append :
    (name : Bytes) (os : List Option') → IsName name → skip_name (name ++ join os) ≡ join os
unfolding skip_name join
skip_name-append [] [] v = refl
skip_name-append [] (o ∷ os) v = refl
skip_name-append (c ∷ name) os (above, v) = rw (skip_name, above) (skip_name-append name os v)

pub skip_spaces-spaces :
    (n c : ℕ) (cfg : Bytes) → (c == b' ') ≡ false → skip_spaces (spaces n (c ∷ cfg)) ≡ c ∷ cfg
unfolding skip_spaces spaces
skip_spaces-spaces zero c cfg h = rw (skip_spaces, h) refl
skip_spaces-spaces (suc n) c cfg h = skip_spaces-spaces n c cfg h

skip_gap :
    (n c : ℕ) (cfg : Bytes)
    → (c == b' ') ≡ false
    → skip_spaces (b' ' ∷ spaces n (c ∷ cfg)) ≡ c ∷ cfg
unfolding spaces
skip_gap n c cfg h = skip_spaces-spaces (suc n) c cfg h

skip_spaces-join :
    (p : Option') (os : List Option')
    → (p.first == b' ') ≡ false
    → skip_spaces (join (p ∷ os)) ≡ option_text p ++ join os
unfolding join
skip_spaces-join p os h = skip_gap p.gap p.first (p.others ++ join os) h

skip_option-append :
    (o : Bytes) (os : List Option') → IsOptionText o → skip_option (o ++ join os) ≡ join os
unfolding skip_option join
skip_option-append [] [] v = refl
skip_option-append [] (o ∷ os) v = refl
skip_option-append (c ∷ o) os (no_space, no_nul, v) =
    rw (skip_option, no_space) (skip_option-append o os v)

pub count_options-append :
    (fuel count : ℕ) (o : Bytes) (os : List Option')
    → IsOptionText o
    → AllOptions os
    → length os < fuel
    → count_options fuel (o ++ join os) count ≡ count + length os + 1
unfolding count_options join
count_options-append zero count o os v vs h = absurd (omega arith)
count_options-append (suc fuel) count o [] v vs h =
    rw (count_options, skip_option-append o [] v) (omega arith)
count_options-append (suc fuel) count o (p ∷ os) v (w, vs) h =
    let again = count_options-append fuel (count + 1) (option_text p) os w vs (omega arith) in
    rw (count_options, skip_option-append o (p ∷ os) v)
      (rw (skip_gap p.gap p.first (p.others ++ join os) w.0) (again ∙ omega arith))

copy_option-append :
    (o : Bytes) (os : List Option') (room : ℕ)
    → IsOptionText o
    → length o < room
    → copy_option (o ++ join os) room
      ≡ record { content = o; eq_flag = has_equals o; is_full = false; rest = join os }
unfolding copy_option has_equals
copy_option-append [] [] room v h = unfold join in refl
copy_option-append [] (p ∷ os) room v h = unfold join in refl
copy_option-append (c ∷ o) os room (no_space, no_nul, v) h =
    let more = copy_option-append o os (room - 1) v (omega arith) in
    let roomy : leb room 1 ≡ false = ground arith in rw (copy_option, no_space, roomy, more) refl

length-variable_of : (o : Bytes) → length o ≤ length (variable_of o)
unfolding variable_of
length-variable_of o = ground (arith, length-append o (b'=' ∷ []))

-- The environment with one more option.
abbrev with_option : Bytes → ConfigEnv → ConfigEnv
with_option o env = record env {
  table = env.table ++ used env ∷ [];
  text = env.text ++ variable_of o ++ 0 ∷ [];
}

-- One round of the loop.
convert_one :
    (todo : ℕ) (o : Bytes) (os : List Option') (env : ConfigEnv)
    → IsOptionText o
    → used env + length (variable_of o) < config_size
    → convert_options (suc todo) (o ++ join os) env
      ≡ convert_options todo (skip_spaces (join os)) (with_option o env)
unfolding convert_options variable_of
convert_one todo o os env v room =
    let behind = length-append o (b'=' ∷ []) in
    let less : length o < config_size - used env = omega (arith, length-variable_of o) in
    let before : leb config_size (used env) ≡ false = ground arith in
    let copied = copy_option-append o os (config_size - used env) v less in
    elim (Bool-cases (has_equals o)) [
      | inl eq ↦ rw (convert_options, before, copied, eq) refl
      | inr ne ↦
          let sum : length (variable_of o) ≡ length o + 1 = ground (arith, behind) in
          let after : leb config_size (env.start + length (env.text ++ o ++ b'=' ∷ [])) ≡ false =
            ground (arith, length-append (env.text ++ o) (b'=' ∷ []), length-append env.text o) in
          rw (convert_options, before, copied, ne, after, append_assoc env.text o (b'=' ∷ [])) refl
    ]

-- The rest of the options.
pub convert_options-append :
    (o : Bytes) (os : List Option') (env : ConfigEnv)
    → IsOptionText o
    → AllOptions os
    → used env + length (variable_of o) + 1 + length (texts_of os) ≤ config_size
    → convert_options (suc (length os)) (o ++ join os) env ≡ record {
      table = env.table ++ used env ∷ offsets_of (used env + length (variable_of o) + 1) os;
      start = env.start;
      text = env.text ++ (variable_of o ++ 0 ∷ texts_of os);
    }
unfolding texts_of offsets_of
convert_options-append o [] env v vs room =
    convert_one 0 o [] env v (omega arith)
    ∙ unfold convert_options in rw (append_assoc env.text (variable_of o) (0 ∷ []))
convert_options-append o (p ∷ os) env v (w, vs) room =
    let env' = with_option o env in
    let there : used env' ≡ used env + length (variable_of o) + 1 = omega (
      arith,
      length-append (env.text ++ variable_of o) (0 ∷ []),
      length-append env.text (variable_of o),
    ) in
    let next =
      convert_options-append (option_text p) os env' w vs
        (omega (arith, there, length-append (variable_of (option_text p)) (0 ∷ texts_of os))) in
    convert_one (suc (length os)) o (p ∷ os) env v (omega arith)
    ∙ ap (λ t. convert_options (suc (length os)) t env') (skip_spaces-join p os w.0)
    ∙ next
    ∙ rw there (simp (append_assoc))
