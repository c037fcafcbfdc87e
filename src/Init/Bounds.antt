-- ===== src/Init/Bounds.antt =====
-- `parse_config` writes within `config_env`, whatever the line says.
use fujinet_msdos.Base.{
  ℕ, zero, suc, ◌+◌, ◌-◌, ◌*◌, ◌≤◌, ◌<◌, ◌≡◌, false, not, ◌&&◌, List, [], ◌∷◌, ◌++◌, Bytes, arith,
  leb, ◌==◌, if◌then◌else◌, length, length-append, Bool-cases, if_rule, inl, inr,
}
use fujinet_msdos.Init.{
  ConfigEnv, config_size, skip_name, skip_spaces, count_options, copy_option, convert_options,
  no_options, options_from, after_name, parse_config, used,
}

-- Every offset of the table lies behind the table and in front of the end.
abbrev pub Between : ℕ → ℕ → List ℕ → Type 0
Between low high [] = Unit {0}
Between low high (p ∷ ps) = (low ≤ p) × (p < high) × Between low high ps

-- The table with its null pointer ends where the strings begin; the strings lie within the buffer,
-- where the table itself has room.
pub record EnvWithin (env : ConfigEnv) : Type 0 where
  pub table_fits : 2 * (length env.table + 1) ≤ env.start
  pub used_within : env.start ≤ config_size → used env ≤ config_size
  pub between : Between env.start (used env) env.table

copy_option_fits :
    (cfg : Bytes) (room : ℕ)
    → 1 ≤ room
    → (length (copy_option cfg room).content ≤ room)
      × ((copy_option cfg room).is_full ≡ false → length (copy_option cfg room).content < room)
unfolding copy_option
copy_option_fits [] room h = (omega arith, λ x. h)
copy_option_fits (c ∷ cfg) room h = elim (Bool-cases (c == b' ')) [
  | inl space ↦ rw (copy_option, space) (omega arith, λ x. h)
  | inr other ↦ elim (Bool-cases (leb room 1)) [
    | inl last ↦ rw (copy_option, other, last) (h, λ x. cc)
    | inr more ↦
        let (fits, less) = copy_option_fits cfg (room - 1) (ground arith) in
        rw (copy_option, other, more) (ground arith, λ x. ground (arith, less x))
  ]
]

wider-Between :
    (low high high' : ℕ) (ps : List ℕ) → high ≤ high' → Between low high ps → Between low high' ps
wider-Between low high high' [] h b = tt
wider-Between low high high' (p ∷ ps) h (from, to, b) =
    (from, omega arith, wider-Between low high high' ps h b)

Between-append :
    (low high p : ℕ) (ps : List ℕ)
    → low ≤ p
    → p < high
    → Between low high ps
    → Between low high (ps ++ p ∷ [])
Between-append low high p [] from to b = (from, to, tt)
Between-append low high p (q ∷ ps) from to (f, t, b) =
    (f, t, Between-append low high p ps from to b)

-- The invariant of the loop, with `todo` options left.
record IsRoomy (todo : ℕ) (env : ConfigEnv) : Type 0 where
  table_fits : 2 * (length env.table + todo + 1) ≤ env.start
  used_within : env.start ≤ config_size → used env ≤ config_size
  between : Between env.start (used env) env.table

wider-IsRoomy :
    (todo : ℕ) (env : ConfigEnv) (text : Bytes)
    → length env.text ≤ length text
    → env.start + length text ≤ config_size
    → IsRoomy (suc todo) env
    → IsRoomy 0 (record env { text = text })
wider-IsRoomy todo env text longer fits v = record {
  table_fits = omega (arith, v.table_fits);
  used_within = λ x. fits;
  between = wider-Between env.start (used env) _ env.table (omega arith) v.between;
}

-- An option that has found its room, up to the NUL.
next-IsRoomy :
    (todo : ℕ) (env : ConfigEnv) (text : Bytes)
    → length env.text ≤ length text
    → env.start + length text < config_size
    → IsRoomy (suc todo) env
    → IsRoomy todo (record env { table = env.table ++ used env ∷ []; text = text ++ 0 ∷ [] })
next-IsRoomy todo env text longer fits v =
    let long = length-append text (0 ∷ []) in
    record {
      table_fits = omega (arith, v.table_fits, length-append env.table (used env ∷ []));
      used_within = λ x. omega arith;
      between =
          Between-append env.start _ (used env) env.table (omega arith) (omega arith)
            (wider-Between env.start (used env) _ env.table (omega arith) v.between);
    }

convert_options-IsRoomy :
    (todo : ℕ) (cfg : Bytes) (env : ConfigEnv)
    → IsRoomy todo env
    → IsRoomy 0 (convert_options todo cfg env)
unfolding convert_options
convert_options-IsRoomy zero cfg env v = v
convert_options-IsRoomy (suc todo) cfg env v =
    let o = copy_option cfg (config_size - used env) in
    let text = env.text ++ o.content in
    let text' = if o.eq_flag then text else text ++ b'=' ∷ [] in
    let next = record env { table = env.table ++ used env ∷ []; text = text' ++ 0 ∷ [] } in
    let long = length-append env.text o.content in
    let longer = length-append text (b'=' ∷ []) in
    let more = convert_options-IsRoomy todo (skip_spaces o.rest) next in
    if_rule (IsRoomy 0) (leb config_size (used env)) _ _
      (λ full. record {
        table_fits = omega (arith, v.table_fits);
        used_within = v.used_within;
        between = v.between;
      })
      (λ room.
        let fits = copy_option_fits cfg (config_size - used env) (ground arith) in
        if_rule (IsRoomy 0) o.is_full _ _
          (λ over.
            wider-IsRoomy todo env text (omega (arith, long)) (ground (arith, fits.0, long)) v)
          (λ within.
            let less = fits.1 within in
            let small : env.start + length text < config_size = ground (arith, less, long) in
            let grown : length env.text ≤ length text' = ground (arith, long, longer) in
            let sized : env.start + length text' ≤ config_size = ground (arith, small, longer) in
            if_rule (IsRoomy 0) (not o.eq_flag && leb config_size (env.start + length text')) _ _
              (λ over. wider-IsRoomy todo env text' grown sized v)
              (λ ends. more (next-IsRoomy todo env text' grown (ground (arith, small, ends)) v))))

no_options-EnvWithin : EnvWithin no_options
no_options-EnvWithin = record {
  table_fits = omega arith;
  used_within = λ x. omega arith;
  between = tt;
}

options_from-EnvWithin : (cfg : Bytes) → EnvWithin (options_from cfg)
unfolding options_from
options_from-EnvWithin cfg =
    let count = count_options (suc (length cfg)) cfg 0 in
    let fresh : IsRoomy count (record { table = []; start = 2 * (count + 1); text = [] }) = record {
      table_fits = omega arith;
      used_within = λ x. omega arith;
      between = tt;
    } in
    let v =
      convert_options-IsRoomy count cfg (record { table = []; start = 2 * (count + 1); text = [] })
        fresh in
    record {
      table_fits = omega (arith, v.table_fits);
      used_within = v.used_within;
      between = v.between;
    }

skipped-EnvWithin :
    (cfg : Bytes) → EnvWithin (elim cfg [ [] ↦ no_options | d ∷ rest ↦ options_from (d ∷ rest) ])
skipped-EnvWithin [] = no_options-EnvWithin
skipped-EnvWithin (d ∷ rest) = options_from-EnvWithin (d ∷ rest)

after_name-EnvWithin : (cfg : Bytes) → EnvWithin (after_name cfg)
unfolding after_name
after_name-EnvWithin [] = no_options-EnvWithin
after_name-EnvWithin (c ∷ cfg) =
    if_rule EnvWithin (not (c == 0) && not (c == b' ')) no_options _ (λ done. no_options-EnvWithin)
      (λ more. skipped-EnvWithin (skip_spaces cfg))

-- Whatever the line says, the table of pointers and its null pointer end in front of the strings,
-- each pointer leads to a place among the strings, and where the table has room in the 256 bytes,
-- the strings have it.
pub parse_config-EnvWithin : (line : Bytes) → EnvWithin (parse_config line)
unfolding parse_config
parse_config-EnvWithin line = after_name-EnvWithin (skip_name line)
