-- ===== src/Init.antt =====
-- sys/init.c: the parameters of the driver in CONFIG.SYS become its environment. A line of CONFIG.SYS is
-- the list of its characters in front of the carriage return or line feed that ends it.
pub mod Options
pub mod Environ
pub mod Bounds
pub mod Command
pub mod Port
mod Tests
use fujinet_msdos.Base.{
  ℕ, zero, suc, ◌+◌, ◌-◌, ◌*◌, Bool, true, false, not, ◌&&◌, ◌||◌, Option, none, some, List, [],
  ◌∷◌, ◌++◌, Bytes, ltb, leb, ◌==◌, if◌then◌else◌, length, get_or, drop,
}

-- `config_env`: the offsets in the table of pointers, as many as there are in front of the null pointer,
-- and the strings that stand behind the table, from `start` on.
pub record ConfigEnv : Type 0 where
  pub table : List ℕ
  pub start : ℕ
  pub text : Bytes

-- The bytes of `config_env`, in sys/header.asm.
abbrev pub config_size : ℕ
config_size = 256

-- The driver's file name, which ends in front of the first character up to the space.
pub skip_name : Bytes → Bytes
skip_name [] = []
skip_name (c ∷ cfg) = if ltb b' ' c then skip_name cfg else c ∷ cfg

pub skip_spaces : Bytes → Bytes
skip_spaces [] = []
skip_spaces (c ∷ cfg) = if c == b' ' then skip_spaces cfg else c ∷ cfg

pub skip_option : Bytes → Bytes
skip_option [] = []
skip_option (c ∷ cfg) = if c == b' ' then c ∷ cfg else skip_option cfg

-- The loop that counts the options, on fuel: each round but the last passes a space.
pub count_options : ℕ → Bytes → ℕ → ℕ
count_options zero cfg count = count
count_options (suc fuel) cfg count = elim (skip_option cfg) [
  | [] ↦ count + 1
  | c ∷ rest ↦ count_options fuel (skip_spaces (c ∷ rest)) (count + 1)
]

-- What the loop over one option leaves: the characters that it has copied, whether there is an equals
-- sign among them, whether the buffer is full, and the rest of the line.
pub record Copied : Type 0 where
  pub content : Bytes
  pub eq_flag : Bool
  pub is_full : Bool
  pub rest : Bytes

-- With room for so many characters.
pub copy_option : Bytes → ℕ → Copied
copy_option [] room = record { content = []; eq_flag = false; is_full = false; rest = [] }
copy_option (c ∷ cfg) room =
    let more = copy_option cfg (room - 1) in
    if c == b' '
    then record { content = []; eq_flag = false; is_full = false; rest = c ∷ cfg }
    else if leb room 1
    then record { content = c ∷ []; eq_flag = c == b'='; is_full = true; rest = c ∷ cfg }
    else record more { content = c ∷ more.content; eq_flag = (c == b'=') || more.eq_flag }

-- The loop over the options, `todo` of which are left. An option that does not fit is left out of the
-- table.
pub convert_options : ℕ → Bytes → ConfigEnv → ConfigEnv
convert_options zero cfg env = env
convert_options (suc todo) cfg env =
    let buf = env.start + length env.text in
    let o = copy_option cfg (config_size - buf) in
    let text = env.text ++ o.content in
    let text' = if o.eq_flag then text else text ++ b'=' ∷ [] in
    let next = record env { table = env.table ++ buf ∷ []; text = text' ++ 0 ∷ [] } in
    let more = convert_options todo (skip_spaces o.rest) next in
    if leb config_size buf
    then env
    else if o.is_full
    then record env { text = text }
    else if not o.eq_flag && leb config_size (env.start + length text')
    then record env { text = text' }
    else more

abbrev pub no_options : ConfigEnv
no_options = record { table = []; start = 2; text = [] }

-- The table, which ends with a null pointer, stands in front of the strings.
pub options_from : Bytes → ConfigEnv
options_from cfg =
    let count = count_options (suc (length cfg)) cfg 0 in
    convert_options count cfg (record { table = []; start = 2 * (count + 1); text = [] })

-- `parse_config` from the options on, where there are any.
pub after_name : Bytes → ConfigEnv
after_name [] = no_options
after_name (c ∷ cfg) =
    if not (c == 0) && not (c == b' ')
    then no_options
    else elim (skip_spaces cfg) [ [] ↦ no_options | d ∷ rest ↦ options_from (d ∷ rest) ]

pub parse_config : Bytes → ConfigEnv
parse_config line = after_name (skip_name line)

-- What `parse_config` returns: the place behind the last string.
abbrev pub used : ConfigEnv → ℕ
used env = env.start + length env.text

-- The string at an offset, up to its final NUL.
pub string_of : Bytes → Bytes
string_of [] = []
string_of (c ∷ cs) = if c == 0 then [] else c ∷ string_of cs

pub strings_at : List ℕ → ConfigEnv → List Bytes
strings_at [] env = []
strings_at (p ∷ ps) env = string_of (drop (p - env.start) env.text) ∷ strings_at ps env

-- The environment, as `getenv` finds it through the table.
pub environ_of : ConfigEnv → List Bytes
environ_of env = strings_at env.table env
