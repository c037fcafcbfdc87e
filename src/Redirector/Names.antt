-- ===== src/Redirector/Names.antt =====
-- Paths and names of fnshare/redir.c. A string is the list of its characters in front of the final
-- NUL; a name of DOS (an FCB name) is an area of 11 characters, padded with spaces.
pub mod Areas
pub mod RoundTrip
pub mod Bounds
use fujinet_msdos.Base.{
  ℕ, ◌+◌, ◌-◌, Bool, true, false, ◌&&◌, ◌||◌, Option, none, some, [], ◌∷◌, ◌++◌, map, Bytes, u16,
  ltb, leb, ◌==◌, if◌then◌else◌, get_or, set, take, drop, blit, replicate, length,
}

abbrev pub fcbname_length : ℕ
fcbname_length = 11

abbrev pub no_name : Bytes
no_name = replicate fcbname_length b' '

-- `strchr`: what stands in front of the first `c`, and behind it where there is one.
pub split_first : ℕ → Bytes → Bytes × Option Bytes
split_first c [] = ([], none)
split_first c (x ∷ xs) =
    let (front, behind) = split_first c xs in if x == c then ([], some xs) else (x ∷ front, behind)

-- `strrchr`: the same for the last `c`.
pub split_last : ℕ → Bytes → Option (Bytes × Bytes)
split_last c [] = none
split_last c (x ∷ xs) = elim (split_last c xs) [
  | some (front, behind) ↦ some (x ∷ front, behind)
  | none ↦ if x == c then some ([], xs) else none
]

-- The string from its first `c` on, empty where there is none.
pub from_first : ℕ → Bytes → Bytes
from_first c [] = []
from_first c (x ∷ xs) = let rest = from_first c xs in if x == c then x ∷ xs else rest

-- `tolower` of the C locale.
pub tolower : ℕ → ℕ
tolower c = if leb b'A' c && leb c b'Z' then c + 32 else c

any_wildcard : Bytes → Bool
any_wildcard [] = false
any_wildcard (c ∷ cs) = (c == b'?') || any_wildcard cs

pub contains_wildcards : Bytes → Bool
unfolding any_wildcard
contains_wildcards path = any_wildcard (take fcbname_length path)

pub extension : Option Bytes → Bytes
extension none = []
extension (some ext) = ext

pub fcbitize : Bytes → Bytes
unfolding split_first extension
fcbitize source =
    let (base, ext) = split_first b'.' source in
    blit (blit no_name 0 (take 8 base)) 8 (take 3 (extension ext))

-- A mask and a name have 11 characters each.
pub match_to_mask : Bytes → Bytes → Bool
match_to_mask (m ∷ ms) (c ∷ cs) = ((m == c) || (m == b'?')) && match_to_mask ms cs
match_to_mask _ _ = true

slash_of : ℕ → ℕ
unfolding tolower
slash_of c = if c == b'\\' then b'/' else tolower c

-- `sizeof(temp_path)`.
abbrev pub temp_path_size : ℕ
temp_path_size = 257

-- A path of DOS has less than 128 characters, so the copy has its final NUL.
pub undosify_path : Bytes → Bytes
unfolding from_first slash_of
undosify_path path = map slash_of (take temp_path_size (from_first b'\\' path))

-- Whether a path starts at the root of the volume.
is_rooted : Bytes → Bool
is_rooted [] = false
is_rooted (c ∷ cs) = c == b'/'

-- How much of the rest of a path is copied behind a prefix: 16-bit arithmetic, so a prefix that is
-- itself too long makes it large.
copied_length : ℕ → ℕ → ℕ
copied_length prefix len3 =
    if ltb (temp_path_size - 1) (u16 (prefix + len3))
    then u16 (temp_path_size - 1 + 65536 - u16 prefix)
    else len3

-- The path may lie in the buffer that the result is written to: it is moved before the prefix is
-- written.
pub path_with_volume : Bytes → Bytes → Bytes → Bytes
unfolding is_rooted copied_length
path_with_volume volume cwd path =
    let rooted = is_rooted path in
    let here = if rooted || (length cwd == 0) then [] else cwd ++ b'/' ∷ [] in
    let rest = if rooted then drop 1 path else path in
    let prefix = volume ++ b'/' ∷ here in
    prefix ++ take (copied_length (length prefix) (length rest)) rest

-- The path with its last name replaced by an FCB name.
pub name_of_fcb : Bytes → Bytes
unfolding split_first
name_of_fcb fcbname =
    if get_or fcbname 0 0 == b' '
    then take 8 fcbname
    else (split_first b' ' (take 8 fcbname)).0
      ++ b'.' ∷ (split_first b' ' (take 3 (drop 8 fcbname))).0

pub directory_of : Bytes → Bytes
unfolding split_last
directory_of path = elim (split_last b'\\' path) [
  | some (front, behind) ↦ front ++ b'\\' ∷ []
  | none ↦ []
]

pub fcb_to_path : Bytes → Bytes → Bytes
unfolding name_of_fcb directory_of
fcb_to_path path fcbname = directory_of path ++ name_of_fcb fcbname

-- The loop of get_fcbname_from_path, at index `i` of the area. A character behind the area falls
-- into memory that is not modelled.
pub fcbname_loop : Bytes → ℕ → Bytes → Bytes
fcbname_loop [] i fcbname = fcbname
fcbname_loop (c ∷ cs) i fcbname =
    let extended = fcbname_loop cs 8 fcbname in
    let plain = fcbname_loop cs (i + 1) (set fcbname i c) in if c == b'.' then extended else plain

pub get_fcbname_from_path : Bytes → Bytes
unfolding fcbname_loop
get_fcbname_from_path path = fcbname_loop path 0 no_name

-- The loop of rename_files over the new name, in which `*` stands for as many `?` as fit.
pub pattern_loop : Bytes → ℕ → Bytes → Bytes
pattern_loop [] i fcbname = fcbname
pattern_loop (c ∷ cs) i fcbname =
    let j = if ltb i 8 then 8 else fcbname_length in
    let extended = pattern_loop cs 8 fcbname in
    let starred =
      pattern_loop cs (if ltb i j then j else i) (blit fcbname i (replicate (j - i) b'?')) in
    let plain = pattern_loop cs (i + 1) (set fcbname i c) in
    if c == b'.' then extended else if c == b'*' then starred else plain

-- A name through a pattern: each `?` is what the name has there.
pub fill_pattern : Bytes → Bytes → Bytes
fill_pattern (p ∷ ps) (c ∷ cs) = (if p == b'?' then c else p) ∷ fill_pattern ps cs
fill_pattern ps _ = ps

-- `_fmemcmp(...) == 0`.
pub same_bytes : Bytes → Bytes → Bool
same_bytes [] [] = true
same_bytes (a ∷ xs) (b ∷ ys) = (a == b) && same_bytes xs ys
same_bytes _ _ = false
