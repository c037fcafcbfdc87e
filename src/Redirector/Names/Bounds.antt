-- ===== src/Redirector/Names/Bounds.antt =====
-- The length of a path on the host.
use fujinet_msdos.Base.{
  ◌+◌, ◌≤◌, ◌<◌, ◌≡◌, ◌||◌, [], ◌∷◌, ◌++◌, Bytes, arith, length, length-append, length-take, take,
  take-append, drop, length-drop, if◌then◌else◌, ◌==◌,
}
use mathlib.Core.List.{append_assoc}
use fujinet_msdos.Redirector.Names.{temp_path_size, is_rooted, copied_length, path_with_volume}

-- The path has room in `temp_path` with its final NUL, and begins with the volume.
pub record IsHostPath (volume path : Bytes) : Type 0 where
  pub within : length path < temp_path_size
  pub starts : take (length volume) path ≡ volume

-- When the volume and the directory of the share are shorter than 255 characters together and the
-- path is shorter than 65000, the path on the host has room in its buffer with the final NUL, and
-- it begins with the volume.
pub path_with_volume-IsHostPath :
    (volume cwd path : Bytes)
    → length volume + length cwd + 2 < temp_path_size
    → length path < 65000
    → IsHostPath volume (path_with_volume volume cwd path)
unfolding path_with_volume copied_length
path_with_volume-IsHostPath volume cwd path fits short =
    let rooted = is_rooted path in
    let here = if rooted || (length cwd == 0) then [] else cwd ++ b'/' ∷ [] in
    let rest = if rooted then drop 1 path else path in
    let count = copied_length (length (volume ++ b'/' ∷ here)) (length rest) in
    let here_within : length here ≤ length cwd + 1 =
      ground (arith, length-append cwd (b'/' ∷ [])) in
    let rest_within : length rest ≤ length path = ground (arith, length-drop 1 path) in
    let prefix_is = length-append volume (b'/' ∷ here) in
    let count_is = length-take count rest in
    record {
      within = ground (arith, length-append (volume ++ b'/' ∷ here) (take count rest));
      starts =
          rw (append_assoc volume (b'/' ∷ here) (take count rest))
            (take-append volume (b'/' ∷ here ++ take count rest));
    }
