-- ===== src/Redirector/Directories.antt =====
-- The calls of fnshare/redir.c on directories and on attributes.
pub mod Errors
use fujinet_msdos.Base.{Bool, true, false, not, ◌||◌, [], ◌∷◌, Bytes, ◌==◌, if◌then◌else◌}
use fujinet_msdos.Redirector.Names.{contains_wildcards}
use fujinet_msdos.Redirector.State.{
  FujiFs, Share, Redir, file_not_found, path_not_found, access_denied, file_exists, attr_directory,
  has_bits, fail, succeed, fndirent_to_dirrec,
}
use fujinet_msdos.Redirector.Search.{host_path}

-- The path is `\`.
pub is_root : Bytes → Bool
is_root (c ∷ []) = c == b'\\'
is_root _ = false

module _ {W : Type 0} where
  -- Respond that it is OK to load another redirector.
  pub inquiry : Redir W → Redir W
  inquiry s = record s { r = record (s.r) { ax = 0xFF } }

  pub disk_space : Redir W → Redir W
  disk_space s = record s { r = record (s.r) { ax = 1; bx = 0; dx = 0; cx = 512 } }

module _ {W : Type 0} (fs : FujiFs W) (share : Share) where
  -- The end of remove_dir.
  removed : Redir W → Redir W
  removed s =
      let (err, w) = fs.rmdir s.world share.fn_host (host_path share s.filename1) in
      let s' = record s { world = w } in if err == 0 then succeed s' else fail access_denied s'

  -- The record that is tested is not the one that the entry went to.
  pub remove_dir : Redir W → Redir W
  unfolding is_root removed
  remove_dir s =
      let (err, entry, w) = fs.stat s.world share.fn_host (host_path share s.filename1) in
      let s1 = record s { filename2 = s.filename1; srch_attr = 0x10; world = w } in
      let s2 = record s1 { dirrec1 = fndirent_to_dirrec entry } in
      if is_root s.filename1
      then fail access_denied s
      else if contains_wildcards s.fcbname1
      then fail path_not_found s
      else if not (err == 0)
      then fail path_not_found s1
      else if not (has_bits s2.dirrec2.attr attr_directory)
      then fail access_denied s2
      else removed s2

  made : Redir W → Redir W
  made s =
      let (err, w) = fs.mkdir s.world share.fn_host (host_path share s.filename1) in
      let s' = record s { world = w } in if err == 0 then succeed s' else fail access_denied s'

  -- Where there is no such file, `entry` is what the failed stat left in it.
  pub make_dir : Redir W → Redir W
  unfolding is_root made
  make_dir s =
      let (err, entry, w) = fs.stat s.world share.fn_host (host_path share s.filename1) in
      let s1 = record s { world = w } in
      if is_root s.filename1
      then fail access_denied s
      else if contains_wildcards s.fcbname1
      then fail path_not_found s
      else if err == 0
      then fail file_exists s1
      else made (record s1 { dirrec1 = fndirent_to_dirrec entry })

  pub chdir : Redir W → Redir W
  unfolding is_root
  chdir s =
      let (err, entry, w) = fs.stat s.world share.fn_host (host_path share s.filename1) in
      let s1 = record s { world = w } in
      if is_root s.filename1
      then record s { current_path = s.filename1 }
      else if contains_wildcards s.fcbname1
      then fail path_not_found s
      else if not (err == 0) || not entry.isdir
      then fail access_denied s1
      else record s1 { current_path = s.filename1 }

  pub get_attr : Redir W → Redir W
  get_attr s =
      let (err, entry, w) = fs.stat s.world share.fn_host (host_path share s.filename1) in
      let s1 = record s { world = w } in
      let found = fndirent_to_dirrec entry in
      if contains_wildcards s.fcbname1
      then fail file_not_found s
      else if not (err == 0)
      then fail file_not_found s1
      else record s1 { dirrec1 = found; r = record (s1.r) { ax = found.attr } }

  -- Setting attributes is not supported.
  pub set_attr : Redir W → Redir W
  set_attr s = let s' = get_attr s in if s'.r.carry then s' else fail access_denied s'
