-- ===== src/Redirector/Bulk.antt =====
-- `rename_files` and `delete_files` of fnshare/redir.c, which go through all names that match.
pub mod Errors
pub mod Total
use fujinet_msdos.Base.{
  ℕ, zero, suc, Bool, true, false, not, Option, none, some, Bytes, u16, ◌==◌, if◌then◌else◌, ◌>>=◌,
}
use fujinet_msdos.Redirector.Names.{
  no_name, split_last, undosify_path, path_with_volume, fcb_to_path, pattern_loop, fill_pattern,
}
use fujinet_msdos.Redirector.State.{
  FujiFs, SrchRec, DirRec, Regs, Share, Redir, access_denied, no_more_files, attr_read_only,
  has_bits, fail, succeed,
}
use fujinet_msdos.Redirector.Search.{host_path, find_next, find_first}

-- The end of both: the end of the search is a success, unless a file was read-only.
pub bulk_end : {W : Type 0} → ℕ → Redir W → Redir W
bulk_end ret s =
    let ax = if s.r.ax == no_more_files then ret else s.r.ax in
    if ax == 0 then succeed s else fail ax s

module _ {W : Type 0} (fs : FujiFs W) (share : Share) where
  -- The file of the record is deleted: false where the call fails.
  pub delete_one : Redir W → Bool × Redir W
  delete_one s =
      let filename = fcb_to_path s.filename1 s.dirrec1.fcb_name in
      let (err, w) = fs.unlink s.world share.fn_host (host_path share filename) in
      let s' = record s { filename1 = filename; world = w } in (err == 0, s')

  -- One round of delete_files: a file that is read-only stays.
  pub delete_turn : Redir W → Bool × Redir W
  delete_turn s = if has_bits s.dirrec1.attr attr_read_only then (true, s) else delete_one s

  -- The loop of delete_files and of rename_files over the names, with the round as an argument. A file
  -- that is read-only is an error at the end. The search of each step has its own fuel.
  pub bulk_loop : (Redir W → Bool × Redir W) → ℕ → ℕ → ℕ → Redir W → Option (Redir W)
  bulk_loop turn zero search_fuel ret s = none
  bulk_loop turn (suc fuel) search_fuel ret s =
      let ret' = if has_bits s.dirrec1.attr attr_read_only then access_denied else ret in
      let (ok, s1) = turn s in
      let rest : Option (Redir W) = (do
        s' ← find_next fs share search_fuel s1
        bulk_loop turn fuel search_fuel ret' s') in
      if not (s.r.ax == 0)
      then some (bulk_end ret s)
      else if ok
      then rest
      else some (fail access_denied s1)

  pub delete_files : ℕ → ℕ → Redir W → Option (Redir W)
  delete_files fuel search_fuel s = do
    s' ← find_first fs share search_fuel (record s { srch_attr = 0x21 })
    bulk_loop delete_turn fuel search_fuel 0 s'

  -- One file is renamed. The paths of DOS give way to a path of the host, and the directory of the
  -- new name to that of the old one.
  pub rename_one : Redir W → Bool × Redir W
  rename_one s =
      let old = fcb_to_path s.filename1 s.dirrec1.fcb_name in
      let new = fcb_to_path s.filename1 s.srchrec2.pattern in
      let (err, w) = fs.rename s.world share.fn_host (host_path share old) (host_path share new) in
      (err == 0, record s { filename1 = host_path share old; filename2 = new; world = w })

  -- One round of rename_files: the new name is the pattern with its `?` filled.
  pub rename_turn : Redir W → Bool × Redir W
  rename_turn s =
      let s0 = record s {
        srchrec2 = record (s.srchrec2) { pattern = fill_pattern s.fcbname2 s.dirrec1.fcb_name };
      } in
      if has_bits s.dirrec1.attr attr_read_only then (true, s0) else rename_one s0

  -- The new name becomes a pattern, and the directory of it is cut off. There is no result where the
  -- new path has no `\`, for the code then follows a null pointer.
  pub rename_start : Redir W → Option (Redir W)
  rename_start s = elim (split_last b'\\' s.filename2) [
    | none ↦ none
    | some (front, name) ↦ some (record s {
      filename2 = front;
      fcbname2 = pattern_loop name 0 no_name;
      srchrec2 = record (s.srchrec2) { pattern = pattern_loop name 0 no_name };
    })
  ]

  pub rename_files : ℕ → ℕ → Redir W → Option (Redir W)
  rename_files fuel search_fuel s = do
    s' ←
        find_first fs share search_fuel
          (record s { srch_attr = 0x21; srchrec2 = record (s.srchrec2) { attr_mask = 0x3F } })
    let renamed : Option (Redir W) = (do
      s2 ← rename_start s'
      bulk_loop rename_turn fuel search_fuel 0 s2)
    if s'.r.ax == 0 then renamed else some s'
