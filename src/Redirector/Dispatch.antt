-- ===== src/Redirector/Dispatch.antt =====
-- The entry of fnshare/redir.c: the table of its functions, the test whose drive a call is for, and the
-- call itself.
pub mod Errors
use fujinet_msdos.Base.{
  ℕ, Bool, true, false, not, ◌&&◌, ◌||◌, Option, none, some, Bytes, bit_and, List, [], ◌∷◌,
  get_elem?, take, length, ltb, leb, ◌==◌, if◌then◌else◌, ◌%◌, ◌/◌, ◌>>=◌,
}
use fujinet_msdos.Redirector.Names.{same_bytes, split_last, get_fcbname_from_path}
use fujinet_msdos.Redirector.State.{
  FujiFs, SftRec, SrchRec, Regs, Share, Redir, access_denied, has_bits, fail, succeed,
}
use fujinet_msdos.Redirector.Search.{find_next, find_first}
use fujinet_msdos.Redirector.Directories.{
  inquiry, disk_space, remove_dir, make_dir, chdir, get_attr, set_attr,
}
use fujinet_msdos.Redirector.OpenFiles.{
  close_file, commit_file, read_file, write_file, lock_file, unlock_file, seek_file, extended_attr,
  open_extended,
}
use fujinet_msdos.Redirector.Bulk.{rename_files, delete_files}

-- The entries of `dispatch_table`.
pub data Proc : Type 0 where
  unsupported : Proc
  inquiry_proc remove_dir_proc make_dir_proc chdir_proc close_file_proc commit_file_proc : Proc
  read_file_proc write_file_proc lock_file_proc unlock_file_proc disk_space_proc : Proc
  set_attr_proc get_attr_proc rename_files_proc delete_files_proc open_extended_proc : Proc
  find_first_proc find_next_proc seek_file_proc extended_attr_proc : Proc

is_unsupported : Proc → Bool
is_unsupported unsupported = true
is_unsupported _ = false

abbrev pub dispatch_table : List Proc
dispatch_table =
    inquiry_proc ∷ remove_dir_proc ∷ unsupported ∷ make_dir_proc ∷ unsupported ∷ chdir_proc
    ∷ close_file_proc ∷ commit_file_proc ∷ read_file_proc ∷ write_file_proc ∷ lock_file_proc
    ∷ unlock_file_proc ∷ disk_space_proc ∷ unsupported ∷ set_attr_proc ∷ get_attr_proc ∷ unsupported
    ∷ rename_files_proc ∷ unsupported ∷ delete_files_proc ∷ unsupported ∷ unsupported
    ∷ open_extended_proc ∷ open_extended_proc ∷ unsupported ∷ unsupported ∷ unsupported
    ∷ find_first_proc ∷ find_next_proc ∷ unsupported ∷ unsupported ∷ unsupported ∷ unsupported
    ∷ seek_file_proc ∷ unsupported ∷ unsupported ∷ unsupported ∷ unsupported ∷ unsupported
    ∷ unsupported ∷ unsupported ∷ unsupported ∷ unsupported ∷ unsupported ∷ unsupported
    ∷ extended_attr_proc ∷ open_extended_proc ∷ []

-- `MAX_FXN_NO`.
abbrev pub max_fxn_no : ℕ
max_fxn_no = 47

-- The numbers of the calls on files that are open.
on_open_file : ℕ → Bool
on_open_file fxn = leb 6 fxn && leb fxn 11 || (fxn == 0x21) || (fxn == 0x2D)

-- A path of the drive has a `\`.
name_in : Bytes → Bytes
name_in path = elim (split_last b'\\' path) [ some (front, name) ↦ name | none ↦ path ]

module _ {W : Type 0} (share : Share) where
  pub generate_fcbname : Redir W → Redir W
  unfolding name_in
  generate_fcbname s =
      let name = get_fcbname_from_path (name_in s.filename1) in
      record s { fcbname1 = name; filename_is_char_device = share.is_a_character_device name }

  pub is_call_for_us : Redir W → Bool × Redir W
  unfolding on_open_file
  is_call_for_us s =
      let s1 = record s { filename_is_char_device = false } in
      let root = share.cds_path_root in
      if on_open_file s.curr_fxn
      then (bit_and s.sft.dev_info_word 0x3F == share.fn_drive_num, s1)
      else if s.curr_fxn == 0
      then (true, s1)
      else if s.curr_fxn == 0x1C
      then (
        has_bits s.srchrec1.drive_num 0x40
            && (bit_and s.srchrec1.drive_num 0x1F == share.fn_drive_num),
        s1,
      )
      else if same_bytes (take (length root) s.cds) root
      then (true, if s.curr_fxn == 0x0C then s1 else generate_fcbname s1)
      else (false, s1)

-- A call is passed on to the next handler, or answered.
pub data Outcome (W : Type 0) : Type 0 where
  chained : Redir W → Outcome W
  answered : Redir W → Outcome W

module _ {W : Type 0} (fs : FujiFs W) (share : Share) (fuel search_fuel : ℕ) where
  pub run : Proc → Redir W → Option (Redir W)
  run unsupported s = some s
  run inquiry_proc s = some (inquiry s)
  run remove_dir_proc s = some (remove_dir fs share s)
  run make_dir_proc s = some (make_dir fs share s)
  run chdir_proc s = some (chdir fs share s)
  run close_file_proc s = some (close_file fs s)
  run commit_file_proc s = some (commit_file s)
  run read_file_proc s = some (read_file fs s)
  run write_file_proc s = some (write_file fs s)
  run lock_file_proc s = some (lock_file s)
  run unlock_file_proc s = some (unlock_file s)
  run disk_space_proc s = some (disk_space s)
  run set_attr_proc s = some (set_attr fs share s)
  run get_attr_proc s = some (get_attr fs share s)
  run rename_files_proc s = rename_files fs share fuel search_fuel s
  run delete_files_proc s = delete_files fs share fuel search_fuel s
  run open_extended_proc s = some (open_extended fs share s)
  run find_first_proc s = find_first fs share search_fuel s
  run find_next_proc s = find_next fs share search_fuel s
  run seek_file_proc s = some (seek_file s)
  run extended_attr_proc s = some (extended_attr s)

  -- A call that is ours. A name that is a device is refused.
  serve : Proc → Redir W → Option (Outcome W)
  serve proc s =
      let handled : Option (Outcome W) = (do s' ← run proc (succeed s); some (answered s')) in
      if s.filename_is_char_device
      then some (answered (fail access_denied (succeed s)))
      else handled

  -- What is known of the entry that the code takes from the table: nothing, behind its end.
  dispatch : Option Proc → Regs → Redir W → Option (Outcome W)
  dispatch none regs s = none
  dispatch (some proc) regs s =
      let (ours, s') = is_call_for_us share s in
      let served = serve proc (record s' { r = regs }) in
      if is_unsupported proc then some (chained s) else if ours then served else some (chained s')

  -- `redirector`, called with the registers `regs`.
  pub redirector : Regs → Redir W → Option (Outcome W)
  redirector regs s =
      let fxn = regs.ax % 256 in
      let taken = dispatch (get_elem? dispatch_table fxn) regs (record s { curr_fxn = fxn }) in
      if not (regs.ax / 256 == 0x11) || ltb max_fxn_no fxn then some (chained s) else taken
