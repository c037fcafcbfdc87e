-- ===== src/Redirector/Dispatch/Errors.antt =====
-- Every call that the redirector answers tells DOS whether it failed, and why.
use fujinet_msdos.Base.{
  ℕ, ◌≡◌, refl, Bool, true, false, not, ◌||◌, Option, none, some, arith, ◌==◌, ◌>>=◌, ltb,
  get_elem?, ◌/◌, ◌%◌, if◌then◌else◌,
}
use fujinet_msdos.Redirector.State.{FujiFs, Share, Redir, Regs, access_denied, fail, succeed}
use fujinet_msdos.Redirector.State.Told.{IsTold, fail-IsTold, succeed-IsTold}
use fujinet_msdos.Redirector.Search.Errors.{ResultIsTold, find_next-IsTold, find_first-IsTold}
use fujinet_msdos.Redirector.Directories.Errors.{
  inquiry-IsTold, disk_space-IsTold, remove_dir-IsTold, make_dir-IsTold, chdir-IsTold,
  get_attr-IsTold, set_attr-IsTold,
}
use fujinet_msdos.Redirector.OpenFiles.Errors.{
  close_file-IsTold, read_file-IsTold, write_file-IsTold, commit_file-IsTold, lock_file-IsTold,
  unlock_file-IsTold, extended_attr-IsTold, seek_file-IsTold, open_extended-IsTold,
}
use fujinet_msdos.Redirector.Bulk.Errors.{rename_files-IsTold, delete_files-IsTold}
use fujinet_msdos.Redirector.Dispatch.{
  Proc, unsupported, inquiry_proc, remove_dir_proc, make_dir_proc, chdir_proc, close_file_proc,
  commit_file_proc, read_file_proc, write_file_proc, lock_file_proc, unlock_file_proc,
  disk_space_proc, set_attr_proc, get_attr_proc, rename_files_proc, delete_files_proc,
  open_extended_proc, find_first_proc, find_next_proc, seek_file_proc, extended_attr_proc, Outcome,
  chained, answered, dispatch_table, max_fxn_no, is_unsupported, is_call_for_us, run, serve,
  dispatch, redirector,
}

-- What an outcome, if there is one, tells: a call that is passed on is answered by another program.
abbrev pub OutcomeIsTold : {W : Type 0} → Option (Outcome W) → Type 0
OutcomeIsTold none = Unit {0}
OutcomeIsTold (some (chained s)) = Unit {0}
OutcomeIsTold (some (answered s)) = IsTold s

module _ {W : Type 0} (fs : FujiFs W) (share : Share) (fuel search_fuel : ℕ) where
  run-IsTold :
      (proc : Proc) (s : Redir W)
      → s.r.carry ≡ false
      → IsTold s
      → ResultIsTold (run fs share fuel search_fuel proc s)
  unfolding run
  run-IsTold unsupported s c v = v
  run-IsTold inquiry_proc s c v = inquiry-IsTold s c
  run-IsTold remove_dir_proc s c v = remove_dir-IsTold fs share s v
  run-IsTold make_dir_proc s c v = make_dir-IsTold fs share s v
  run-IsTold chdir_proc s c v = chdir-IsTold fs share s v
  run-IsTold close_file_proc s c v = close_file-IsTold fs s v
  run-IsTold commit_file_proc s c v = commit_file-IsTold s v
  run-IsTold read_file_proc s c v = read_file-IsTold fs s v
  run-IsTold write_file_proc s c v = write_file-IsTold fs s v
  run-IsTold lock_file_proc s c v = lock_file-IsTold s v
  run-IsTold unlock_file_proc s c v = unlock_file-IsTold s v
  run-IsTold disk_space_proc s c v = disk_space-IsTold s c
  run-IsTold set_attr_proc s c v = set_attr-IsTold fs share s c v
  run-IsTold get_attr_proc s c v = get_attr-IsTold fs share s c v
  run-IsTold rename_files_proc s c v = rename_files-IsTold fs share fuel search_fuel s v
  run-IsTold delete_files_proc s c v = delete_files-IsTold fs share fuel search_fuel s v
  run-IsTold open_extended_proc s c v = open_extended-IsTold fs share s
  run-IsTold find_first_proc s c v = find_first-IsTold fs share search_fuel s v
  run-IsTold find_next_proc s c v = find_next-IsTold fs share search_fuel s v
  run-IsTold seek_file_proc s c v = seek_file-IsTold s c
  run-IsTold extended_attr_proc s c v = extended_attr-IsTold s c

  handled-IsTold :
      (r : Option (Redir W)) → ResultIsTold r → OutcomeIsTold (r >>= λ s. some (answered s))
  handled-IsTold none v = tt
  handled-IsTold (some s) v = v

  either-IsTold :
      (c : Bool) (a b : Option (Outcome W))
      → OutcomeIsTold a
      → OutcomeIsTold b
      → OutcomeIsTold (if c then a else b)
  either-IsTold true a b v w = v
  either-IsTold false a b v w = w

  serve-IsTold :
      (proc : Proc) (s : Redir W) → OutcomeIsTold (serve fs share fuel search_fuel proc s)
  unfolding serve
  serve-IsTold proc s =
      either-IsTold s.filename_is_char_device (some (answered (fail access_denied (succeed s)))) _
        (fail-IsTold access_denied (succeed s) (omega arith))
        (handled-IsTold (run fs share fuel search_fuel proc (succeed s))
          (run-IsTold proc (succeed s) (unfold succeed in refl) (succeed-IsTold s)))

  dispatch-IsTold :
      (proc : Option Proc) (regs : Regs) (s : Redir W)
      → OutcomeIsTold (dispatch fs share fuel search_fuel proc regs s)
  unfolding dispatch
  dispatch-IsTold none regs s = tt
  dispatch-IsTold (some proc) regs s =
      let (ours, s') = is_call_for_us share s in
      let asked = record s' { r = regs } in
      either-IsTold (is_unsupported proc) (some (chained s)) _ tt (
        either-IsTold ours (serve fs share fuel search_fuel proc asked) (some (chained s'))
          (serve-IsTold proc asked) tt)

  -- Whatever the network files do, a call that the redirector answers leaves a 16-bit number in
  -- AX, and an error number that is not 0 where the carry flag is set.
  pub redirector-IsTold :
      (regs : Regs) (s : Redir W) → OutcomeIsTold (redirector fs share fuel search_fuel regs s)
  unfolding redirector
  redirector-IsTold regs s =
      either-IsTold (not (regs.ax / 256 == 0x11) || ltb max_fxn_no (regs.ax % 256))
        (some (chained s)) _ tt
        (dispatch-IsTold (get_elem? dispatch_table (regs.ax % 256)) regs
          (record s { curr_fxn = regs.ax % 256 }))
