-- ===== src/Redirector/Directories/Errors.antt =====
-- The calls on directories and attributes tell why they fail.
use fujinet_msdos.Base.{◌≡◌, false, arith}
use fujinet_msdos.Redirector.State.{FujiFs, Share, Redir, fail, succeed, fndirent_to_dirrec}
use fujinet_msdos.Redirector.State.Told.{IsTold, done-IsTold}
use fujinet_msdos.Redirector.Directories.{
  inquiry, disk_space, removed, remove_dir, made, make_dir, chdir, get_attr, set_attr,
}

pub inquiry-IsTold : {W : Type 0} (s : Redir W) → s.r.carry ≡ false → IsTold (inquiry s)
unfolding inquiry
inquiry-IsTold s c = done-IsTold _ c (omega arith)

pub disk_space-IsTold : {W : Type 0} (s : Redir W) → s.r.carry ≡ false → IsTold (disk_space s)
unfolding disk_space
disk_space-IsTold s c = done-IsTold _ c (omega arith)

module _ {W : Type 0} (fs : FujiFs W) (share : Share) where
  pub remove_dir-IsTold : (s : Redir W) → IsTold s → IsTold (remove_dir fs share s)
  unfolding remove_dir removed fail succeed
  remove_dir-IsTold s v = record { word = ground arith; error = ground arith }

  pub make_dir-IsTold : (s : Redir W) → IsTold s → IsTold (make_dir fs share s)
  unfolding make_dir made fail succeed
  make_dir-IsTold s v = record { word = ground arith; error = ground arith }

  pub chdir-IsTold : (s : Redir W) → IsTold s → IsTold (chdir fs share s)
  unfolding chdir fail
  chdir-IsTold s v =
      let w = v.word in let e = v.error in record { word = ground arith; error = ground arith }

  pub get_attr-IsTold : (s : Redir W) → s.r.carry ≡ false → IsTold s → IsTold (get_attr fs share s)
  unfolding get_attr fail fndirent_to_dirrec
  get_attr-IsTold s c v =
      let w = v.word in let e = v.error in record { word = ground arith; error = ground arith }

  pub set_attr-IsTold : (s : Redir W) → s.r.carry ≡ false → IsTold s → IsTold (set_attr fs share s)
  unfolding set_attr fail
  set_attr-IsTold s c v =
      let g = get_attr-IsTold s c v in
      let w = g.word in let e = g.error in record { word = ground arith; error = ground arith }
