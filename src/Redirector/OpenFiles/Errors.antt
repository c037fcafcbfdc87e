-- ===== src/Redirector/OpenFiles/Errors.antt =====
-- The calls on open files tell why they fail.
use fujinet_msdos.Base.{◌≡◌, ◌<◌, false, inl, inr, arith, Bool, Bool-cases}
use fujinet_msdos.Redirector.Names.{contains_wildcards}
use fujinet_msdos.Redirector.State.{path_not_found, FujiFs, DirRec, Share, Redir, fail, succeed}
use fujinet_msdos.Redirector.State.Told.{IsTold, fail-IsTold, done-IsTold}
use fujinet_msdos.Redirector.OpenFiles.{
  close_file, read_file, write_file, commit_file, lock_file, unlock_file, seek_file, extended_attr,
  Asked, refusal, open_asked, open_found, open_extended,
}

module _ {W : Type 0} (fs : FujiFs W) where
  pub close_file-IsTold : (s : Redir W) → IsTold s → IsTold (close_file fs s)
  unfolding close_file fail
  close_file-IsTold s v =
      let w = v.word in let e = v.error in record { word = ground arith; error = ground arith }

  pub read_file-IsTold : (s : Redir W) → IsTold s → IsTold (read_file fs s)
  unfolding read_file fail
  read_file-IsTold s v =
      let w = v.word in let e = v.error in record { word = ground arith; error = ground arith }

  pub write_file-IsTold : (s : Redir W) → IsTold s → IsTold (write_file fs s)
  unfolding write_file fail
  write_file-IsTold s v =
      let w = v.word in let e = v.error in record { word = ground arith; error = ground arith }

pub seek_file-IsTold : {W : Type 0} (s : Redir W) → s.r.carry ≡ false → IsTold (seek_file s)
unfolding seek_file
seek_file-IsTold s c = record { word = omega arith; error = λ d. cc }

pub extended_attr-IsTold : {W : Type 0} (s : Redir W) → s.r.carry ≡ false → IsTold (extended_attr s)
unfolding extended_attr
extended_attr-IsTold s c = done-IsTold _ c (omega arith)

pub commit_file-IsTold : {W : Type 0} (s : Redir W) → IsTold s → IsTold (commit_file s)
unfolding commit_file
commit_file-IsTold s v = v

pub lock_file-IsTold : {W : Type 0} (s : Redir W) → IsTold s → IsTold (lock_file s)
unfolding lock_file
lock_file-IsTold s v = v

pub unlock_file-IsTold : {W : Type 0} (s : Redir W) → IsTold s → IsTold (unlock_file s)
unfolding unlock_file
unlock_file-IsTold s v = v

refusal_lem : (a : Asked) (exists : Bool) (rec : DirRec) → refusal a exists rec < 65536
unfolding refusal
refusal_lem a exists rec = ground arith

module _ {W : Type 0} (fs : FujiFs W) (share : Share) where
  open_asked-IsTold :
      (a : Asked) (exists : Bool) (s : Redir W) → IsTold (open_asked fs share a exists s)
  unfolding open_asked fail succeed
  open_asked-IsTold a exists s = record { word = ground arith; error = ground arith }

  open_found-IsTold :
      (a : Asked) (exists : Bool) (s : Redir W) → IsTold (open_found fs share a exists s)
  unfolding open_found fail
  open_found-IsTold a exists s =
      let o = open_asked-IsTold a exists s in
      let w = o.word in
      let e = o.error in
      let r = refusal_lem a exists s.dirrec1 in record { word = ground arith; error = ground arith }

  pub open_extended-IsTold : (s : Redir W) → IsTold (open_extended fs share s)
  unfolding open_extended
  open_extended-IsTold s = elim (Bool-cases (contains_wildcards s.fcbname1)) [
    | inl wild ↦ rw (open_extended, wild) (fail-IsTold path_not_found _ (omega arith))
    | inr named ↦ rw (open_extended, named) (open_found-IsTold _ _ _)
  ]
