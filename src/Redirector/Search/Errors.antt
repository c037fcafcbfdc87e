-- ===== src/Redirector/Search/Errors.antt =====
-- The searches tell why they fail.
use fujinet_msdos.Base.{
  ℕ, zero, suc, ◌≡◌, refl, inl, inr, Option, none, some, arith, Bool-cases, ◌==◌, ◌>>=◌,
}
use fujinet_msdos.Redirector.State.{
  Dirent, FujiFs, Share, Redir, attr_volume_label, no_more_files, no_handle,
  unexpected_network_error,
}
use fujinet_msdos.Redirector.State.Told.{IsTold, fail-IsTold, succeed-IsTold, kept-IsTold}
use fujinet_msdos.Redirector.Search.{
  host_path, search_directory, is_wanted, find_loop, find_next, label_found, search_start,
  search_end, find_first,
}

-- What a result, if there is one, tells.
abbrev pub ResultIsTold : {W : Type 0} → Option (Redir W) → Type 0
ResultIsTold none = Unit {0}
ResultIsTold (some s) = IsTold s

module _ {W : Type 0} (fs : FujiFs W) (share : Share) where
  find_loop-IsTold : (fuel : ℕ) (s : Redir W) → IsTold s → ResultIsTold (find_loop fs share fuel s)
  unfolding find_loop
  find_loop-IsTold zero s v = tt
  find_loop-IsTold (suc fuel) s v =
      go (find_loop-IsTold fuel) (fs.readdir s.world s.srchrec1.dir_handle).0 refl
    where
      go :
          ((s' : Redir W) → IsTold s' → ResultIsTold (find_loop fs share fuel s'))
          → (ent : Option Dirent) → (fs.readdir s.world s.srchrec1.dir_handle).0 ≡ ent
          → ResultIsTold (find_loop fs share (suc fuel) s)
      go rest none e = rw (find_loop, e) (fail-IsTold no_more_files _ (omega arith))
      go rest (some ent) e = elim (Bool-cases (is_wanted s.srchrec1 ent)) [
        | inl wanted ↦ rw (find_loop, e, wanted) (kept-IsTold refl v)
        | inr other ↦ rw (find_loop, e, other) (rest _ (kept-IsTold refl v))
      ]

  pub find_next-IsTold :
      (fuel : ℕ) (s : Redir W) → IsTold s → ResultIsTold (find_next fs share fuel s)
  unfolding find_next
  find_next-IsTold fuel s v = elim (Bool-cases (s.srchrec1.dir_handle == no_handle)) [
    | inr opened ↦ rw (find_next, opened) (find_loop-IsTold fuel s v)
    | inl closed ↦
        elim (Bool-cases (
          (fs.opendir s.world share.fn_host (host_path share (search_directory s.filename1))).0
          == 0)) [
            | inl good ↦ rw (find_next, closed, good) (find_loop-IsTold fuel _ (kept-IsTold refl v))
            | inr bad ↦
                rw (find_next, closed, bad) (fail-IsTold unexpected_network_error _ (omega arith))
          ]
  ]

  search_end-IsTold : (s : Redir W) → IsTold s → IsTold (search_end fs share s)
  unfolding search_end
  search_end-IsTold s v =
      let w = v.word in let e = v.error in record { word = ground arith; error = ground arith }

  pub find_first-IsTold :
      (fuel : ℕ) (s : Redir W) → IsTold s → ResultIsTold (find_first fs share fuel s)
  unfolding find_first label_found
  find_first-IsTold fuel s v = elim (Bool-cases (s.srch_attr == attr_volume_label)) [
    | inl label ↦ rw (find_first, label) (succeed-IsTold _)
    | inr file ↦
        rw (find_first, file)
          (go _ (
            find_next-IsTold fuel (search_start fs share s)
              (kept-IsTold (unfold search_start in refl) v)))
  ]
    where
      go :
          (r : Option (Redir W))
          → ResultIsTold r
          → ResultIsTold (r >>= λ s'. some (search_end fs share s'))
      go none v' = tt
      go (some s') v' = search_end-IsTold s' v'
