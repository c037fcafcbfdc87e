-- ===== src/Redirector/Bulk/Errors.antt =====
-- The calls that go through all names tell why they fail.
use fujinet_msdos.Base.{
  ℕ, zero, suc, ◌≡◌, ◌<◌, refl, Bool, true, false, inl, inr, Option, none, some, arith, Bool-cases,
  Option-cases, ◌==◌, ◌>>=◌, if◌then◌else◌,
}
use fujinet_msdos.Redirector.Names.{split_last}
use fujinet_msdos.Redirector.State.{
  FujiFs, Share, Redir, access_denied, attr_read_only, has_bits, fail, succeed,
}
use fujinet_msdos.Redirector.State.Told.{IsTold, fail-IsTold, kept-IsTold}
use fujinet_msdos.Redirector.Search.{find_next, find_first}
use fujinet_msdos.Redirector.Search.Errors.{ResultIsTold, find_next-IsTold, find_first-IsTold}
use fujinet_msdos.Redirector.Bulk.{
  bulk_end, delete_one, delete_turn, bulk_loop, delete_files, rename_one, rename_turn, rename_start,
  rename_files,
}

bulk_end-IsTold :
    {W : Type 0} (ret : ℕ) (s : Redir W) → ret < 65536 → IsTold s → IsTold (bulk_end ret s)
unfolding bulk_end fail succeed
bulk_end-IsTold ret s small v =
    let w = v.word in let e = v.error in record { word = ground arith; error = ground arith }

-- A step behind another.
bind-IsTold :
    {W : Type 0} (r : Option (Redir W)) (next : Redir W → Option (Redir W))
    → ResultIsTold r
    → ((s : Redir W) → IsTold s → ResultIsTold (next s))
    → ResultIsTold (r >>= next)
bind-IsTold none next v f = tt
bind-IsTold (some s) next v f = f s v

-- The three ways out of a round.
round-IsTold :
    {W : Type 0} (over ok : Bool) (last failed : Redir W) (rest : Option (Redir W))
    → IsTold last
    → IsTold failed
    → ResultIsTold rest
    → ResultIsTold (if over then some last else if ok then rest else some failed)
round-IsTold true ok last failed rest a b c = a
round-IsTold false true last failed rest a b c = c
round-IsTold false false last failed rest a b c = b

either_small : (c : Bool) (a b : ℕ) → a < 65536 → b < 65536 → (if c then a else b) < 65536
either_small c a b h k = ground arith

module _ {W : Type 0} (fs : FujiFs W) (share : Share) where
  -- A round leaves the registers as they are.
  pub delete_turn_regs : (s : Redir W) → (delete_turn fs share s).1.r ≡ s.r
  unfolding delete_turn delete_one
  delete_turn_regs s = ground arith

  pub rename_turn_regs : (s : Redir W) → (rename_turn fs share s).1.r ≡ s.r
  unfolding rename_turn rename_one
  rename_turn_regs s = ground arith

  bulk_loop-IsTold :
      (turn : Redir W → Bool × Redir W) (fuel search_fuel ret : ℕ) (s : Redir W)
      → ((t : Redir W) → (turn t).1.r ≡ t.r)
      → ret < 65536
      → IsTold s
      → ResultIsTold (bulk_loop fs share turn fuel search_fuel ret s)
  unfolding bulk_loop
  bulk_loop-IsTold turn zero search_fuel ret s regs small v = tt
  bulk_loop-IsTold turn (suc fuel) search_fuel ret s regs small v =
      round-IsTold _ _ _ _ _ (bulk_end-IsTold ret s small v)
        (fail-IsTold access_denied _ (omega arith))
        (bind-IsTold (find_next fs share search_fuel _) _
          (find_next-IsTold fs share search_fuel _ (kept-IsTold (regs s) v))
          (λ s' v'.
            bulk_loop-IsTold turn fuel search_fuel _ s' regs
              (either_small (has_bits s.dirrec1.attr attr_read_only) access_denied ret (omega arith)
                small)
              v'))

  pub delete_files-IsTold :
      (fuel search_fuel : ℕ) (s : Redir W)
      → IsTold s
      → ResultIsTold (delete_files fs share fuel search_fuel s)
  unfolding delete_files
  delete_files-IsTold fuel search_fuel s v =
      bind-IsTold (find_first fs share search_fuel _) _
        (find_first-IsTold fs share search_fuel _ (kept-IsTold refl v))
        (λ s' v'.
          bulk_loop-IsTold (delete_turn fs share) fuel search_fuel 0 s' delete_turn_regs
            (omega arith) v')

  rename_start-IsTold : (s : Redir W) → IsTold s → ResultIsTold (rename_start fs share s)
  unfolding rename_start
  rename_start-IsTold s v = elim (Option-cases (split_last b'\\' s.filename2)) [
    | inl bare ↦ rw (rename_start, bare) tt
    | inr (parts, e) ↦ rw (rename_start, e) (kept-IsTold refl v)
  ]

  pub rename_files-IsTold :
      (fuel search_fuel : ℕ) (s : Redir W)
      → IsTold s
      → ResultIsTold (rename_files fs share fuel search_fuel s)
  unfolding rename_files
  rename_files-IsTold fuel search_fuel s v =
      bind-IsTold (find_first fs share search_fuel _) _
        (find_first-IsTold fs share search_fuel _ (kept-IsTold refl v))
        (λ s' v'. elim (Bool-cases (s'.r.ax == 0)) [
          | inl found ↦ rw found (
              bind-IsTold (rename_start fs share s') _ (rename_start-IsTold s' v') (λ s2 v2.
                bulk_loop-IsTold (rename_turn fs share) fuel search_fuel 0 s2 rename_turn_regs
                  (omega arith) v2))
          | inr none_found ↦ rw none_found v'
        ])
