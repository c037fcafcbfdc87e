-- ===== src/Redirector/Bulk/Total.antt =====
-- `delete_files` ends on directories that are finite.
use fujinet_msdos.Base.{
  ℕ, zero, suc, ◌+◌, ◌≤◌, ◌<◌, ◌≡◌, ◌≢◌, refl, inl, inr, Bool, false, none, arith, Bool-cases, ◌==◌,
  if◌then◌else◌,
}
use fujinet_msdos.Redirector.Names.{fcb_to_path}
use fujinet_msdos.Redirector.State.{
  FujiFs, Share, Redir, access_denied, attr_read_only, no_handle, has_bits,
}
use fujinet_msdos.Redirector.Search.{host_path}
use fujinet_msdos.Redirector.Bulk.{delete_one, delete_turn, bulk_loop, delete_files}
use fujinet_msdos.Redirector.Search.Finite.{
  IsFinite, Stepped, further, ended, find_next-Stepped, IsOpen, Stepped-IsOpen, find_first-IsOpen,
}

module _ {W : Type 0} (fs : FujiFs W) (share : Share) (left : W → ℕ) (n : ℕ)
    (finite : IsFinite fs left n) where
  delete_turn_lem :
      (s : Redir W)
      → ((delete_turn fs share s).1.r ≡ s.r)
        × ((delete_turn fs share s).1.srchrec1 ≡ s.srchrec1)
        × (left (delete_turn fs share s).1.world ≤ left s.world)
  unfolding delete_turn delete_one
  delete_turn_lem s =
      let u =
        finite.unlinks s.world share.fn_host
          (host_path share (fcb_to_path s.filename1 s.dirrec1.fcb_name)) in
      elim (Bool-cases (has_bits s.dirrec1.attr attr_read_only)) [
        | inl read_only ↦ (
          rw (delete_turn, read_only) refl,
          rw (delete_turn, read_only) refl,
          rw (delete_turn, read_only) (omega arith),
        )
        | inr other ↦
            (rw (delete_turn, other) refl, rw (delete_turn, other) refl, rw (delete_turn, other) u)
      ]

  bulk_loop_over :
      (turn : Redir W → Bool × Redir W) (fuel search_fuel ret : ℕ) (s : Redir W)
      → s.r.ax ≢ 0
      → 0 < fuel
      → bulk_loop fs share turn fuel search_fuel ret s ≢ none
  unfolding bulk_loop
  bulk_loop_over turn zero search_fuel ret s ne h = absurd (omega arith)
  bulk_loop_over turn (suc fuel) search_fuel ret s ne h =
      let over : (s.r.ax == 0) ≡ false = ground arith in rw (bulk_loop, over) (λ z. cc)

  bulk_loop_returns :
      (fuel search_fuel ret : ℕ) (s : Redir W)
      → IsOpen s
      → left s.world + 1 < fuel
      → n < search_fuel
      → bulk_loop fs share (delete_turn fs share) fuel search_fuel ret s ≢ none
  unfolding bulk_loop
  bulk_loop_returns zero search_fuel ret s v h k = absurd (omega arith)
  bulk_loop_returns (suc fuel) search_fuel ret s v h k = elim (Bool-cases (s.r.ax == 0)) [
    | inr over ↦ rw (bulk_loop, over) (λ z. cc)
    | inl on ↦ elim (Bool-cases (delete_turn fs share s).0) [
      | inr failed ↦ rw (bulk_loop, on, failed) (λ z. cc)
      | inl ok ↦
          let s1 = (delete_turn fs share s).1 in
          let (regs, same, less) = delete_turn_lem s in
          let is_open : s1.srchrec1.dir_handle ≢ no_handle = rw same (v (ground arith)) in
          let (s', e, step) = find_next-Stepped fs share left n finite search_fuel s1 is_open k in
          let ret' = if has_bits s.dirrec1.attr attr_read_only then access_denied else ret in
          rw (bulk_loop, on, ok, e)
            (go s1 s' ret' (λ v' h'. bulk_loop_returns fuel search_fuel ret' s' v' h' k) is_open
              less step)
    ]
  ]
    where
      go :
          (s1 s' : Redir W) (ret' : ℕ)
          → (IsOpen s'
              → left s'.world + 1 < fuel
              → bulk_loop fs share (delete_turn fs share) fuel search_fuel ret' s' ≢ none)
          → s1.srchrec1.dir_handle ≢ no_handle
          → left s1.world ≤ left s.world
          → Stepped left s1 s'
          → bulk_loop fs share (delete_turn fs share) fuel search_fuel ret' s' ≢ none
      go s1 s' ret' rest is_open less (further e f lower) =
          rest
            (Stepped-IsOpen fs share left n finite {s = s1} {s' = s'} is_open (further e f lower))
            (omega arith)
      go s1 s' ret' rest is_open less (ended ne) =
          bulk_loop_over _ fuel search_fuel ret' s' ne (omega arith)

  -- Deleting files returns when the directories are finite: at most n entries are left to be read
  -- in any state of the host, each reading takes one off, deleting a file adds none, the fuel of
  -- the loop exceeds n + 1 and that of a search exceeds n.
  pub delete_files-ne-none :
      (fuel search_fuel : ℕ) (s : Redir W)
      → n + 1 < fuel
      → n < search_fuel
      → delete_files fs share fuel search_fuel s ≢ none
  unfolding delete_files
  delete_files-ne-none fuel search_fuel s h k =
      let start : Redir W = record s { srch_attr = 0x21 } in
      let (s', e, v) =
        find_first-IsOpen fs share left n finite search_fuel start (λ z. absurd (omega arith)) k in
      let b = finite.bound s'.world in
      rw (delete_files, e) (bulk_loop_returns fuel search_fuel 0 s' v (omega arith) k)
