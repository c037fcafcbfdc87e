-- ===== src/Redirector/Search/Finite.antt =====
-- A search ends on directories that are finite.
use fujinet_msdos.Base.{
  ℕ, zero, suc, ◌≤◌, ◌<◌, ◌≡◌, ◌≢◌, refl, ◌∙◌, inl, inr, false, Option, none, some, Bytes, arith,
  Bool-cases, ◌==◌, u8,
}
use fujinet_msdos.Redirector.Names.{fcbitize}
use fujinet_msdos.Redirector.State.{
  fndirent_to_dirrec, Dirent, FujiFs, Share, Redir, no_more_files, unexpected_network_error,
  attr_volume_label, no_handle, fail,
}
use fujinet_msdos.Redirector.Search.{
  is_wanted, host_path, search_directory, find_loop, find_next, search_start, search_end,
  find_first,
}

-- What is relied on of the directories of a host: `n` entries at most are left to be read, each reading
-- takes one, and deleting a file adds none.
pub record IsFinite {W : Type 0} (fs : FujiFs W) (left : W → ℕ) (n : ℕ) : Type 0 where
  pub bound : (w : W) → left w ≤ n
  pub reads :
      (w : W) (handle : ℕ) (e : Dirent)
      → (fs.readdir w handle).0 ≡ some e
      → left (fs.readdir w handle).1 < left w
  pub unlinks : (w : W) (host : ℕ) (path : Bytes) → left (fs.unlink w host path).1 ≤ left w

-- A step of a search: an entry less is left and the directory is still open, or the call has failed.
pub data Stepped {W : Type 0} (left : W → ℕ) (s s' : Redir W) : Type 0 where
  further : s'.r ≡ s.r → s'.srchrec1 ≡ s.srchrec1 → left s'.world < left s.world → Stepped left s s'
  ended : s'.r.ax ≢ 0 → Stepped left s s'

pub one_less :
    {W : Type 0} {left : W → ℕ} {s s1 s' : Redir W}
    → s1.r ≡ s.r
    → s1.srchrec1 ≡ s.srchrec1
    → left s1.world ≤ left s.world
    → Stepped left s1 s'
    → Stepped left s s'
one_less e f h (further e' f' h') = further (e' ∙ e) (f' ∙ f) (omega arith)
one_less e f h (ended ne) = ended ne

-- A search that has found something has its directory open.
abbrev pub IsOpen : {W : Type 0} → Redir W → Type 0
IsOpen s = s.r.ax ≡ 0 → s.srchrec1.dir_handle ≢ no_handle

module _ {W : Type 0} (fs : FujiFs W) (share : Share) (left : W → ℕ) (n : ℕ)
    (finite : IsFinite fs left n) where
  find_loop-Stepped :
      (fuel : ℕ) (s : Redir W)
      → left s.world < fuel
      → (s' : Redir W) × (find_loop fs share fuel s ≡ some s') × Stepped left s s'
  unfolding find_loop fail
  find_loop-Stepped zero s h = absurd (omega arith)
  find_loop-Stepped (suc fuel) s h =
      go (find_loop-Stepped fuel) (fs.readdir s.world s.srchrec1.dir_handle).0 refl
    where
      go :
          ((s1 : Redir W)
            → left s1.world < fuel
            → (s' : Redir W) × (find_loop fs share fuel s1 ≡ some s') × Stepped left s1 s')
          → (ent : Option Dirent) → (fs.readdir s.world s.srchrec1.dir_handle).0 ≡ ent
          → (s' : Redir W) × (find_loop fs share (suc fuel) s ≡ some s') × Stepped left s s'
      go rest none e =
          let closed : Redir W = record s {
            world = fs.closedir (fs.readdir s.world s.srchrec1.dir_handle).1 s.srchrec1.dir_handle;
            srchrec1 = record (s.srchrec1) { dir_handle = no_handle };
          } in
          (fail no_more_files closed, rw (find_loop, e) refl, ended (λ z. ground arith))
      go rest (some ent) e =
          let less = finite.reads s.world s.srchrec1.dir_handle ent e in
          let w = (fs.readdir s.world s.srchrec1.dir_handle).1 in
          elim (Bool-cases (is_wanted s.srchrec1 ent)) [
            | inl wanted ↦ (
              record s { world = w; dirrec1 = fndirent_to_dirrec ent },
              rw (find_loop, e, wanted) refl,
              further refl refl less,
            )
            | inr other ↦
                let passed : Redir W = record s {
                  world = w;
                  dirrec1 = record (s.dirrec1) { fcb_name = fcbitize ent.name };
                } in
                let (s', e', v) = rest passed (omega arith) in
                (s', rw (find_loop, e, other, e') refl, one_less refl refl (omega arith) v)
          ]

  pub find_next-Stepped :
      (fuel : ℕ) (s : Redir W)
      → s.srchrec1.dir_handle ≢ no_handle
      → n < fuel
      → (s' : Redir W) × (find_next fs share fuel s ≡ some s') × Stepped left s s'
  unfolding find_next
  find_next-Stepped fuel s is_open h =
      let b = finite.bound s.world in
      let (s', e, v) = find_loop-Stepped fuel s (omega arith) in
      let opened : (s.srchrec1.dir_handle == no_handle) ≡ false = ground arith in
      (s', rw (find_next, opened, e) refl, v)

  pub Stepped-IsOpen :
      {s s' : Redir W} → s.srchrec1.dir_handle ≢ no_handle → Stepped left s s' → IsOpen s'
  Stepped-IsOpen is_open (further e f h) = λ z. rw f is_open
  Stepped-IsOpen is_open (ended ne) = λ z. absurd (ne z)

  search_end-IsOpen : (s : Redir W) → IsOpen s → IsOpen (search_end fs share s)
  unfolding search_end
  search_end-IsOpen s v = ground arith

  fail-IsOpen : (s : Redir W) → IsOpen (fail unexpected_network_error s)
  unfolding fail
  fail-IsOpen s = λ z. absurd (omega arith)

  pub find_first-IsOpen :
      (fuel : ℕ) (s : Redir W)
      → s.srch_attr ≢ attr_volume_label
      → n < fuel
      → (s' : Redir W) × (find_first fs share fuel s ≡ some s') × IsOpen s'
  unfolding find_first find_next search_start
  find_first-IsOpen fuel s file h =
      let start = search_start fs share s in
      let opening =
        fs.opendir start.world share.fn_host (host_path share (search_directory s.filename1)) in
      let plain : (s.srch_attr == attr_volume_label) ≡ false = ground arith in
      elim (Bool-cases (opening.0 == 0)) [
        | inl good ↦
            let opened : Redir W = record start {
              world = opening.2;
              srchrec1 = record (start.srchrec1) { dir_handle = u8 opening.1 };
            } in
            let b = finite.bound opened.world in
            let (s', e, v) = find_loop-Stepped fuel opened (omega arith) in
            (
              search_end fs share s',
              rw (find_first, plain, find_next, good, e) refl,
              search_end-IsOpen s' (Stepped-IsOpen {s = opened} (λ z. omega arith) v),
            )
        | inr bad ↦ (
          search_end fs share (fail unexpected_network_error (record start { world = opening.2 })),
          rw (find_first, plain, find_next, bad) refl,
          search_end-IsOpen _ (fail-IsOpen _),
        )
      ]
