-- ===== src/Redirector/Search/Listing.antt =====
-- A search through the directory of a host that lists it entry by entry.
use fujinet_msdos.Base.{
  ℕ, zero, suc, ◌<◌, ◌≡◌, ◌≢◌, refl, ap, inl, inr, true, false, none, some, List, [], ◌∷◌, ◌++◌,
  arith, length, Bool-cases, ◌==◌, u8,
}
use fujinet_msdos.Redirector.Names.{fcbitize}
use fujinet_msdos.Redirector.State.{
  Dirent, FujiFs, SrchRec, Regs, Share, Redir, file_not_found, no_more_files, attr_volume_label,
  no_handle, fail, fndirent_to_dirrec,
}
use fujinet_msdos.Redirector.Search.{
  is_wanted, host_path, search_directory, find_loop, find_next, search_start, search_end,
  find_first,
}
use fujinet_msdos.Redirector.Search.Shown.{IsShown, is_wanted-IsShown, is_wanted_not-IsShown}

-- What is relied on of the directory at a handle: it has a list of entries, and each reading takes
-- the first one off, until there is none.
pub record IsListing {W : Type 0} (fs : FujiFs W) (handle : ℕ) (entries : W → List Dirent)
    : Type 0 where
  pub read_end : (w : W) → entries w ≡ [] → (fs.readdir w handle).0 ≡ none
  pub read_entry :
      (w : W) (e : Dirent) (es : List Dirent)
      → entries w ≡ e ∷ es
      → ((fs.readdir w handle).0 ≡ some e) × (entries (fs.readdir w handle).1 ≡ es)

-- No entry of the list is one that the search is after.
abbrev pub NoneShown : SrchRec → List Dirent → Type 0
NoneShown srchrec [] = Unit {0}
NoneShown srchrec (e ∷ es) = (IsShown srchrec e → ⊥) × NoneShown srchrec es

-- The first entry that the search is after is in the record, and those behind it are left.
pub record Hit {W : Type 0} (entries : W → List Dirent) (srchrec : SrchRec) (regs : Regs)
    (listed : List Dirent) (s' : Redir W) : Type 0 where
  pub skipped : List Dirent
  pub entry : Dirent
  pub split : listed ≡ skipped ++ entry ∷ entries s'.world
  pub none_before : NoneShown srchrec skipped
  pub shown : IsShown srchrec entry
  pub record_is : s'.dirrec1 ≡ fndirent_to_dirrec entry
  pub search_is : s'.srchrec1 ≡ srchrec
  pub regs_are : s'.r ≡ regs

-- There is no such entry: the search is closed, and the call fails with the error.
pub record Miss {W : Type 0} (srchrec : SrchRec) (listed : List Dirent) (error : ℕ) (s' : Redir W)
    : Type 0 where
  pub none_listed : NoneShown srchrec listed
  pub closed : s'.srchrec1.dir_handle ≡ no_handle
  pub error_is : s'.r.ax ≡ error
  pub fails : s'.r.carry ≡ true

pub data Searched {W : Type 0} (entries : W → List Dirent) (srchrec : SrchRec) (regs : Regs)
    (listed : List Dirent) (error : ℕ) (s' : Redir W) : Type 0 where
  hit : Hit entries srchrec regs listed s' → Searched entries srchrec regs listed error s'
  miss : Miss srchrec listed error s' → Searched entries srchrec regs listed error s'

-- An entry that is passed over in front of a search.
one_more :
    {W : Type 0} {entries : W → List Dirent} {srchrec : SrchRec} {regs : Regs} {es : List Dirent}
    {error : ℕ} {s' : Redir W} (e : Dirent)
    → (IsShown srchrec e → ⊥)
    → Searched entries srchrec regs es error s'
    → Searched entries srchrec regs (e ∷ es) error s'
one_more e masked (hit h) = hit (record {
  skipped = e ∷ h.skipped;
  entry = h.entry;
  split = let x = h.split in cc;
  none_before = (masked, h.none_before);
  shown = h.shown;
  record_is = h.record_is;
  search_is = h.search_is;
  regs_are = h.regs_are;
})
one_more e masked (miss m) = miss (record {
  none_listed = (masked, m.none_listed);
  closed = m.closed;
  error_is = m.error_is;
  fails = m.fails;
})

module _ {W : Type 0} (fs : FujiFs W) (share : Share) (entries : W → List Dirent) where
  abbrev LoopSearches : ℕ → Redir W → List Dirent → Type 0
  LoopSearches fuel s es =
      (s' : Redir W) × (find_loop fs share fuel s ≡ some s')
      × Searched entries s.srchrec1 s.r es no_more_files s'

  find_loop-Searched :
      (es : List Dirent) (fuel : ℕ) (s : Redir W)
      → IsListing fs s.srchrec1.dir_handle entries
      → entries s.world ≡ es
      → length es < fuel
      → LoopSearches fuel s es
  unfolding find_loop fail
  find_loop-Searched es zero s law is h = absurd (omega arith)
  find_loop-Searched [] (suc fuel) s law is h =
      let e = law.read_end s.world is in
      let closed : Redir W = record s {
        world = fs.closedir (fs.readdir s.world s.srchrec1.dir_handle).1 s.srchrec1.dir_handle;
        srchrec1 = record (s.srchrec1) { dir_handle = no_handle };
      } in
      (
        fail no_more_files closed,
        rw (find_loop, e) refl,
        miss (record { none_listed = tt; closed = refl; error_is = refl; fails = refl }),
      )
  find_loop-Searched (e ∷ es) (suc fuel) s law is h =
      let (read, left) = law.read_entry s.world e es is in
      let w = (fs.readdir s.world s.srchrec1.dir_handle).1 in
      elim (Bool-cases (is_wanted s.srchrec1 e)) [
        | inl wanted ↦ (
          record s { world = w; dirrec1 = fndirent_to_dirrec e },
          rw (find_loop, read, wanted) refl,
          hit (record {
            skipped = [];
            entry = e;
            split = let x = left in cc;
            none_before = tt;
            shown = is_wanted-IsShown s.srchrec1 e wanted;
            record_is = refl;
            search_is = refl;
            regs_are = refl;
          }),
        )
        | inr other ↦
            let passed : Redir W = record s {
              world = w;
              dirrec1 = record (s.dirrec1) { fcb_name = fcbitize e.name };
            } in
            let (s', e', v) = find_loop-Searched es fuel passed law left (omega arith) in
            (
              s',
              rw (find_loop, read, other, e') refl,
              one_more e (is_wanted_not-IsShown s.srchrec1 e other) v,
            )
      ]

  -- A further search in an open directory that lists its entries one by one returns when the fuel
  -- exceeds the number of entries left. Either the record holds the next entry whose name matches
  -- the pattern and that is no directory unless one is asked for, the registers are as they were,
  -- and the entries behind it are left; or no entry left is such, the search is closed, and the
  -- call fails with error 18.
  pub find_next-Searched :
      (fuel : ℕ) (s : Redir W)
      → s.srchrec1.dir_handle ≢ no_handle
      → IsListing fs s.srchrec1.dir_handle entries
      → length (entries s.world) < fuel
      → (s' : Redir W) × (find_next fs share fuel s ≡ some s')
        × Searched entries s.srchrec1 s.r (entries s.world) no_more_files s'
  unfolding find_next
  find_next-Searched fuel s is_open law h =
      let (s', e, v) = find_loop-Searched (entries s.world) fuel s law refl h in
      let opened : (s.srchrec1.dir_handle == no_handle) ≡ false = ground arith in
      (s', rw (find_next, opened, e) refl, v)

  -- The search that find_first begins.
  abbrev pub begun : Redir W → ℕ → SrchRec
  begun s handle = record ((search_start fs share s).srchrec1) { dir_handle = handle }

  end-Searched :
      {srchrec : SrchRec} {regs : Regs} {es : List Dirent} (s' : Redir W)
      → regs.ax ≡ 0
      → Searched entries srchrec regs es no_more_files s'
      → Searched entries srchrec regs es file_not_found (search_end fs share s')
  unfolding search_end
  end-Searched s' zero_ax (hit h) =
      let r = h.regs_are in
      let other : (s'.r.ax == no_more_files) ≡ false = rw r (rw zero_ax refl) in
      rw other (
        hit (record {
          skipped = h.skipped;
          entry = h.entry;
          split = h.split;
          none_before = h.none_before;
          shown = h.shown;
          record_is = h.record_is;
          search_is = h.search_is;
          regs_are = h.regs_are;
        }))
  end-Searched s' zero_ax (miss m) =
      let r = m.error_is in
      let same : (s'.r.ax == no_more_files) ≡ true = rw r refl in
      rw same (
        miss (record {
          none_listed = m.none_listed;
          closed = m.closed;
          error_is = refl;
          fails = m.fails;
        }))

  -- A first search that is not one for the volume label, with AX 0, returns when the directory
  -- can be opened, lists its entries one by one, and the fuel exceeds their number. Either the
  -- record holds the first entry whose name matches the pattern and that is no directory unless
  -- one is asked for, the registers are as they were, and the entries behind it are left; or no
  -- entry is such, the search is closed, and the call fails with error 2.
  pub find_first-Searched :
      (fuel : ℕ) (s : Redir W) (handle : ℕ) (w : W)
      → s.srch_attr ≢ attr_volume_label
      → s.r.ax ≡ 0
      → fs.opendir
          (search_start fs share s).world
          share.fn_host
          (host_path share (search_directory s.filename1))
        ≡ (0, handle, w)
      → handle < 256
      → IsListing fs handle entries
      → length (entries w) < fuel
      → (s' : Redir W) × (find_first fs share fuel s ≡ some s')
        × Searched entries (begun s handle) s.r (entries w) file_not_found s'
  unfolding find_first find_next search_start
  find_first-Searched fuel s handle w no_label zero_ax opens small law h =
      let opening =
        fs.opendir (search_start fs share s).world share.fn_host
          (host_path share (search_directory s.filename1)) in
      let no_error : opening.0 ≡ 0 = ap (λ x. x.0) opens in
      let handle_is : opening.1 ≡ handle = ap (λ x. x.1) opens in
      let world_is : opening.2 ≡ w = ap (λ x. x.2) opens in
      let byte : u8 handle ≡ handle = omega arith in
      let start : Redir W = record (search_start fs share s) {
        world = w;
        srchrec1 = begun s handle;
      } in
      let (s', e, v) = find_loop-Searched (entries w) fuel start law refl h in
      let file : (s.srch_attr == attr_volume_label) ≡ false = ground arith in
      (
        search_end fs share s',
        rw (find_first, file, find_next, no_error, handle_is, world_is, byte, e) refl,
        end-Searched s' zero_ax v,
      )
