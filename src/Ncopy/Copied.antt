-- ===== src/Ncopy/Copied.antt =====
-- What `get_file` has copied, when the network file can be read to its end.
use mathlib.Core.List.{append-nil, append_assoc}
use fujinet_msdos.Base.{
  ℕ, zero, suc, ◌<◌, ◌≡◌, refl, sym, ap, ◌∙◌, true, false, not, Option, some, [], ◌++◌, Bytes,
  arith, ◌==◌, take, length, length-append, if_rule, ==_iff,
}
use fujinet_msdos.Fujifs.{own, FujiBus, is_connected}
use fujinet_msdos.Fujifs.Open.{fujifs_open}
use fujinet_msdos.Fujifs.Transfer.{fujifs_read}
use fujinet_msdos.Ncopy.{
  LocalFiles, Copying, buf_size, CopyEnd, copied, get_loop, read_mode, close_both, get_file,
}
use fujinet_msdos.Fujifs.Transfer.Blocks.{Serves, fujifs_read-Block}

-- The local file is empty when it has been opened for writing, takes what is written to it, and keeps it.
pub record Stores {L : Type 0} (local : LocalFiles L) (written : L → Bytes) : Type 0 where
  pub count_is : (l : L) (b : Bytes) → (local.fwrite l b).0 ≡ length b
  pub opened_is :
      (l : L) (name : Bytes) (l' : L) → local.fopen_wb l name ≡ some l' → written l' ≡ []
  pub closed_is : (l : L) → written (local.fclose l) ≡ written l
  pub written_is : (l : L) (b : Bytes) → written (local.fwrite l b).1 ≡ written l ++ b

module _ {W L : Type 0} (bus : FujiBus W) (local : LocalFiles L) (x : ℕ) (remaining : W → Bytes)
    (written : L → Bytes) where
  -- The copy is complete: all that was left of the network file is behind what the local file had.
  pub Whole : Copying W L → Option (CopyEnd × Copying W L) → Type 0
  Whole c r =
      (c' : Copying W L) × (r ≡ some (copied, c'))
      × (written c'.files ≡ written c.files ++ remaining c.fuji.world)

  pub get_loop-copied :
      (serves : Serves bus x remaining) (stores : Stores local written) (fuel : ℕ) (c : Copying W L)
      → is_connected c.fuji x ≡ true
      → length (remaining c.fuji.world) < fuel
      → Whole c (get_loop bus local fuel x c)
  unfolding get_loop Whole
  get_loop-copied serves stores zero c conn enough = absurd (omega arith)
  get_loop-copied serves stores (suc fuel) c conn enough =
      let read = fujifs_read bus x c.buf buf_size c.fuji in
      let block =
        fujifs_read-Block bus x remaining serves c.fuji c.buf buf_size conn (omega arith) in
      let stored = local.fwrite c.files (take read.0 read.1) in
      let next = record c { buf = read.1; fuji = read.2; files = stored.1 } in
      let all : not (stored.0 == read.0) ≡ false = ap not (
        (==_iff stored.0 read.0).1
          (stores.count_is c.files (take read.0 read.1) ∙ block.length_is)) in
      if_rule (Whole c) (read.0 == 0) _ _
        (λ over.
          let nothing = block.ends ((==_iff read.0 0).0 over) in
          (
            record c { buf = read.1; fuji = read.2 },
            refl,
            sym (append-nil (written c.files)) ∙ ap (λ t. written c.files ++ t) (sym nothing),
          ))
        (λ more. rw all (
          let (c', done, same) = get_loop-copied serves stores fuel next block.connected (
            ground (
              arith,
              ap length block.split,
              length-append (take read.0 read.1) (remaining read.2.world),
              block.length_is,
              (==_iff read.0 0).1,
            )) in
          (
            c',
            done,
            same
                ∙ ap (λ t. t ++ remaining read.2.world)
                    (stores.written_is c.files (take read.0 read.1))
                ∙ append_assoc (written c.files) (take read.0 read.1) (remaining read.2.world)
                ∙ ap (λ t. written c.files ++ t) (sym block.split),
          )))

  -- When the local file and the network file open, the network file with an open handle, and the
  -- device serves the file block by block, some bytes being ready while any are left, and the
  -- local file keeps what is written to it: copying a file from the network ends at the end of
  -- the source, with fuel for more blocks than it has bytes, and the local file has what the
  -- network file had, all of it and nothing else.
  pub get_file-copied :
      (stores : Stores local written) (fuel host : ℕ) (source name : Bytes) (c : Copying W L)
      (files : L)
      → local.fopen_wb c.files name ≡ some files
      → (fujifs_open bus host (own source) read_mode c.fuji).0 ≡ 0
      → (fujifs_open bus host (own source) read_mode c.fuji).1 ≡ x
      → is_connected (fujifs_open bus host (own source) read_mode c.fuji).2 x ≡ true
      → Serves bus x remaining
      → length (remaining (fujifs_open bus host (own source) read_mode c.fuji).2.world) < fuel
      → (c' : Copying W L) × (get_file bus local fuel host source (some name) c ≡ some (copied, c'))
        × (written c'.files
            ≡ remaining (fujifs_open bus host (own source) read_mode c.fuji).2.world)
  unfolding get_file Whole close_both
  get_file-copied stores fuel host source name c files found no_error is_x conn serves enough =
      let opened = fujifs_open bus host (own source) read_mode c.fuji in
      let start = record c { fuji = opened.2; files = files } in
      let (c', done, same) = get_loop-copied serves stores fuel start conn enough in
      let closed = close_both bus local x (copied, c') in
      (
        closed.1,
        rw (get_file, found, no_error, is_x, done)
            (ap (λ y. some (close_both bus local y (copied, c'))) is_x),
        stores.closed_is c'.files
            ∙ same
            ∙ ap (λ t. t ++ remaining opened.2.world) (stores.opened_is c.files name files found),
      )
