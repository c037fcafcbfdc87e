-- ===== src/Ncopy/Sent.antt =====
-- What `put_file` has stored, when the network file takes what is written to it.
use mathlib.Core.List.{append_assoc, append-nil}
use fujinet_msdos.Base.{
  ℕ, zero, suc, ◌≤◌, ◌<◌, ◌≡◌, refl, sym, ap, ◌∙◌, false, not, Option, some, [], ◌∷◌, ◌++◌, Bytes,
  arith, ◌==◌, take, drop, length, length-take, length-drop, if_rule, ==_iff,
}
use fujinet_msdos.Fujifs.{FujiBus, netdev_total, own, write_mode}
use fujinet_msdos.Fujifs.Open.{fujifs_open}
use fujinet_msdos.Fujifs.Open.Closed.{fujifs_close-kept}
use fujinet_msdos.Fujifs.Transfer.{fujifs_write}
use fujinet_msdos.Fujifs.Transfer.Blocks.{Takes, fujifs_write-Taken, take-append-drop}
use fujinet_msdos.Ncopy.{
  LocalFiles, Copying, buf_size, CopyEnd, copied, put_loop, close_both, put_file,
}

-- The local file gives what is left of it, as much as it is asked for.
pub record Reads {L : Type 0} (local : LocalFiles L) (unread : L → Bytes) : Type 0 where
  pub read_is : (l : L) (n : ℕ) → (local.fread l n).0 ≡ take n (unread l)
  pub left_is : (l : L) (n : ℕ) → unread (local.fread l n).1 ≡ drop n (unread l)

nothing_left : (xs : Bytes) → length xs ≡ 0 → xs ≡ []
nothing_left [] e = refl
nothing_left (x ∷ xs) e = absurd (omega arith)

module _ {W L : Type 0} (bus : FujiBus W) (local : LocalFiles L) (x : ℕ) (stored : W → Bytes)
    (unread : L → Bytes) where
  -- The copy is complete: all that was left of the local file is behind what the network file had.
  pub AllSent : Copying W L → Option (CopyEnd × Copying W L) → Type 0
  AllSent c r =
      (c' : Copying W L) × (r ≡ some (copied, c'))
      × (stored c'.fuji.world ≡ stored c.fuji.world ++ unread c.files)

  pub put_loop-copied :
      (takes : Takes bus x stored) (reads : Reads local unread)
      → 1 ≤ x
      → x < netdev_total
      → (fuel : ℕ) (c : Copying W L) → length (unread c.files) < fuel
      → AllSent c (put_loop bus local fuel x c)
  unfolding put_loop AllSent
  put_loop-copied takes reads some_x few_x zero c enough = absurd (omega arith)
  put_loop-copied takes reads some_x few_x (suc fuel) c enough =
      let from = local.fread c.files buf_size in
      let block = from.0 in
      let is_block = reads.read_is c.files buf_size in
      let size : length block ≤ 256 =
        rw (is_block) (omega (arith, length-take buf_size (unread c.files))) in
      let buf = block ++ drop (length block) c.buf in
      let sent = fujifs_write bus x buf (length block) c.fuji in
      let taken =
        fujifs_write-Taken bus x stored takes c.fuji block (drop (length block) c.buf) some_x few_x
          (omega arith) in
      let next = record c { buf = buf; fuji = sent.1; files = from.1 } in
      let all : not (sent.0 == length block) ≡ false =
        ap not ((==_iff sent.0 (length block)).1 taken.0) in
      let whole : unread c.files ≡ block ++ unread from.1 =
        sym (take-append-drop buf_size (unread c.files))
        ∙ ap (λ t. t ++ drop buf_size (unread c.files)) (sym is_block)
        ∙ ap (λ t. block ++ t) (sym (reads.left_is c.files buf_size)) in
      if_rule (AllSent c) (length block == 0) _ _
        (λ over. (
          record c { files = from.1 },
          refl,
          sym (append-nil (stored c.fuji.world))
              ∙ ap (λ t. stored c.fuji.world ++ t)
                  (sym (
                    nothing_left (unread c.files) (
                      ground (
                        arith,
                        length-take buf_size (unread c.files),
                        ap length is_block,
                        (==_iff (length block) 0).0,
                      )))),
        ))
        (λ more. rw all (
          let (c', done, same) = put_loop-copied takes reads some_x few_x fuel next (
            ground (
              arith,
              length-drop buf_size (unread c.files),
              ap length (reads.left_is c.files buf_size),
              length-take buf_size (unread c.files),
              ap length is_block,
              (==_iff (length block) 0).1,
            )) in
          (
            c',
            done,
            same
                ∙ ap (λ t. t ++ unread from.1) taken.1
                ∙ append_assoc (stored c.fuji.world) block (unread from.1)
                ∙ ap (λ t. stored c.fuji.world ++ t) (sym whole),
          )))

  -- When the local file and the network file open, the network file with one of the handles from
  -- 1 to 7, and the local file gives as many of its bytes as it is asked for, and the device
  -- takes what is written and keeps it when the file is closed: copying a file to the network
  -- ends at the end of the source, with fuel for more blocks than it has bytes, and all the bytes
  -- of the local file stand behind what the network file had.
  pub put_file-copied :
      (takes : Takes bus x stored) (reads : Reads local unread) (fuel host : ℕ)
      (source name : Bytes) (c : Copying W L) (files : L)
      → 1 ≤ x
      → x < netdev_total
      → local.fopen_rb c.files source ≡ some files
      → (fujifs_open bus host (own name) write_mode c.fuji).0 ≡ 0
      → (fujifs_open bus host (own name) write_mode c.fuji).1 ≡ x
      → length (unread files) < fuel
      → (c' : Copying W L) × (put_file bus local fuel host source (some name) c ≡ some (copied, c'))
        × (stored c'.fuji.world
            ≡ stored (fujifs_open bus host (own name) write_mode c.fuji).2.world ++ unread files)
  unfolding put_file AllSent close_both
  put_file-copied takes reads fuel host source name c files some_x few_x found no_error is_x
        enough =
      let opened = fujifs_open bus host (own name) write_mode c.fuji in
      let start = record c { fuji = opened.2; files = files } in
      let (c', done, same) = put_loop-copied takes reads some_x few_x fuel start enough in
      let closed = close_both bus local x (copied, c') in
      (
        closed.1,
        rw (put_file, found, no_error, is_x, done)
            (ap (λ y. some (close_both bus local y (copied, c'))) is_x),
        fujifs_close-kept bus x stored takes.close_keeps c'.fuji ∙ same,
      )
