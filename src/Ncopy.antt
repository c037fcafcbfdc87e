-- ===== src/Ncopy.antt =====
-- ncopy/ncopy.c: the copying of a file from the network and to it, and the password prompt. The shell around
-- them and the directory listing are on the console and are not modelled.
pub mod Parser
pub mod Copied
pub mod Sent
pub mod Tests
use fujinet_msdos.Base.{
  ℕ, zero, suc, ◌+◌, ◌%◌, Bool, true, false, not, ◌||◌, Option, none, some, List, [], ◌∷◌, ◌++◌,
  Bytes, ltb, ◌==◌, if◌then◌else◌, take, drop, length,
}
use fujinet_msdos.Fujifs.{FujiBus, Fuji, own, write_mode}
use fujinet_msdos.Fujifs.Open.{fujifs_open, fujifs_close}
use fujinet_msdos.Fujifs.Transfer.{fujifs_read, fujifs_write}

-- The C library's functions on the file that is open, over a state of files: `fopen` of a name for
-- writing and for reading, `fwrite` with the count that it has written, and `fread` of so many bytes.
pub record LocalFiles (L : Type 0) : Type 0 where
  pub fopen_wb : L → Bytes → Option L
  pub fopen_rb : L → Bytes → Option L
  pub fwrite : L → Bytes → ℕ × L
  pub fread : L → ℕ → Bytes × L
  pub fclose : L → L

-- FUJIFS_READ.
abbrev pub read_mode : ℕ
read_mode = 4

abbrev pub buf_size : ℕ
buf_size = 256

-- What a copy works on: `buf`, the network and the local files.
pub record Copying (W L : Type 0) : Type 0 where
  pub buf : Bytes
  pub fuji : Fuji W
  pub files : L

-- How a copy ends: a file that cannot be opened, a write that is cut short, or the end of the source.
pub data CopyEnd : Type 0 where
  no_local no_remote short_write copied : CopyEnd

module _ {W L : Type 0} (bus : FujiBus W) (local : LocalFiles L) where
  -- The loop over the blocks of the remote file, on fuel; there is none when that has run out.
  pub get_loop : ℕ → ℕ → Copying W L → Option (CopyEnd × Copying W L)
  get_loop zero handle c = none
  get_loop (suc fuel) handle c =
      let (len, buf, fuji) = fujifs_read bus handle c.buf buf_size c.fuji in
      let (lenw, files) = local.fwrite c.files (take len buf) in
      let next = record c { buf = buf; fuji = fuji; files = files } in
      let more = get_loop fuel handle next in
      if len == 0
      then some (copied, record c { buf = buf; fuji = fuji })
      else if not (lenw == len)
      then some (short_write, next)
      else more

  pub close_both : ℕ → CopyEnd × Copying W L → CopyEnd × Copying W L
  close_both handle (e, c) =
      (e, record c { fuji = (fujifs_close bus handle c.fuji).1; files = local.fclose c.files })

  -- Without a name for the copy it has that of the source.
  pub get_file : ℕ → ℕ → Bytes → Option Bytes → Copying W L → Option (CopyEnd × Copying W L)
  get_file fuel host source dest c =
      let name : Bytes = elim dest [ none ↦ source | some d ↦ d ] in
      elim (local.fopen_wb c.files name) [
        | none ↦ some (no_local, c)
        | some files ↦
            let (err, handle, fuji) = fujifs_open bus host (own source) read_mode c.fuji in
            let opened = record c { fuji = fuji; files = files } in
            let looped : Option (CopyEnd × Copying W L) = elim (get_loop fuel handle opened) [
              | none ↦ none
              | some r ↦ some (close_both handle r)
            ] in
            if not (err == 0)
            then some (no_remote, record opened { files = local.fclose files })
            else looped
      ]

  -- The loop over the blocks of the local file.
  pub put_loop : ℕ → ℕ → Copying W L → Option (CopyEnd × Copying W L)
  put_loop zero handle c = none
  put_loop (suc fuel) handle c =
      let (block, files) = local.fread c.files buf_size in
      let buf = block ++ drop (length block) c.buf in
      let (lenw, fuji) = fujifs_write bus handle buf (length block) c.fuji in
      let next = record c { buf = buf; fuji = fuji; files = files } in
      let more = put_loop fuel handle next in
      if length block == 0
      then some (copied, record c { files = files })
      else if not (lenw == length block)
      then some (short_write, next)
      else more

  pub put_file : ℕ → ℕ → Bytes → Option Bytes → Copying W L → Option (CopyEnd × Copying W L)
  put_file fuel host source dest c =
      let name : Bytes = elim dest [ none ↦ source | some d ↦ d ] in
      elim (local.fopen_rb c.files source) [
        | none ↦ some (no_local, c)
        | some files ↦
            let (err, handle, fuji) = fujifs_open bus host (own name) write_mode c.fuji in
            let opened = record c { fuji = fuji; files = files } in
            let looped : Option (CopyEnd × Copying W L) = elim (put_loop fuel handle opened) [
              | none ↦ none
              | some r ↦ some (close_both handle r)
            ] in
            if not (err == 0)
            then some (no_remote, record opened { files = local.fclose files })
            else looped
      ]

-- The keys of the password prompt, and what has been typed so far, the last character first. The loop ends
-- at the end of the line or when the buffer is full; there is none while it waits for another key.
pub get_password_loop : ℕ → Bytes → Bytes → Option Bytes
get_password_loop max_len [] typed =
    if ltb (length typed) ((max_len + 65535) % 65536) then none else some typed
get_password_loop max_len (ch ∷ keys) typed =
    let erased = get_password_loop max_len keys (drop 1 typed) in
    let added = get_password_loop max_len keys (ch ∷ typed) in
    if not (ltb (length typed) ((max_len + 65535) % 65536))
    then some typed
    else if (ch == b'\r') || (ch == b'\n')
    then some typed
    else if (ch == 8) || (ch == 127)
    then erased
    else added
