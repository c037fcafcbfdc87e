-- ===== src/Fujifs/Paths.antt =====
-- The operations on paths: `fujifs_opendir`, `fujifs_path_operation` and its callers, `fujifs_open_url`.
use fujinet_msdos.Base.{
  ℕ, ◌-◌, false, not, ◌&&◌, Option, none, some, List, [], ◌∷◌, ◌++◌, Bytes, leb, ◌==◌,
  if◌then◌else◌, get_or, set, take, length,
}
use fujinet_msdos.Fujifs.{
  Handle, FujiBus, Fuji, network_success, end_of_file, service_not_available, no_device_available,
  cmd_chdir, cmd_username, cmd_password, directory_mode, ennify, own, shared, fn_handle, set_handle,
  set_open, fujifs_find_handle, status_length, status_error, write_cmd, read_status,
}
use fujinet_msdos.Fujifs.Open.{fujifs_open, fujifs_close}

-- `/.` behind the path, in place of a final `/`. The path has the prefix of two characters.
pub directory_path : Bytes → Bytes
directory_path buf =
    let last = get_or buf (length buf - 1) 0 in
    let bare = if last == b'/' then take (length buf - 1) buf else buf in
    if leb (length buf) 2 then buf else bare ++ b'/' ∷ b'.' ∷ []

-- The devices below the host no longer have its directory.
pub orphan : ℕ → List Handle → List Handle
orphan host [] = []
orphan host (h ∷ hs) = (if h.parent == host then record h { parent = 0 } else h) ∷ orphan host hs

module _ {W : Type 0} (bus : FujiBus W) where
  pub fujifs_opendir : ℕ → Bytes → Fuji W → ℕ × ℕ × Fuji W
  fujifs_opendir host path s =
      let (x, s1) = fujifs_find_handle s in
      let s2 = set_open x false (record s1 { buf = directory_path (ennify path) }) in
      let s3 = set_handle x (record (fn_handle s2 x) { position = 0; length = 0 }) s2 in
      let opened = fujifs_open bus host shared directory_mode s3 in
      if x == 0 then (no_device_available, 0, s1) else opened

  pub fujifs_closedir : ℕ → Fuji W → ℕ × Fuji W
  fujifs_closedir x s = (0, (fujifs_close bus x s).1)

  -- The end of the file with nothing left stands for success.
  pub fujifs_path_operation : ℕ → ℕ → Bytes → Fuji W → ℕ × Fuji W
  fujifs_path_operation host command path s =
      let s1 = record s { buf = ennify path } in
      let s2 = read_status bus host (write_cmd bus host command s1.buf s1).1 in
      let error =
        if (status_error s2 == end_of_file) && (status_length s2 == 0)
        then network_success
        else status_error s2 in
      (if error == network_success then 0 else error, record s2 { status = set s2.status 3 error })

  pub fujifs_chdir : ℕ → Bytes → Fuji W → ℕ × Fuji W
  fujifs_chdir host path s =
      let (err, s1) = fujifs_path_operation host cmd_chdir path s in
      let s2 = record s1 { handles = orphan host s1.handles } in
      (err, set_handle host (record (fn_handle s2 host) { parent = host }) s2)

  pub fujifs_rmdir : ℕ → Bytes → Fuji W → ℕ × Fuji W
  fujifs_rmdir host path = fujifs_path_operation host 0x2B path

  pub fujifs_mkdir : ℕ → Bytes → Fuji W → ℕ × Fuji W
  fujifs_mkdir host path = fujifs_path_operation host 0x2A path

  pub fujifs_unlink : ℕ → Bytes → Fuji W → ℕ × Fuji W
  fujifs_unlink host path = fujifs_path_operation host 0x21 path

  -- Renaming is not supported.
  pub fujifs_rename : ℕ → Bytes → Bytes → Fuji W → ℕ × Fuji W
  fujifs_rename host oldpath newpath s = (service_not_available, s)

  -- User and password, where the caller gives them, are kept in the first free handle, which is free
  -- again when the host is opened.
  pub fujifs_open_url : Bytes → Option Bytes → Option Bytes → Fuji W → ℕ × ℕ × Fuji W
  fujifs_open_url url user password s =
      let (x, s1) = fujifs_find_handle s in
      let hhp = fn_handle s1 x in
      let named : Bytes = elim user [ none ↦ hhp.user | some u ↦ u ] in
      let passed : Bytes = elim password [ none ↦ hhp.password | some p ↦ p ] in
      let s2 = set_handle x (record hhp { user = named; password = passed }) s1 in
      let s3 = (write_cmd bus x cmd_password passed (write_cmd bus x cmd_username named s2).1).1 in
      let (err, host, s4) = fujifs_open bus 0 (own url) directory_mode (set_open x false s3) in
      let s5 = (fujifs_chdir host url s4).1 in
      let s6 = set_handle host (record (fn_handle s5 host) { parent = host }) s5 in
      if x == 0
      then (no_device_available, 0, s1)
      else if not (err == 0)
      then (err, host, s4)
      else (0, host, s6)
