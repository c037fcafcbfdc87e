-- ===== src/Fujifs/Open.antt =====
-- Opening and closing a network handle: `fujifs_open`, `fujifs_close`.
pub mod Closed
pub mod Table
use fujinet_msdos.Base.{
  ℕ, zero, suc, ◌+◌, ◌-◌, ◌*◌, ◌/◌, ◌%◌, Bool, true, false, not, ◌&&◌, ◌||◌, Option, none, some,
  List, [], ◌∷◌, ◌++◌, map, Bytes, ltb, leb, ◌==◌, if◌then◌else◌, get_or, set, take, drop, length,
  replicate,
}
use fujinet_msdos.Fujifs.{
  Handle, FujiBus, Fuji, netdev_total, netdev, open_size, reply_complete, fields_none, fields_a1_a2,
  fields_b12, fields_c1234, network_success, end_of_file, not_connected, service_not_available,
  no_device_available, cmd_chdir, cmd_getcwd, cmd_username, cmd_password, directory_mode,
  write_mode, ennify, is_fq_url, PathArg, own, shared, path_text, fn_handle, set_handle, set_open,
  fujifs_find_handle, is_connected, status_length, status_error, write_cmd, read_status,
}

module _ {W : Type 0} (bus : FujiBus W) where
  -- User and password go to the device when it has not had them, or had those of another host.
  pub authorise : ℕ → ℕ → Fuji W → Fuji W
  authorise host x s =
      let hhp = fn_handle s host in
      let fhp = fn_handle s x in
      let named = write_cmd bus x cmd_username hhp.user s in
      let passed = write_cmd bus x cmd_password hhp.password named.1 in
      if not (length hhp.user == 0) && (not fhp.did_auth || not (host == fhp.parent))
      then set_handle x (record (fn_handle passed.1 x) { did_auth = true }) passed.1
      else s

  -- The directory of the host becomes that of the new handle: false where it cannot be had. The string
  -- ends at a NUL or at 9Bh.
  pub cut_cwd : Bytes → Bytes
  cut_cwd [] = []
  cut_cwd (c ∷ cs) = let rest = cut_cwd cs in if (c == 0) || (c == 0x9B) then [] else c ∷ rest

  pub inherit : ℕ → ℕ → PathArg → Fuji W → Bool × Fuji W
  inherit host x path s =
      let needed = not (host == (fn_handle s x).parent) && not (is_fq_url (path_text s path)) in
      let (reply, cwd, w) =
        bus.read_call s.world (netdev host) cmd_getcwd fields_none 0 0 open_size s.buf in
      let s1 = record s { world = w; buf = cut_cwd (take (open_size - 1) cwd) } in
      if not needed
      then (true, s)
      else if not (reply == reply_complete)
      then (false, record s { world = w; buf = cwd })
      else (true, (write_cmd bus x cmd_chdir s1.buf s1).1)

  -- The end of the file is no error before anything has been read.
  unfoldable pub open_error : Fuji W → ℕ
  open_error s = if status_error s == end_of_file then network_success else status_error s

  unfoldable pub with_error : Fuji W → Fuji W
  with_error s = record s { status = set s.status 3 (open_error s) }

  -- What the status says. The error of a file that is opened for writing is ignored.
  unfoldable pub open_result : ℕ → ℕ → ℕ → Fuji W → ℕ × Fuji W
  open_result host x mode s =
      let s1 = with_error s in
      let kept = set_handle x (record (fn_handle s x) { parent = host }) s in
      let opened = set_handle x (record (fn_handle s1 x) { parent = host }) s1 in
      if mode == write_mode
      then (0, kept)
      else if ltb network_success (open_error s) && (status_length s1 == 0)
      then (open_error s, set_open x false s1)
      else (0, opened)

  -- The request itself.
  unfoldable pub open_named : ℕ → ℕ → PathArg → ℕ → Fuji W → ℕ × Fuji W
  open_named host x path mode s =
      let s1 = record s { buf = ennify (path_text s path) } in
      let (reply, w) = bus.write_call s1.world (netdev x) b'O' fields_a1_a2 mode 0 s1.buf in
      open_result host x mode (read_status bus x (record s1 { world = w }))

  -- The error, the number of the new handle, and the state.
  unfoldable pub fujifs_open : ℕ → PathArg → ℕ → Fuji W → ℕ × ℕ × Fuji W
  fujifs_open host path mode s =
      let (x, s1) = fujifs_find_handle s in
      let s2 = authorise host x s1 in
      let (ok, s3) = inherit host x path s2 in
      let s4 = set_handle x (record (fn_handle s3 x) { parent = host }) s3 in
      let hosted = open_named host x path mode s4 in
      let bare = open_named host x path mode s1 in
      if x == 0
      then (no_device_available, 0, s1)
      else if host == 0
      then (bare.0, x, bare.1)
      else if not ok
      then (service_not_available, x, s3)
      else (hosted.0, x, hosted.1)

  pub fujifs_close : ℕ → Fuji W → ℕ × Fuji W
  fujifs_close x s =
      let (reply, w) = bus.none_call s.world (netdev x) b'C' in
      if not (is_connected s x)
      then (not_connected, s)
      else (0, set_open x false (record s { world = w }))
