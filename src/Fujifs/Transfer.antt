-- ===== src/Fujifs/Transfer.antt =====
-- `fujifs_read`, `fujifs_write` and `fujifs_seek`.
pub mod Within
pub mod Blocks
use fujinet_msdos.Base.{
  ℕ, zero, suc, ◌+◌, ◌-◌, ◌*◌, ◌/◌, ◌%◌, Bool, true, false, not, ◌&&◌, ◌||◌, Option, none, some,
  List, [], ◌∷◌, ◌++◌, map, Bytes, ltb, leb, ◌==◌, if◌then◌else◌, get_or, set, take, drop, length,
  replicate,
}
use fujinet_msdos.Fujifs.{
  Handle, FujiBus, Fuji, netdev_total, netdev, open_size, reply_complete, fields_none, fields_a1_a2,
  fields_b12, fields_c1234, network_success, end_of_file, not_connected, service_not_available,
  no_device_available, cmd_chdir, cmd_getcwd, cmd_username, cmd_password, directory_mode,
  write_mode, ennify, is_fq_url, PathArg, own, shared, path_text, fn_handle, set_handle, set_open,
  fujifs_find_handle, is_connected, status_length, status_error, write_cmd, read_status,
}

module _ {W : Type 0} (bus : FujiBus W) where
  -- The count, and what is in the caller's buffer afterwards.
  pub fujifs_read : ℕ → Bytes → ℕ → Fuji W → ℕ × Bytes × Fuji W
  fujifs_read x buffer count s =
      let s1 = read_status bus x s in
      let count' = if ltb (status_length s1) count then status_length s1 else count in
      let (reply, content, w) =
        bus.read_call s1.world (netdev x) b'R' fields_b12 count' 0 count' buffer in
      if not (is_connected s x)
      then (0, buffer, s)
      else if ltb network_success (status_error s1) && (status_length s1 == 0)
      then (0, buffer, s1)
      else (if reply == reply_complete then count' else 0, content, record s1 { world = w })

  -- -1 in 16 bits is the error; the last handle is refused, and one that is not open is not.
  pub fujifs_write : ℕ → Bytes → ℕ → Fuji W → ℕ × Fuji W
  fujifs_write x buffer count s =
      let count' = if count == 65535 then 65534 else count in
      let (reply, w) =
        bus.write_call s.world (netdev x) b'W' fields_b12 count' 0 (take count' buffer) in
      if ltb x 1 || leb netdev_total x
      then (65535, s)
      else (if reply == reply_complete then count' else 65535, record s { world = w })

  pub fujifs_seek : ℕ → ℕ → Fuji W → ℕ × Fuji W
  fujifs_seek x position s =
      let (reply, w) =
        bus.write_call s.world (netdev x) 0x25 fields_c1234 (position % 65536)
          (position / 65536 % 65536) [] in
      if not (is_connected s x)
      then (not_connected, s)
      else (if reply == reply_complete then 0 else service_not_available, record s { world = w })
