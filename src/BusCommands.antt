-- ===== src/BusCommands.antt =====
-- sys/commands.c: the commands of the driver for the older FUJICOM command set, on `fuji_bus_call`. The
-- commands that only answer a status are those of the other driver, in Driver.Dispatch.
pub mod Done
mod Tests
use fujinet_msdos.Base.{
  ℕ, zero, suc, ◌+◌, ◌*◌, ◌/◌, ◌%◌, Bool, true, false, not, Option, none, some, List, [], ◌∷◌, ◌++◌,
  Bytes, u16, u32, ltb, leb, ◌==◌, if◌then◌else◌, get_or, set, take, drop, blit,
}
use fujinet_msdos.Base.Words.{get_u32le}
use fujinet_msdos.Nio.Port.{Port}
use fujinet_msdos.Fujicom.{BusCall, BusDone, content_of, fuji_bus_call}
use fujinet_msdos.Driver.Cache.{sector_size}
use fujinet_msdos.Driver.State.{
  SysReq, max_units, failed, op_complete, write_protect, unknown_unit, not_ready, unknown_cmd,
  not_found, read_fault, general_fail, sector_max_of,
}
use fujinet_msdos.Driver.Control.{signature}

-- The file-scope variables. `mount_status` is 64 bytes, a time of 8 for each unit, of which the
-- driver looks at 4; `disk_slots` holds 38 bytes for each unit.
pub record BusDriver (W : Type 0) : Type 0 where
  pub world : W
  pub bpb_table : List Bytes
  pub mount_status : Bytes
  pub disk_slots : Bytes

pub record BusReply (W : Type 0) : Type 0 where
  pub status : ℕ
  pub req : SysReq
  pub driver : BusDriver W

-- How the loop over the sectors ends: behind the last sector of the medium, or with a count.
pub data BusEnd : Type 0 where
  off_medium : BusEnd
  counted : ℕ → BusEnd

abbrev pub slot_readwrite : ℕ
slot_readwrite = 2

-- The request that has no data of its own, with the four bytes of a number.
pub plain_call : ℕ → ℕ → ℕ → ℕ → BusCall
plain_call device command fields n = record {
  device = device;
  fuji_cmd = command;
  fields = fields;
  aux1 = n % 256;
  aux2 = n / 256 % 256;
  aux3 = n / 65536 % 256;
  aux4 = n / 16777216 % 256;
  data_in = none;
  data_length = 0;
}

-- The first sector and the number of sectors of the medium.
abbrev pub first_sector : SysReq → ℕ
first_sector req = if ltb 22 req.length then req.start_sector_32 else req.start_sector

abbrev pub medium_size : {W : Type 0} → BusDriver W → SysReq → ℕ
medium_size d req = sector_max_of (get_or d.bpb_table req.unit [])

-- What the end of the loop says to DOS.
pub bus_end : {W : Type 0} → BusEnd → SysReq → BusDriver W → BusReply W
bus_end off_medium req d = record { status = failed not_found; req = req; driver = d }
bus_end (counted idx) req d =
    if idx == 0
    then record { status = failed general_fail; req = req; driver = d }
    else record { status = op_complete; req = record req { count = idx }; driver = d }

module _ {W : Type 0} (port : Port W) where
  -- A change is told by the times of the mounts; the slots are read for the sake of later writes.
  pub bus_media_check_cmd : SysReq → BusDriver W → BusReply W
  bus_media_check_cmd req d =
      let old_status = get_u32le d.mount_status (req.unit * 8) in
      let asked = fuji_bus_call port (plain_call 0x70 b'S' 1 1) (some d.mount_status) 64 d.world in
      let d1 = record d { world = asked.world; mount_status = content_of asked.reply } in
      let slots = fuji_bus_call port (plain_call 0x70 0xF2 7 0) (some d1.disk_slots) 304 d1.world in
      let d2 = record d1 { world = slots.world; disk_slots = content_of slots.reply } in
      let new_status = get_u32le d2.mount_status (req.unit * 8) in
      let info = if new_status == 0 then 0 else if not (old_status == new_status) then 255 else 1 in
      if leb max_units req.unit
      then record { status = failed unknown_unit; req = req; driver = d }
      else if not asked.ok
      then record { status = failed not_ready; req = req; driver = d1 }
      else if not slots.ok
      then record { status = failed not_ready; req = req; driver = d2 }
      else record { status = op_complete; req = record req { return_info = info }; driver = d2 }

  -- The BPB stands in the first sector, from byte 11 on.
  pub bus_build_bpb_cmd : SysReq → BusDriver W → BusReply W
  bus_build_bpb_cmd req d =
      let got =
        fuji_bus_call port (plain_call (0x31 + req.unit) b'R' 7 0)
          (some (take sector_size req.buffer)) sector_size d.world in
      let buffer = blit req.buffer 0 (take sector_size (content_of got.reply)) in
      let d1 = record d { world = got.world } in
      let req1 = record req { buffer = buffer } in
      if leb max_units req.unit
      then record { status = failed unknown_unit; req = req; driver = d }
      else if not got.ok
      then record { status = failed read_fault; req = req1; driver = d1 }
      else record {
        status = op_complete;
        req = record req1 { bpb = some req.unit };
        driver = record d1 { bpb_table = set d.bpb_table req.unit (take 25 (drop 11 buffer)) };
      }

  -- The loop of the read over the sectors that are left, from number `idx` of the request on. A sector
  -- that fails may have reached the buffer all the same.
  pub read_sectors_loop : ℕ → ℕ → ℕ → ℕ → ℕ → Bytes → W → BusEnd × Bytes × W
  read_sectors_loop zero idx unit sector sector_max buffer w = (counted idx, buffer, w)
  read_sectors_loop (suc n) idx unit sector sector_max buffer w =
      let off = u16 (idx * sector_size) in
      let got =
        fuji_bus_call port (plain_call (0x31 + unit) b'R' 7 sector)
          (some (take sector_size (drop off buffer))) sector_size w in
      let buffer' = blit buffer off (take sector_size (content_of got.reply)) in
      let rest =
        read_sectors_loop n (idx + 1) unit (u32 (sector + 1)) sector_max buffer' got.world in
      if leb sector_max sector
      then (off_medium, buffer, w)
      else if got.ok
      then rest
      else (counted idx, buffer', got.world)

  -- The loop of the write.
  pub write_sectors_loop : ℕ → ℕ → ℕ → ℕ → ℕ → Bytes → W → BusEnd × W
  write_sectors_loop zero idx unit sector sector_max buffer w = (counted idx, w)
  write_sectors_loop (suc n) idx unit sector sector_max buffer w =
      let off = u16 (idx * sector_size) in
      let call = record (plain_call (0x31 + unit) b'W' 7 sector) {
        data_in = some (take sector_size (drop off buffer));
        data_length = sector_size;
      } in
      let sent = fuji_bus_call port call none 0 w in
      let rest =
        write_sectors_loop n (idx + 1) unit (u32 (sector + 1)) sector_max buffer sent.world in
      if leb sector_max sector
      then (off_medium, w)
      else if sent.ok
      then rest
      else (counted idx, sent.world)

  pub bus_input_cmd : SysReq → BusDriver W → BusReply W
  bus_input_cmd req d =
      let (e, buffer, w) =
        read_sectors_loop req.count 0 req.unit (first_sector req) (medium_size d req) req.buffer
          d.world in
      let read = bus_end e (record req { buffer = buffer }) (record d { world = w }) in
      if leb max_units req.unit
      then record { status = failed unknown_unit; req = req; driver = d }
      else read

  pub bus_output_cmd : SysReq → BusDriver W → BusReply W
  bus_output_cmd req d =
      let (e, w) =
        write_sectors_loop req.count 0 req.unit (first_sector req) (medium_size d req) req.buffer
          d.world in
      let wrote = bus_end e req (record d { world = w }) in
      if leb max_units req.unit
      then record { status = failed unknown_unit; req = req; driver = d }
      else if not (get_or d.disk_slots (req.unit * 38 + 1) 0 == slot_readwrite)
      then record { status = failed write_protect; req = req; driver = d }
      else wrote

  -- The query of a block that is long enough: the signature from its second byte on, and the unit.
  pub bus_ioctl_input_cmd : SysReq → BusDriver W → BusReply W
  bus_ioctl_input_cmd req d =
      let query = blit req.buffer 1 (signature ++ (req.unit ∷ [])) in
      if leb max_units req.unit
      then record { status = failed unknown_unit; req = req; driver = d }
      else if ltb req.count 8
      then record { status = failed unknown_cmd; req = req; driver = d }
      else record { status = op_complete; req = record req { buffer = query }; driver = d }
