-- ===== src/Driver/State.antt =====
-- The file-scope variables of sys/commands_nio.c, the request packet of sys/sys_hdr.h, and the small
-- helpers that every command uses. The messages of `consolef` are not modelled.
pub mod Info
use fujinet_msdos.Base.{
  ℕ, ◌+◌, Bool, true, false, Option, none, some, List, Bytes, u8, leb, ◌==◌, if◌then◌else◌, bit_or,
  get_or, set, take, replicate,
}
use fujinet_msdos.Base.Words.{get_u16le, get_u32le}
use fujinet_msdos.Nio.Port.{Port}
use fujinet_msdos.Nio.Disk.{Nio, DiskInfo, nio_disk_info}
use fujinet_msdos.Driver.Cache.{Cache, invalidate_slots}

-- FN_MAX_DEV.
abbrev pub max_units : ℕ
max_units = 8

-- Status words: an error has the top bit, and the codes of sys_hdr.h below.
abbrev pub failed : ℕ → ℕ
failed code = bit_or 0x8000 code

abbrev pub op_complete : ℕ
op_complete = 0

abbrev pub write_protect : ℕ
write_protect = 0x00

abbrev pub unknown_unit : ℕ
unknown_unit = 0x01

abbrev pub not_ready : ℕ
not_ready = 0x02

abbrev pub unknown_cmd : ℕ
unknown_cmd = 0x03

abbrev pub bad_req_len : ℕ
bad_req_len = 0x05

abbrev pub not_found : ℕ
not_found = 0x08

abbrev pub read_fault : ℕ
read_fault = 0x0B

abbrev pub general_fail : ℕ
general_fail = 0x0C

-- `info_cache[i]` is `some` where `info_cache_valid[i]` is set; a BPB is its 25 packed bytes.
pub record Driver (W : Type 0) : Type 0 where
  pub nio : Nio W
  pub unit_slot : List ℕ
  pub current_uri : Bytes
  pub display_path : Bytes
  pub current_uri_len : ℕ
  pub display_path_len : ℕ
  pub cache : Cache
  pub readahead_data : Bytes
  pub info_cache : List (Option DiskInfo)
  pub media_changed : List Bool
  pub batch_sectors : ℕ
  pub readahead_sectors : ℕ
  pub io_retries : ℕ
  pub debug_io : Bool
  pub auto_downshift : Bool
  pub bpb_table : List Bytes

-- `SYSREQ`, with the fields of the union that the commands read and write. The buffer pointer is the
-- memory that it points to, and the BPB pointer the unit whose entry of the table it points to.
pub record SysReq : Type 0 where
  pub length : ℕ
  pub unit : ℕ
  pub command : ℕ
  pub status : ℕ
  pub buffer : Bytes
  pub count : ℕ
  pub start_sector : ℕ
  pub start_sector_32 : ℕ
  pub return_info : ℕ
  pub bpb : Option ℕ
  pub unit_code : ℕ

-- What a command returns: its status word, the request as it leaves it, and the driver. There is none
-- where a loop ran out of fuel; the commands are proved to return.
pub record Reply (W : Type 0) : Type 0 where
  pub status : ℕ
  pub req : SysReq
  pub driver : Driver W

unfoldable pub unit_to_slot : {W : Type 0} → Driver W → ℕ → ℕ
unit_to_slot d unit = if leb max_units unit then 0xFF else get_or d.unit_slot unit 0

pub unit_to_diskservice_slot : {W : Type 0} → Driver W → ℕ → ℕ
unfolding unit_to_slot
unit_to_diskservice_slot d unit =
    if unit_to_slot d unit == 0xFF then 0xFF else u8 (unit_to_slot d unit + 1)

unfoldable pub cache_invalidate_unit : {W : Type 0} → ℕ → Driver W → Driver W
cache_invalidate_unit unit d = record d {
  cache = record (d.cache) { slots = invalidate_slots unit d.cache.slots };
  info_cache = if leb max_units unit then d.info_cache else set d.info_cache unit none;
}

-- `disk_info_cached`: the info where it can be had, and the driver after that.
pub disk_info_cached : {W : Type 0} → Port W → ℕ → Driver W → Option (Option DiskInfo × Driver W)
disk_info_cached port unit d =
    if leb max_units unit then some (none, d) else elim (get_or d.info_cache unit none) [
      | some info ↦ some (some info, d)
      | none ↦ elim (nio_disk_info port (unit_to_diskservice_slot d unit) d.nio) [
        | none ↦ none
        | some (none, n) ↦ some (none, record d { nio = n })
        | some (some info, n) ↦
            some (some info, record d { nio = n; info_cache = set d.info_cache unit (some info) })
      ]
    ]

-- The two sector counts of a packed BPB; the 16-bit one is used unless it is 0.
unfoldable pub sector_max_of : Bytes → ℕ
sector_max_of bpb = if get_u16le bpb 8 == 0 then get_u32le bpb 21 else get_u16le bpb 8
