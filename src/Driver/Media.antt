-- ===== src/Driver/Media.antt =====
-- `Media_check_cmd` and `Build_bpb_cmd` of sys/commands_nio.c.
pub mod Total
pub mod Changed
use fujinet_msdos.Base.{
  ◌>>=◌, ℕ, Bool, true, false, not, ◌||◌, Option, none, some, Bytes, ltb, leb, ◌==◌, if◌then◌else◌,
  bit_and, get_or, set, take, drop, blit,
}
use fujinet_msdos.Nio.Codes.{info_inserted, info_changed}
use fujinet_msdos.Nio.Port.{Port}
use fujinet_msdos.Nio.Disk.{DiskInfo, ReadDone, nio_disk_read_sector}
use fujinet_msdos.Driver.Cache.{sector_size, cache_find, cached_sector, cache_store}
use fujinet_msdos.Driver.State.{
  Driver, SysReq, Reply, max_units, failed, op_complete, unknown_unit, not_ready, read_fault,
  disk_info_cached, unit_to_diskservice_slot,
}

-- The media return byte: (uint8_t) -1, 0 and 1.
abbrev pub media_is_changed : ℕ
media_is_changed = 255

abbrev pub media_unknown : ℕ
media_unknown = 0

abbrev pub media_unchanged : ℕ
media_unchanged = 1

pub media_return : DiskInfo → ℕ
media_return info =
    if bit_and info.flags info_inserted == 0
    then media_unknown
    else if not (bit_and info.flags info_changed == 0)
    then media_is_changed
    else media_unchanged

module _ {W : Type 0} (port : Port W) where
  -- The delay loop at the start has no effect on memory.
  pub media_check_cmd : SysReq → Driver W → Option (Reply W)
  unfolding media_return
  media_check_cmd req d =
      let asked : Option (Reply W) = (do
        (found, d') ← disk_info_cached port req.unit d
        elim found [
          | none ↦ some (record { status = failed not_ready; req = req; driver = d' })
          | some info ↦ some (record {
            status = op_complete;
            req = record req { return_info = media_return info };
            driver = d';
          })
        ]) in
      if leb max_units req.unit
      then some (record { status = failed unknown_unit; req = req; driver = d })
      else if get_or d.media_changed req.unit false
      then some (record {
        status = op_complete;
        req = record req { return_info = media_is_changed };
        driver = record d {
          media_changed = set d.media_changed req.unit false;
          info_cache = set d.info_cache req.unit none;
        };
      })
      else asked

  -- `_fmemcpy(fn_bpb_pointers[unit], &buf[0x0b], sizeof(DOS_BPB))`, and the answer.
  abbrev bpb_found : SysReq → Bytes → Driver W → Reply W
  bpb_found req buf d = record {
    status = op_complete;
    req = record req { buffer = buf; bpb = some req.unit };
    driver = record d { bpb_table = set d.bpb_table req.unit (take 25 (drop 0x0b buf)) };
  }

  -- Sector 0 from the cache, or read into the buffer that DOS gave and stored in the cache.
  pub read_bpb : SysReq → Driver W → Option (Reply W)
  read_bpb req d = elim (cache_find req.unit 0 d.cache.slots) [
    | some i ↦ some (bpb_found req (blit req.buffer 0 (cached_sector d.cache.slots i)) d)
    | none ↦ do
      r ←
          nio_disk_read_sector port (unit_to_diskservice_slot d req.unit) 0 req.buffer sector_size 0
            d.nio
      let bad = not r.ok || ltb r.bytes_read sector_size
      some (
          if bad
          then record {
            status = failed read_fault;
            req = record req { buffer = r.buffer };
            driver = record d { nio = r.nio };
          }
          else bpb_found req r.buffer
              (record d { nio = r.nio; cache = cache_store req.unit 0 r.buffer d.cache }))
  ]

  -- Without a medium the table keeps the BPB that it has.
  pub build_bpb_cmd : SysReq → Driver W → Option (Reply W)
  unfolding read_bpb
  build_bpb_cmd req d =
      let asked : Option (Reply W) = (do
        (found, d') ← disk_info_cached port req.unit d
        elim found [
          | none ↦ read_bpb req d'
          | some info ↦
              if bit_and info.flags info_inserted == 0
              then some (record {
                status = op_complete;
                req = record req { bpb = some req.unit };
                driver = d';
              })
              else read_bpb req d'
        ]) in
      if leb max_units req.unit
      then some (record { status = failed unknown_unit; req = req; driver = d })
      else asked
