-- ===== src/Driver/Output.antt =====
-- `Output_cmd` of sys/commands_nio.c: a write of sectors, which the cache follows.
pub mod Total
use fujinet_msdos.Base.{
  ◌>>=◌, ℕ, zero, suc, ◌+◌, ◌-◌, ◌*◌, Bool, true, false, not, ◌||◌, Option, none, some, [], Bytes,
  u16, u32, ltb, leb, ◌==◌, if◌then◌else◌, bit_and, get_or, drop,
}
use fujinet_msdos.Nio.Codes.{info_readonly}
use fujinet_msdos.Nio.Port.{Port}
use fujinet_msdos.Nio.Disk.{WriteDone}
use fujinet_msdos.Nio.DiskWrite.{nio_disk_write_sectors}
use fujinet_msdos.Driver.Cache.{Cache, sector_size, cache_update_or_invalidate}
use fujinet_msdos.Driver.State.{
  Driver, SysReq, Reply, max_units, failed, op_complete, unknown_unit, not_ready, write_protect,
  not_found, general_fail, disk_info_cached, unit_to_diskservice_slot, sector_max_of,
}
use fujinet_msdos.Driver.Input.{LoopEnd, finished, missing, start_of}

-- The loop that brings the cache up to date with the sectors written, from number `fill` on.
pub update_cache : ℕ → ℕ → ℕ → ℕ → ℕ → Bytes → Cache → Cache
update_cache zero fill unit sector done buffer c = c
update_cache (suc n) fill unit sector done buffer c =
    update_cache n (fill + 1) unit sector done buffer (
      cache_update_or_invalidate unit (u32 (sector + fill))
        (some (drop (u16 ((done + fill) * sector_size)) buffer)) c)

pub record Writing (W : Type 0) : Type 0 where
  pub done : ℕ
  pub sector : ℕ
  pub driver : Driver W

pub write_batch : {W : Type 0} → ℕ → ℕ → Writing W → ℕ
write_batch count sector_max p =
    let remaining = count - p.done in
    let batch =
      if ltb p.driver.batch_sectors remaining then p.driver.batch_sectors else remaining in
    if ltb (sector_max - p.sector) batch then sector_max - p.sector else batch

module _ {W : Type 0} (port : Port W) (unit count sector_max : ℕ) (buffer : Bytes) where
  -- The write of one batch: the driver after it, and whether all of it was written.
  pub write_one : ℕ → Writing W → WriteDone W
  write_one batch p =
      nio_disk_write_sectors port (unit_to_diskservice_slot p.driver unit) p.sector batch
        (drop (u16 (p.done * sector_size)) buffer) (u16 (batch * sector_size)) 0 p.driver.nio

  -- The fuel is the number of rounds; each writes a sector at least.
  pub write_loop : ℕ → Writing W → Option (LoopEnd × Writing W)
  unfolding write_batch write_one
  write_loop zero p = none
  write_loop (suc fuel) p =
      let batch = write_batch count sector_max p in
      let r = write_one batch p in
      let d = record (p.driver) { nio = r.nio } in
      let bad = not r.ok || ltb r.bytes_written (u16 (batch * sector_size)) in
      let next : Writing W = record {
        done = p.done + batch;
        sector = p.sector + batch;
        driver = record d { cache = update_cache batch 0 unit p.sector p.done buffer d.cache };
      } in
      let rest = write_loop fuel next in
      if not (ltb p.done count)
      then some (finished, p)
      else if leb sector_max p.sector
      then some (missing, p)
      else if bad
      then some (finished, record p { driver = d })
      else rest

-- The transfer itself, once the unit, the medium and its write protection are checked.
pub output_sectors : {W : Type 0} → Port W → ℕ → SysReq → Driver W → Option (Reply W)
output_sectors {W} port fuel req d =
    let sector_max = sector_max_of (get_or d.bpb_table req.unit []) in
    let start : Writing W = record { done = 0; sector = start_of req; driver = d } in
    do
      (e, p) ← write_loop port req.unit req.count sector_max req.buffer fuel start
      elim e [
        | missing ↦ some (record { status = failed not_found; req = req; driver = p.driver })
        | finished ↦
            if p.done == 0
            then some (record { status = failed general_fail; req = req; driver = p.driver })
            else some (record {
              status = op_complete;
              req = record req { count = p.done };
              driver = p.driver;
            })
      ]

pub output_cmd : {W : Type 0} → Port W → ℕ → SysReq → Driver W → Option (Reply W)
output_cmd {W} port fuel req d =
    let served : Option (Reply W) = (do
      (found, d') ← disk_info_cached port req.unit d
      elim found [
        | none ↦ some (record { status = failed not_ready; req = req; driver = d' })
        | some info ↦
            if not (bit_and info.flags info_readonly == 0)
            then some (record { status = failed write_protect; req = req; driver = d' })
            else output_sectors port fuel req d'
      ]) in
    if leb max_units req.unit
    then some (record { status = failed unknown_unit; req = req; driver = d })
    else served
