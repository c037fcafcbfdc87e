-- ===== src/Driver/Input.antt =====
-- `Input_cmd` of sys/commands_nio.c: a read of sectors through the cache, with read-ahead, retries and
-- smaller requests after damaged frames. Sums of sector numbers and counts have no wrap-around here,
-- for the code tests both against the medium and the count before it adds.
pub mod Shrink
pub mod Total
pub mod Served
pub mod Truth
pub mod Delivers
pub mod Promise
mod Tests
use fujinet_msdos.Base.{
  ◌>>=◌, ℕ, zero, suc, ◌+◌, ◌-◌, ◌*◌, ◌/◌, ◌%◌, Bool, true, false, not, ◌&&◌, ◌||◌, Option, none,
  some, [], Bytes, u8, u16, u32, ltb, leb, ◌==◌, if◌then◌else◌, get_or, take, drop, blit,
}
use fujinet_msdos.Nio.Codes.{NioError, short_frame, length_mismatch, bad_checksum}
use fujinet_msdos.Nio.Port.{Port}
use fujinet_msdos.Nio.Disk.{ReadDone, nio_disk_read_sectors}
use fujinet_msdos.Driver.Cache.{Cache, sector_size, cache_find, cached_sector, cache_store}
use fujinet_msdos.Driver.State.{
  Driver, SysReq, Reply, max_units, failed, op_complete, unknown_unit, not_found, general_fail,
  unit_to_diskservice_slot, sector_max_of,
}

pub data ReadOutcome : Type 0 where
  read_ok downshifted gave_up : ReadOutcome

-- The errors of a frame that was damaged on the line.
pub is_damage : NioError → Bool
is_damage short_frame = true
is_damage length_mismatch = true
is_damage bad_checksum = true
is_damage _ = false

-- `if (limit > new_limit) limit = new_limit`.
pub lower : ℕ → ℕ → ℕ
lower limit new_limit = if ltb new_limit limit then new_limit else limit

-- Both sizes are cut to half of the request that failed, and to 1 at least.
pub downshift : {W : Type 0} → ℕ → Driver W → Driver W
unfolding lower
downshift fetch d =
    let half = u8 (fetch / 2) in
    let new_limit = if ltb half 1 then 1 else half in
    record d {
      batch_sectors = lower d.batch_sectors new_limit;
      readahead_sectors = lower d.readahead_sectors new_limit;
    }

module _ {W : Type 0} (port : Port W) where
  -- The `for` loop over the attempts that are left. Its 8-bit counter does not wrap, for the retries
  -- are 16 at most.
  pub read_attempts : ℕ → ℕ → ℕ → ℕ → Driver W → Option (ReadOutcome × Driver W)
  read_attempts zero unit sector fetch d = some (gave_up, d)
  read_attempts (suc n) unit sector fetch d = do
    r ←
        nio_disk_read_sectors port (unit_to_diskservice_slot d unit) sector fetch d.readahead_data
          (u16 (fetch * sector_size)) 0 d.nio
    let d' = record d { nio = r.nio; readahead_data = r.buffer }
    let again = read_attempts n unit sector fetch d'
    if r.ok && leb (u16 (fetch * sector_size)) r.bytes_read
        then some (read_ok, d')
        else if d.auto_downshift && ltb 1 fetch && is_damage r.nio.last.error
        then some (downshifted, downshift fetch d')
        else again

-- `readahead_data[fill]`.
abbrev pub readahead_row : Bytes → ℕ → Bytes
readahead_row content fill = take sector_size (drop (fill * sector_size) content)

-- The `for` loop that stores the sectors read, from number `fill` on.
pub fill_cache : ℕ → ℕ → ℕ → ℕ → Bytes → Cache → Cache
fill_cache zero fill unit sector content c = c
fill_cache (suc n) fill unit sector content c =
    fill_cache n (fill + 1) unit sector content
      (cache_store unit (u32 (sector + fill)) (readahead_row content fill) c)

pub record Progress (W : Type 0) : Type 0 where
  pub done : ℕ
  pub sector : ℕ
  pub buffer : Bytes
  pub driver : Driver W

-- How the loop ends: by its test or a `break`, or by the early return for a sector that is not there.
pub data LoopEnd : Type 0 where
  finished missing : LoopEnd

-- How many sectors are asked for, and how many are read from the device to have them.
pub batch_size : {W : Type 0} → ℕ → ℕ → Progress W → ℕ
batch_size count sector_max p =
    let remaining = count - p.done in
    let batch =
      if ltb p.driver.batch_sectors remaining then p.driver.batch_sectors else remaining in
    if ltb (sector_max - p.sector) batch then sector_max - p.sector else batch

pub fetch_size : {W : Type 0} → ℕ → ℕ → Progress W → ℕ
fetch_size batch sector_max p =
    let fetch =
      if ltb batch p.driver.readahead_sectors then p.driver.readahead_sectors else batch in
    if ltb (sector_max - p.sector) fetch then sector_max - p.sector else fetch

-- The sector is in the cache.
pub take_cached : {W : Type 0} → ℕ → Progress W → Progress W
take_cached i p = record p {
  done = p.done + 1;
  sector = p.sector + 1;
  buffer = blit p.buffer (u16 (p.done * sector_size)) (cached_sector p.driver.cache.slots i);
}

-- The sectors have been read; the offset in the buffer has 16 bits.
pub take_read : {W : Type 0} → ℕ → ℕ → ℕ → Progress W → Driver W → Progress W
take_read unit batch fetch p d = record {
  done = p.done + batch;
  sector = p.sector + batch;
  buffer =
      blit p.buffer (u16 (p.done * sector_size))
        (take (u16 (batch * sector_size)) d.readahead_data);
  driver = record d { cache = fill_cache fetch 0 unit p.sector d.readahead_data d.cache };
}

-- One round: the loop goes on, or is at its end.
pub data Turn (W : Type 0) : Type 0 where
  more : Progress W → Turn W
  stop : LoopEnd → Progress W → Turn W

-- What a round makes of the outcome of its attempts.
pub settle : {W : Type 0} → ℕ → ℕ → ℕ → Progress W → Driver W → ReadOutcome → Turn W
settle unit batch fetch p d read_ok = more (take_read unit batch fetch p d)
settle unit batch fetch p d downshifted = more (record p { driver = d })
settle unit batch fetch p d gave_up = stop finished (record p { driver = d })

module _ {W : Type 0} (port : Port W) (unit count sector_max : ℕ) where
  pub read_turn : Progress W → Option (Turn W)
  unfolding batch_size fetch_size
  read_turn p =
      let batch = batch_size count sector_max p in
      let fetch = fetch_size batch sector_max p in
      let asked : Option (Turn W) = (do
        (outcome, d) ← read_attempts port (p.driver.io_retries + 1) unit p.sector fetch p.driver
        some (settle unit batch fetch p d outcome)) in
      if not (ltb p.done count)
      then some (stop finished p)
      else if leb sector_max p.sector
      then some (stop missing p)
      else elim (cache_find unit p.sector p.driver.cache.slots) [
        | some i ↦ some (more (take_cached i p))
        | none ↦ asked
      ]

  pub read_loop : ℕ → Progress W → Option (LoopEnd × Progress W)
  read_loop zero p = none
  read_loop (suc fuel) p = elim (read_turn p) [
    | none ↦ none
    | some (stop e p') ↦ some (e, p')
    | some (more p') ↦ read_loop fuel p'
  ]

-- The first sector of a request.
pub start_of : SysReq → ℕ
start_of req = if ltb 22 req.length then req.start_sector_32 else req.start_sector

pub input_cmd : {W : Type 0} → Port W → ℕ → SysReq → Driver W → Option (Reply W)
unfolding start_of
input_cmd {W} port fuel req d =
    let sector_max = sector_max_of (get_or d.bpb_table req.unit []) in
    let start : Progress W = record {
      done = 0;
      sector = start_of req;
      buffer = req.buffer;
      driver = d;
    } in
    let served : Option (Reply W) = (do
      (e, p) ← read_loop port req.unit req.count sector_max fuel start
      let req' = record req { buffer = p.buffer }
      elim e [
        | missing ↦ some (record { status = failed not_found; req = req'; driver = p.driver })
        | finished ↦
            if p.done == 0
            then some (record { status = failed general_fail; req = req'; driver = p.driver })
            else some (record {
              status = op_complete;
              req = record req' { count = p.done };
              driver = p.driver;
            })
      ]) in
    if leb max_units req.unit
    then some (record { status = failed unknown_unit; req = req; driver = d })
    else served
