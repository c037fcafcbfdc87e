-- ===== src/Driver/Input/Promise.antt =====
-- What a completed read promises: the sectors of the disk, from the cache or from a truthful peer.
use fujinet_msdos.Base.{
  ℕ, zero, suc, ◌+◌, ◌*◌, ◌≤◌, ◌<◌, ◌≡◌, refl, inl, inr, false, some, [], arith, length, leb, ◌==◌,
  Bool-cases, get_or,
}
use fujinet_msdos.Nio.Port.{Port}
use fujinet_msdos.Driver.Cache.{sector_size}
use fujinet_msdos.Driver.Cache.Coherence.{Disk, Coherent}
use fujinet_msdos.Driver.Cache.Shape.{IsCache}
use fujinet_msdos.Driver.State.{
  Driver, SysReq, Reply, max_units, failed, op_complete, unknown_unit, not_found, general_fail,
  sector_max_of, unit_to_diskservice_slot,
}
use fujinet_msdos.Driver.Input.{
  Progress, Turn, LoopEnd, finished, missing, read_turn, read_loop, start_of, input_cmd,
}
use fujinet_msdos.Driver.Input.Shrink.{HasSizes}
use fujinet_msdos.Driver.Input.Total.{IsGoing, rounds, Turned, stopped, moved, read_turn_lem}
use fujinet_msdos.Driver.Input.Truth.{sector_at, Image, IsTruthful, readahead_size}
use fujinet_msdos.Driver.Input.Delivers.{IsSectored, IsTrue, TurnIsTrue, read_turn-IsTrue}

-- The reply to a read, against the disk.
pub record Delivered {W : Type 0} (disk : Disk) (req : SysReq) (r : Reply W) : Type 0 where
  pub coherent : Coherent disk r.driver.cache.slots
  pub within : r.req.count ≤ req.count
  pub delivered :
      r.status ≡ op_complete
      → (j : ℕ) → j < r.req.count
      → sector_at j r.req.buffer ≡ disk req.unit (start_of req + j)

module _ {W : Type 0} (port : Port W) (disk : Disk) (image : Image)
    (truthful : IsTruthful port image) (sectored : IsSectored disk) where
  module _ (unit slot count first size sector_max : ℕ)
      (shown : (lba : ℕ) → image slot lba ≡ disk unit lba) (room : count * sector_size ≤ size)
      (narrow : count ≤ 128) (wide : sector_max ≤ 4294967296) where
    abbrev LoopDelivers : ℕ → Progress W → Type 0
    LoopDelivers fuel p =
        (e : LoopEnd) × (q : Progress W) × (read_loop port unit count sector_max fuel p
          ≡ some (e, q))
        × IsTrue disk unit slot first q
        × (q.done ≤ count)

    read_loop-IsTrue :
        (fuel : ℕ) (p : Progress W)
        → IsGoing count first size p
        → IsTrue disk unit slot first p
        → rounds count p < fuel
        → LoopDelivers fuel p
    unfolding read_loop
    read_loop-IsTrue zero p g v h = ground arith
    read_loop-IsTrue (suc fuel) p g v h =
        let (t, e, turned) = read_turn_lem port unit count sector_max first size p g in
        let (t', e', true_turn) =
          read_turn-IsTrue disk image unit slot count first size sector_max sectored shown room
            narrow port p truthful wide g v in
        go (read_loop-IsTrue fuel) t e turned t' e' true_turn cc
      where
        go :
            ((p' : Progress W)
              → IsGoing count first size p'
              → IsTrue disk unit slot first p'
              → rounds count p' < fuel
              → LoopDelivers fuel p')
            → (t : Turn W) → read_turn port unit count sector_max p ≡ some t
            → Turned count first size p t
            → (t' : Turn W) → read_turn port unit count sector_max p ≡ some t'
            → TurnIsTrue disk unit slot first t'
            → t' ≡ t
            → LoopDelivers (suc fuel) p
        go rest t e (stopped end p' g') t' e' v' same =
            let w : IsTrue disk unit slot first p' = rw same at v' in
            (end, p', rw (read_loop, e) refl, w, g'.done_within)
        go rest t e (moved p' g' less) t' e' v' same =
            let w : IsTrue disk unit slot first p' = rw same at v' in
            let (end, q, e'', w', b) = rest p' g' w (omega arith) in
            (end, q, rw (read_loop, e, e'') refl, w', b)

  -- A read command returns, and each sector of a read that completes stands in the buffer as it
  -- is on the disk, in order from the first one asked for, and every valid slot of the cache
  -- holds what is on the disk. Relied on: the peer is truthful, which means that a request for up
  -- to 16 sectors that succeeds in full brings the sectors of its slot; the slot of the unit
  -- shows the disk of the unit, whose sectors have their full size and whose numbers are below
  -- 2^32; the cache holds what is on the disk, has 56 slots and the next place among them; both
  -- request sizes are 1 to 16; the read-ahead buffer has 8192 bytes; the count is 128 at most,
  -- the caller's buffer has room for it, and the fuel exceeds it plus the two sizes.
  pub input_cmd-Delivered :
      (fuel : ℕ) (req : SysReq) (d : Driver W)
      → ((lba : ℕ) → image (unit_to_diskservice_slot d req.unit) lba ≡ disk req.unit lba)
      → Coherent disk d.cache.slots
      → HasSizes d
      → IsCache d.cache
      → length d.readahead_data ≡ readahead_size
      → req.count * sector_size ≤ length req.buffer
      → req.count ≤ 128
      → sector_max_of (get_or d.bpb_table req.unit []) ≤ 4294967296
      → req.count + (d.batch_sectors + d.readahead_sectors) < fuel
      → (r : Reply W) × (input_cmd port fuel req d ≡ some r) × Delivered disk req r
  unfolding input_cmd
  input_cmd-Delivered fuel req d shown coherent sizes shape readahead room narrow wide h =
      elim (Bool-cases (leb max_units req.unit)) [
        | inl beyond ↦ (
          record { status = failed unknown_unit; req = req; driver = d },
          rw (input_cmd, beyond) refl,
          record { coherent = coherent; within = omega arith; delivered = λ x. ground arith },
        )
        | inr known ↦ go known (
            read_loop-IsTrue req.unit (unit_to_diskservice_slot d req.unit) req.count (start_of req)
              (length req.buffer) (sector_max_of (get_or d.bpb_table req.unit [])) shown room narrow
              wide fuel start
              (record {
                done_within = omega arith;
                sector_is = omega arith;
                size_is = refl;
                sizes = sizes;
                cache = shape;
              })
              (record {
                coherent = coherent;
                readahead_is = readahead;
                slot_is = refl;
                delivered = λ j lt. absurd (omega arith);
              })
              (omega arith))
      ]
    where
      start : Progress W
      start = record { done = 0; sector = start_of req; buffer = req.buffer; driver = d }

      go :
          leb max_units req.unit ≡ false
          → LoopDelivers req.unit
              (unit_to_diskservice_slot d req.unit)
              req.count
              (start_of req)
              (length req.buffer)
              (sector_max_of (get_or d.bpb_table req.unit []))
              shown
              room
              narrow
              wide
              fuel
              start
          → (r : Reply W) × (input_cmd port fuel req d ≡ some r) × Delivered disk req r
      go known (missing, p, e, v, b) = (
        record {
          status = failed not_found;
          req = record req { buffer = p.buffer };
          driver = p.driver;
        },
        rw (input_cmd, known, e) refl,
        record { coherent = v.coherent; within = omega arith; delivered = λ x. ground arith },
      )
      go known (finished, p, e, v, b) = elim (Bool-cases (p.done == 0)) [
        | inl nothing ↦ (
          record {
            status = failed general_fail;
            req = record req { buffer = p.buffer };
            driver = p.driver;
          },
          rw (input_cmd, known, e, nothing) refl,
          record { coherent = v.coherent; within = omega arith; delivered = λ x. ground arith },
        )
        | inr something ↦ (
          record {
            status = op_complete;
            req = record req { buffer = p.buffer; count = p.done };
            driver = p.driver;
          },
          rw (input_cmd, known, e, something) refl,
          record { coherent = v.coherent; within = b; delivered = λ x. v.delivered },
        )
      ]
