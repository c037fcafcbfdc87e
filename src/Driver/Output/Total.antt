-- ===== src/Driver/Output/Total.antt =====
-- The loop of `Output_cmd` ends: a round writes a sector at least.
use fujinet_msdos.Base.{
  ℕ, zero, suc, ◌+◌, ◌-◌, ◌*◌, ◌≤◌, ◌<◌, ◌≡◌, ◌≢◌, refl, inl, inr, false, not, ◌||◌, Option, none,
  some, [], Bytes, u16, arith, ltb, leb, ◌==◌, Bool-cases, get_or, bit_and,
}
use fujinet_msdos.Nio.Codes.{info_readonly}
use fujinet_msdos.Nio.Port.{Port}
use fujinet_msdos.Nio.Disk.{WriteDone, DiskInfo}
use fujinet_msdos.Driver.Cache.{sector_size}
use fujinet_msdos.Driver.State.{
  Driver, SysReq, Reply, max_units, failed, op_complete, unknown_unit, not_ready, write_protect,
  not_found, general_fail, disk_info_cached, sector_max_of,
}
use fujinet_msdos.Driver.State.Info.{disk_info_cached_returns}
use fujinet_msdos.Driver.Input.{LoopEnd, finished, missing, start_of}
use fujinet_msdos.Driver.Output.{
  Writing, write_batch, write_one, write_loop, update_cache, output_sectors, output_cmd,
}

-- What a reply to a write says of its count.
pub record Wrote {W : Type 0} (req : SysReq) (r : Reply W) : Type 0 where
  pub buffer_is : r.req.buffer ≡ req.buffer
  pub completed : r.status ≡ op_complete → (1 ≤ r.req.count) × (r.req.count ≤ req.count)
  pub refused : r.status ≢ op_complete → r.req.count ≡ req.count

module _ {W : Type 0} (port : Port W) (unit count sector_max : ℕ) (buffer : Bytes) where
  write_batch_lem :
      (p : Writing W)
      → 1 ≤ p.driver.batch_sectors
      → p.done < count
      → p.sector < sector_max
      → (1 ≤ write_batch count sector_max p) × (p.done + write_batch count sector_max p ≤ count)
  unfolding write_batch
  write_batch_lem p b h k = ground arith

  write_loop_returns :
      (fuel : ℕ) (p : Writing W)
      → 1 ≤ p.driver.batch_sectors
      → p.done ≤ count
      → count - p.done < fuel
      → (e : LoopEnd) × (p' : Writing W) × (write_loop port unit count sector_max buffer fuel p
          ≡ some (e, p'))
        × (p'.done ≤ count)
  unfolding write_loop
  write_loop_returns zero p b w h = ground arith
  write_loop_returns (suc fuel) p b w h = go (write_loop_returns fuel)
    where
      n : ℕ
      n = write_batch count sector_max p

      r : WriteDone W
      r = write_one port unit count sector_max buffer n p

      go :
          ((q : Writing W)
            → 1 ≤ q.driver.batch_sectors
            → q.done ≤ count
            → count - q.done < fuel
            → (e : LoopEnd) × (p' : Writing W) × (write_loop port unit count sector_max buffer fuel
                  q
                ≡ some (e, p'))
              × (p'.done ≤ count))
          → (e : LoopEnd) × (p' : Writing W) × (write_loop port unit count sector_max buffer
                (suc fuel)
                p
              ≡ some (e, p'))
            × (p'.done ≤ count)
      go rest = elim (Bool-cases (ltb p.done count)) [
        | inr over ↦ (finished, p, rw (write_loop, over) refl, w)
        | inl going ↦ elim (Bool-cases (leb sector_max p.sector)) [
          | inl off ↦ (missing, p, rw (write_loop, going, off) refl, w)
          | inr on ↦ elim (Bool-cases (not r.ok || ltb r.bytes_written (u16 (n * sector_size)))) [
            | inl bad ↦ (
              finished,
              record p { driver = record (p.driver) { nio = r.nio } },
              rw (write_loop, going, on, bad) refl,
              w,
            )
            | inr good ↦
                let (pos, within) = write_batch_lem p b (ground arith) (ground arith) in
                let (e, q, eq', k) =
                  rest
                    (record {
                      done = p.done + n;
                      sector = p.sector + n;
                      driver = record (p.driver) {
                        nio = r.nio;
                        cache = update_cache n 0 unit p.sector p.done buffer p.driver.cache;
                      };
                    })
                    b within (omega arith) in
                (e, q, rw (write_loop, going, on, good, eq') refl, k)
          ]
        ]
      ]

module _ {W : Type 0} (port : Port W) where
  output_sectors-Wrote :
      (fuel : ℕ) (req : SysReq) (d : Driver W)
      → 1 ≤ d.batch_sectors
      → req.count < fuel
      → (r : Reply W) × (output_sectors port fuel req d ≡ some r) × Wrote req r
  unfolding output_sectors
  output_sectors-Wrote fuel req d b h = go (
      write_loop_returns port req.unit req.count (sector_max_of (get_or d.bpb_table req.unit []))
        req.buffer fuel start b (omega arith) (omega arith))
    where
      start : Writing W
      start = record { done = 0; sector = start_of req; driver = d }

      go :
          (e : LoopEnd) × (p : Writing W) × (write_loop port req.unit req.count
                (sector_max_of (get_or d.bpb_table req.unit []))
                req.buffer
                fuel
                start
              ≡ some (e, p))
            × (p.done ≤ req.count)
          → (r : Reply W) × (output_sectors port fuel req d ≡ some r) × Wrote req r
      go (missing, p, e, k) = (
        record { status = failed not_found; req = req; driver = p.driver },
        rw (output_sectors, e) refl,
        record { buffer_is = refl; completed = λ x. ground arith; refused = λ x. refl },
      )
      go (finished, p, e, k) = elim (Bool-cases (p.done == 0)) [
        | inl nothing ↦ (
          record { status = failed general_fail; req = req; driver = p.driver },
          rw (output_sectors, e, nothing) refl,
          record { buffer_is = refl; completed = λ x. ground arith; refused = λ x. refl },
        )
        | inr something ↦ (
          record { status = op_complete; req = record req { count = p.done }; driver = p.driver },
          rw (output_sectors, e, something) refl,
          record {
            buffer_is = refl;
            completed = λ x. ground (arith, k);
            refused = λ x. absurd (x refl);
          },
        )
      ]

  -- A write command returns, whatever the peer sends, when the batch size is at least 1 and the
  -- fuel exceeds the count. A command that completes has written 1 to count sectors, one that
  -- fails leaves the count as it was, and the buffer is untouched.
  pub output_cmd-Wrote :
      (fuel : ℕ) (req : SysReq) (d : Driver W)
      → 1 ≤ d.batch_sectors
      → req.count < fuel
      → (r : Reply W) × (output_cmd port fuel req d ≡ some r) × Wrote req r
  unfolding output_cmd
  output_cmd-Wrote fuel req d b h = elim (Bool-cases (leb max_units req.unit)) [
    | inl beyond ↦ (
      record { status = failed unknown_unit; req = req; driver = d },
      rw (output_cmd, beyond) refl,
      record { buffer_is = refl; completed = λ x. ground arith; refused = λ x. refl },
    )
    | inr known ↦ go known (disk_info_cached_returns port req.unit d)
  ]
    where
      go :
          leb max_units req.unit ≡ false
          → (found : Option DiskInfo) × (d' : Driver W) × (disk_info_cached port req.unit d
              ≡ some (found, d'))
            × (d' ≡ record d { nio = d'.nio; info_cache = d'.info_cache })
          → (r : Reply W) × (output_cmd port fuel req d ≡ some r) × Wrote req r
      go known (none, d', e, k) = (
        record { status = failed not_ready; req = req; driver = d' },
        rw (output_cmd, known, e) refl,
        record { buffer_is = refl; completed = λ x. ground arith; refused = λ x. refl },
      )
      go known (some info, d', e, k) = elim (Bool-cases (bit_and info.flags info_readonly == 0)) [
        | inr protected ↦ (
          record { status = failed write_protect; req = req; driver = d' },
          rw (output_cmd, known, e, protected) refl,
          record { buffer_is = refl; completed = λ x. ground arith; refused = λ x. refl },
        )
        | inl writable ↦
            let (r, e', w) = output_sectors-Wrote fuel req d' (rw k b) h in
            (r, rw (output_cmd, known, e, writable) e', w)
      ]
