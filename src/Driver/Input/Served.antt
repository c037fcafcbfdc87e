-- ===== src/Driver/Input/Served.antt =====
-- What a request to `Input_cmd` gets.
use fujinet_msdos.Base.{
  ℕ, ◌+◌, ◌≤◌, ◌<◌, ◌≡◌, ◌≢◌, refl, inl, inr, false, some, [], arith, length, leb, ◌==◌, Bool-cases,
  get_or,
}
use fujinet_msdos.Nio.Port.{Port}
use fujinet_msdos.Driver.Cache.Shape.{IsCache}
use fujinet_msdos.Driver.State.{
  Driver, SysReq, Reply, max_units, failed, op_complete, unknown_unit, not_found, general_fail,
  sector_max_of,
}
use fujinet_msdos.Driver.Input.{
  Progress, LoopEnd, finished, missing, read_loop, start_of, input_cmd,
}
use fujinet_msdos.Driver.Input.Shrink.{HasSizes}
use fujinet_msdos.Driver.Input.Total.{IsGoing, read_loop_returns}

-- The reply to a read: the buffer keeps its size, the sizes of later requests and the cache stay in
-- shape, a request
-- that completes has read a sector at least and no more than it asked for, and one that fails has its
-- count as it was.
pub record Served {W : Type 0} (req : SysReq) (r : Reply W) : Type 0 where
  pub size_is : length r.req.buffer ≡ length req.buffer
  pub sizes : HasSizes r.driver
  pub cache : IsCache r.driver.cache
  pub completed : r.status ≡ op_complete → (1 ≤ r.req.count) × (r.req.count ≤ req.count)
  pub refused : r.status ≢ op_complete → r.req.count ≡ req.count

module _ {W : Type 0} (port : Port W) where
  -- A read command returns, whatever the peer sends, when both request sizes are 1 to 16, the
  -- cache has 56 slots with the next place among them, and the fuel exceeds the count plus the
  -- two sizes. The sizes and the cache stay so and the buffer keeps its size; a command that
  -- completes has read 1 to count sectors, and one that fails leaves the count as it was.
  pub input_cmd-Served :
      (fuel : ℕ) (req : SysReq) (d : Driver W)
      → HasSizes d
      → IsCache d.cache
      → req.count + (d.batch_sectors + d.readahead_sectors) < fuel
      → (r : Reply W) × (input_cmd port fuel req d ≡ some r) × Served req r
  unfolding input_cmd
  input_cmd-Served fuel req d v vc h = elim (Bool-cases (leb max_units req.unit)) [
    | inl beyond ↦ (
      record { status = failed unknown_unit; req = req; driver = d },
      rw (input_cmd, beyond) refl,
      record {
        size_is = refl;
        sizes = v;
        cache = vc;
        completed = λ x. ground arith;
        refused = λ x. refl;
      },
    )
    | inr known ↦ go known (
        read_loop_returns port req.unit req.count (sector_max_of (get_or d.bpb_table req.unit []))
          (start_of req) (length req.buffer) fuel start
          (record {
            done_within = omega arith;
            sector_is = omega arith;
            size_is = refl;
            sizes = v;
            cache = vc;
          })
          (omega arith))
  ]
    where
      start : Progress W
      start = record { done = 0; sector = start_of req; buffer = req.buffer; driver = d }

      go :
          leb max_units req.unit ≡ false
          → (e : LoopEnd) × (p : Progress W) × (read_loop port req.unit req.count
                (sector_max_of (get_or d.bpb_table req.unit []))
                fuel
                start
              ≡ some (e, p))
            × IsGoing req.count (start_of req) (length req.buffer) p
          → (r : Reply W) × (input_cmd port fuel req d ≡ some r) × Served req r
      go known (missing, p, e, g) = (
        record {
          status = failed not_found;
          req = record req { buffer = p.buffer };
          driver = p.driver;
        },
        rw (input_cmd, known, e) refl,
        record {
          size_is = g.size_is;
          sizes = g.sizes;
          cache = g.cache;
          completed = λ x. ground arith;
          refused = λ x. refl;
        },
      )
      go known (finished, p, e, g) = elim (Bool-cases (p.done == 0)) [
        | inl nothing ↦ (
          record {
            status = failed general_fail;
            req = record req { buffer = p.buffer };
            driver = p.driver;
          },
          rw (input_cmd, known, e, nothing) refl,
          record {
            size_is = g.size_is;
            sizes = g.sizes;
            cache = g.cache;
            completed = λ x. ground arith;
            refused = λ x. refl;
          },
        )
        | inr something ↦ (
          record {
            status = op_complete;
            req = record req { buffer = p.buffer; count = p.done };
            driver = p.driver;
          },
          rw (input_cmd, known, e, something) refl,
          record {
            size_is = g.size_is;
            sizes = g.sizes;
            cache = g.cache;
            completed = λ x. ground (arith, g.done_within);
            refused = λ x. absurd (x refl);
          },
        )
      ]
