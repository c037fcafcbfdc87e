-- ===== src/BusCommands/Done.antt =====
-- What a read and a write of the older driver report.
use fujinet_msdos.Base.{
  ℕ, zero, suc, ◌+◌, ◌≤◌, ◌<◌, ◌≡◌, ◌≢◌, ◌⊎◌, inl, inr, refl, Bool, true, false, not, if◌then◌else◌,
  get_or, arith, Bytes, length, length-blit, u16, u32, ◌*◌, none, some, take, drop, blit, leb, ◌==◌,
  Bool-cases, ◌∙◌,
}
use fujinet_msdos.Nio.Port.{Port}
use fujinet_msdos.Driver.Cache.{sector_size}
use fujinet_msdos.Fujicom.{fuji_bus_call, content_of}
use fujinet_msdos.Driver.State.{SysReq, max_units, op_complete}
use fujinet_msdos.BusCommands.{
  BusDriver, BusReply, plain_call, BusEnd, off_medium, counted, first_sector, medium_size,
  slot_readwrite, read_sectors_loop, write_sectors_loop, bus_end, bus_input_cmd, bus_output_cmd,
}

-- The count of a loop that starts at `idx` with `n` sectors left: all of them lie on the medium.
abbrev Counts : ℕ → ℕ → ℕ → ℕ → BusEnd → Type 0
Counts n idx sector sector_max off_medium = Unit {0}
Counts n idx sector sector_max (counted k) =
    (idx ≤ k) × (k ≤ idx + n) × ((k ≡ idx) ⊎ (sector + k ≤ sector_max + idx))

-- The reply: a request that completes has moved a sector at least, no more than it asked for, and none
-- behind the last sector of the medium; one that fails has its count as it was. The buffer keeps its
-- size.
pub record Done {W : Type 0} (d : BusDriver W) (req : SysReq) (r : BusReply W) : Type 0 where
  pub completed :
      r.status ≡ op_complete
      → (1 ≤ r.req.count)
        × (r.req.count ≤ req.count)
        × (first_sector req + r.req.count ≤ medium_size d req)
  pub refused : r.status ≢ op_complete → r.req.count ≡ req.count
  pub size_is : length r.req.buffer ≡ length req.buffer

-- A sector more in front.
sector_more :
    (n idx sector sector_max : ℕ) (e : BusEnd)
    → sector < sector_max
    → sector_max < 4294967296
    → Counts n (idx + 1) (u32 (sector + 1)) sector_max e
    → Counts (suc n) idx sector sector_max e
sector_more n idx sector sector_max off_medium on small v = tt
sector_more n idx sector sector_max (counted k) on small (low, high, far) =
    (omega arith, omega arith, inr (omega arith))

bus_end-Done :
    {W : Type 0} (d d' : BusDriver W) (req req' : SysReq) (e : BusEnd)
    → Counts req.count 0 (first_sector req) (medium_size d req) e
    → length req'.buffer ≡ length req.buffer
    → req'.count ≡ req.count
    → Done d req (bus_end e req' d')
unfolding bus_end
bus_end-Done d d' req req' off_medium v size same = record {
  completed = λ x. ground arith;
  refused = λ x. same;
  size_is = size;
}
bus_end-Done d d' req req' (counted k) (low, high, far) size same = elim (Bool-cases (k == 0)) [
  | inl nothing ↦
      rw (bus_end, nothing)
        (record { completed = λ x. ground arith; refused = λ x. same; size_is = size })
  | inr something ↦
      rw (bus_end, something)
        (record {
          completed = λ x. (ground arith, omega arith, ground arith);
          refused = λ x. absurd (x refl);
          size_is = size;
        })
]

-- A refusal leaves the request as it was.
same-Done :
    {W : Type 0} (d : BusDriver W) (req : SysReq) (st : ℕ) (d' : BusDriver W)
    → st ≢ op_complete
    → Done d req (record { status = st; req = req; driver = d' })
same-Done d req st d' ne = record {
  completed = λ x. absurd (ne x);
  refused = λ x. refl;
  size_is = refl;
}

either-Done :
    {W : Type 0} (d : BusDriver W) (req : SysReq) (c : Bool) (a b : BusReply W)
    → Done d req a
    → Done d req b
    → Done d req (if c then a else b)
either-Done d req true a b va vb = va
either-Done d req false a b va vb = vb

module _ {W : Type 0} (port : Port W) where
  abbrev Reads : ℕ → ℕ → ℕ → ℕ → Bytes → BusEnd × Bytes × W → Type 0
  Reads n idx sector sector_max buffer r =
      Counts n idx sector sector_max r.0 × (length r.1 ≡ length buffer)

  read_loop-Reads :
      (n idx unit sector sector_max : ℕ) (buffer : Bytes) (w : W)
      → sector_max < 4294967296
      → Reads n idx sector sector_max buffer
          (read_sectors_loop port n idx unit sector sector_max buffer w)
  unfolding read_sectors_loop
  read_loop-Reads zero idx unit sector sector_max buffer w small =
      ((omega arith, omega arith, inl refl), refl)
  read_loop-Reads (suc n) idx unit sector sector_max buffer w small =
      let off = u16 (idx * sector_size) in
      let got =
        fuji_bus_call port (plain_call (0x31 + unit) b'R' 7 sector)
          (some (take sector_size (drop off buffer))) sector_size w in
      let buffer' = blit buffer off (take sector_size (content_of got.reply)) in
      let size = length-blit buffer off (take sector_size (content_of got.reply)) in
      elim (Bool-cases (leb sector_max sector)) [
        | inl behind ↦ rw (read_sectors_loop, behind) (tt, refl)
        | inr on ↦ elim (Bool-cases got.ok) [
          | inr bad ↦ rw (read_sectors_loop, on, bad) ((omega arith, omega arith, inl refl), size)
          | inl good ↦
              let (v, same) =
                read_loop-Reads n (idx + 1) unit (u32 (sector + 1)) sector_max buffer' got.world
                  small in
              rw (read_sectors_loop, on, good)
                (sector_more n idx sector sector_max _ (ground arith) small v, same ∙ size)
        ]
      ]

  write_loop-Counts :
      (n idx unit sector sector_max : ℕ) (buffer : Bytes) (w : W)
      → sector_max < 4294967296
      → Counts n idx sector sector_max
          (write_sectors_loop port n idx unit sector sector_max buffer w).0
  unfolding write_sectors_loop
  write_loop-Counts zero idx unit sector sector_max buffer w small =
      (omega arith, omega arith, inl refl)
  write_loop-Counts (suc n) idx unit sector sector_max buffer w small =
      let call = record (plain_call (0x31 + unit) b'W' 7 sector) {
        data_in = some (take sector_size (drop (u16 (idx * sector_size)) buffer));
        data_length = sector_size;
      } in
      let sent = fuji_bus_call port call none 0 w in
      elim (Bool-cases (leb sector_max sector)) [
        | inl behind ↦ rw (write_sectors_loop, behind) tt
        | inr on ↦ elim (Bool-cases sent.ok) [
          | inr bad ↦ rw (write_sectors_loop, on, bad) (omega arith, omega arith, inl refl)
          | inl good ↦
              rw (write_sectors_loop, on, good)
                (sector_more n idx sector sector_max _ (ground arith) small (
                  write_loop-Counts n (idx + 1) unit (u32 (sector + 1)) sector_max buffer sent.world
                    small))
        ]
      ]

  input-Done :
      (req : SysReq) (d : BusDriver W)
      → medium_size d req < 4294967296
      → Done d req (bus_input_cmd port req d)
  unfolding bus_input_cmd
  input-Done req d small =
      let (v, size) =
        read_loop-Reads req.count 0 req.unit (first_sector req) (medium_size d req) req.buffer
          d.world small in
      either-Done d req (leb max_units req.unit) _ _ (same-Done d req _ d (λ x. ground arith))
        (bus_end-Done d _ req _ _ v size refl)

  output-Done :
      (req : SysReq) (d : BusDriver W)
      → medium_size d req < 4294967296
      → Done d req (bus_output_cmd port req d)
  unfolding bus_output_cmd
  output-Done req d small =
      let v =
        write_loop-Counts req.count 0 req.unit (first_sector req) (medium_size d req) req.buffer
          d.world small in
      either-Done d req (leb max_units req.unit) _ _ (same-Done d req _ d (λ x. ground arith)) (
        either-Done d req (not (get_or d.disk_slots (req.unit * 38 + 1) 0 == slot_readwrite)) _ _
          (same-Done d req _ d (λ x. ground arith)) (bus_end-Done d _ req req _ v refl refl))

  -- Whatever the port does, and for a medium of fewer than 2^32 sectors, a read or a write of the
  -- older driver that completes reports at least one sector, no more than were asked for, and
  -- none behind the last sector of the medium; one that fails leaves the count of the request as
  -- it was; the buffer keeps its size.
  pub bus_transfer-Done :
      (req : SysReq) (d : BusDriver W)
      → medium_size d req < 4294967296
      → Done d req (bus_input_cmd port req d) × Done d req (bus_output_cmd port req d)
  bus_transfer-Done req d small = (input-Done req d small, output-Done req d small)
