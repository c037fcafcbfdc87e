-- ===== src/Driver/Input/Tests.antt =====
-- A read of one cached sector and one that the port does not bring.
use fujinet_msdos.Base.{
  ℕ, zero, suc, ◌≡◌, refl, true, false, ◌≢◌, ap, none, some, [], ◌∷◌, Bytes, arith, replicate,
}
use fujinet_msdos.Nio.Port.{Port, Request, rx}
use fujinet_msdos.Nio.Protocol.{Header, Parsed, ok, validate_response}
use fujinet_msdos.Nio.Sample.{Peer, peer_port}
use fujinet_msdos.Nio.Disk.{Nio, Done}
use fujinet_msdos.Nio.Disk.Total.{Called}
use fujinet_msdos.Nio.Disk.Reads.{nio_disk_read_sectors_answered}
use fujinet_msdos.Driver.Sample.{driver}
use fujinet_msdos.Driver.Cache.{Slot}
use fujinet_msdos.Driver.Cache.Coherence.{Disk, Coherent}
use fujinet_msdos.Driver.State.{Driver, SysReq, Reply, sector_max_of}
use fujinet_msdos.Base.Words.{get_u16le, get_u32le}
use fujinet_msdos.Driver.Input.{input_cmd}
use fujinet_msdos.Driver.Input.Truth.{IsTruthful}
use fujinet_msdos.Driver.Input.Delivers.{IsSectored}
use fujinet_msdos.Driver.Input.Promise.{Delivered, input_cmd-Delivered}

abbrev silent_port : Port Peer
silent_port = record peer_port {
  getbuf_slip_dual = λ l capacity timeout. record { line = l; rx_len = 0 };
}

-- Every sector of every unit is filled with 42.
abbrev full_disk : Disk
full_disk = λ unit lba. replicate 512 42

full_disk-IsSectored : IsSectored full_disk
full_disk-IsSectored unit lba = refl

-- A frame without a byte is none, so no call succeeds.
empty_frame :
    (h : Header) (payload : Bytes) (device command capacity : ℕ) (parsed : Parsed)
    → validate_response h payload 0 device command capacity ≢ (ok, parsed)
unfolding validate_response
empty_frame h payload device command capacity parsed e = cc

no_answer : (q : Request) (n : Nio Peer) (d : Done Peer) → Called silent_port q rx n d → d.ok ≢ true
no_answer q n d c e =
    let a = c.answered e in
    let silent : 0 ≡ a.rx_len = ap (λ x. x.rx_len) a.heard in
    empty_frame _ _ _ _ _ _ (rw (← silent) at a.valid)

silent_port-IsTruthful : IsTruthful silent_port full_disk
silent_port-IsTruthful slot lba count buffer n r small room e good whole k lt =
    let (d, q, c, h) =
      nio_disk_read_sectors_answered silent_port slot lba count buffer _ 0 n r e good in
    absurd (no_answer q n d c h)

abbrev blank_slot : Slot
blank_slot = record { valid = false; unit = 0; lba = 0; sector = [] }

blank-Coherent : (n : ℕ) → Coherent full_disk (replicate n blank_slot)
blank-Coherent zero = tt
blank-Coherent (suc n) = (λ e. cc, blank-Coherent n)

-- Sector 5 of unit 1 is in the cache.
abbrev reader : Driver Peer
reader = record driver {
  cache = record {
    slots =
        record { valid = true; unit = 1; lba = 5; sector = replicate 512 42 }
        ∷ replicate 55 blank_slot;
    next = 1;
  };
  readahead_data = replicate 8192 0;
}

abbrev two_sectors : SysReq
two_sectors = record {
  length = 22;
  unit = 1;
  command = 4;
  status = 0;
  buffer = replicate 1024 0;
  count = 2;
  start_sector = 5;
  start_sector_32 = 0;
  return_info = 0;
  bpb = none;
  unit_code = 0;
}

input_cmd-Delivered_example :
    (r : Reply Peer) × (input_cmd silent_port 40 two_sectors reader ≡ some r)
    × Delivered full_disk two_sectors r
unfolding sector_max_of get_u16le get_u32le
input_cmd-Delivered_example =
    input_cmd-Delivered silent_port full_disk full_disk silent_port-IsTruthful full_disk-IsSectored
      40 two_sectors reader (λ lba. refl) (λ e. refl, blank-Coherent 55)
      (record {
        batch_pos = omega arith;
        readahead_pos = omega arith;
        batch_within = omega arith;
        readahead_within = omega arith;
      })
      (record { size_is = refl; next_within = omega arith }) refl (omega arith) (omega arith)
      (omega arith) (omega arith)
