-- ===== src/Driver/Tests.antt =====
-- The commands at concrete inputs.
use fujinet_msdos.Base.{◌≡◌, ◌≢◌, refl, Option, none, some, [], ◌∷◌, arith, replicate}
use fujinet_msdos.Nio.Sample.{Peer, peer_port}
use fujinet_msdos.Driver.Sample.{driver}
use fujinet_msdos.Driver.Cache.Shape.{IsCache}
use fujinet_msdos.Driver.State.{Driver, SysReq, Reply}
use fujinet_msdos.Driver.Config.{Environment}
use fujinet_msdos.Driver.Input.{input_cmd}
use fujinet_msdos.Driver.Input.Shrink.{HasSizes}
use fujinet_msdos.Driver.Input.Served.{Served, input_cmd-Served}
use fujinet_msdos.Driver.Output.{output_cmd}
use fujinet_msdos.Driver.Output.Total.{Wrote, output_cmd-Wrote}
use fujinet_msdos.Driver.Ioctl.{ioctl_set_unit_map_case}
use fujinet_msdos.Driver.Ioctl.Mapping.{Remapped, ioctl_set_unit_map_case-Remapped}
use fujinet_msdos.Driver.Dispatch.{interrupt}
use fujinet_msdos.Driver.Dispatch.Total.{interrupt-ne-none}

driver-HasSizes : HasSizes driver
driver-HasSizes = record {
  batch_pos = omega arith;
  readahead_pos = omega arith;
  batch_within = omega arith;
  readahead_within = omega arith;
}

driver-IsCache : IsCache driver.cache
driver-IsCache = record { size_is = refl; next_within = omega arith }

-- Two sectors of unit 1 from number 5 on.
abbrev request : SysReq
request = record {
  length = 22;
  unit = 1;
  command = 4;
  status = 0;
  buffer = replicate 8 0;
  count = 2;
  start_sector = 5;
  start_sector_32 = 0;
  return_info = 0;
  bpb = none;
  unit_code = 0;
}

-- SET_UNIT_MAP of unit 1 to slot 6.
abbrev remap : SysReq
remap = record request { command = 12; count = 9; buffer = 4 ∷ 0 ∷ 0 ∷ 0 ∷ 0 ∷ 1 ∷ 0 ∷ 0 ∷ 6 ∷ [] }

abbrev environment : Environment
environment = record { getenv = λ name. some (b'9' ∷ []); atoi = λ value. 100000 }

input_cmd-Served_example :
    (r : Reply Peer) × (input_cmd peer_port 40 request driver ≡ some r) × Served request r
input_cmd-Served_example =
    input_cmd-Served peer_port 40 request driver driver-HasSizes driver-IsCache (omega arith)

output_cmd-Wrote_example :
    (r : Reply Peer) × (output_cmd peer_port 3 request driver ≡ some r) × Wrote request r
output_cmd-Wrote_example = output_cmd-Wrote peer_port 3 request driver (omega arith) (omega arith)

abbrev no_init : SysReq → Driver Peer → Option (Reply Peer)
no_init req d = some (record { status = 0; req = req; driver = d })

interrupt-ne-none_example : interrupt peer_port 40 no_init request driver ≢ none
interrupt-ne-none_example =
    interrupt-ne-none peer_port 40 no_init request driver (λ e. cc) driver-HasSizes driver-IsCache
      (omega arith)

ioctl_set_unit_map_case-Remapped_example :
    Remapped peer_port 1 6 (ioctl_set_unit_map_case remap driver).driver
ioctl_set_unit_map_case-Remapped_example =
    ioctl_set_unit_map_case-Remapped peer_port remap driver (omega arith) (omega arith)
      (omega arith) refl refl

-- Command 16 is in the table, as one that the driver does not have.
abbrev odd_request : SysReq
odd_request = record request { command = 16 }
