-- ===== src/BusCommands/Tests.antt =====
-- The older driver at concrete inputs.
use fujinet_msdos.Base.{◌≡◌, refl, none, [], ◌∷◌, ◌++◌, arith, replicate}
use fujinet_msdos.Base.Words.{get_u16le, get_u32le}
use fujinet_msdos.Nio.Sample.{Peer, peer_port, fresh}
use fujinet_msdos.Driver.State.{SysReq, sector_max_of}
use fujinet_msdos.BusCommands.{
  BusDriver, medium_size, bus_input_cmd, bus_output_cmd, bus_ioctl_input_cmd,
}
use fujinet_msdos.BusCommands.Done.{Done, bus_transfer-Done}

-- Unit 0 holds a medium of 2880 sectors and may be written to.
abbrev bus_driver : BusDriver Peer
bus_driver = record {
  world = (fresh []).line.world;
  bpb_table = (replicate 8 0 ++ (64 ∷ 11 ∷ [])) ∷ [];
  mount_status = replicate 64 0;
  disk_slots = 0 ∷ 2 ∷ [];
}

abbrev bus_request : SysReq
bus_request = record {
  length = 22;
  unit = 0;
  command = 4;
  status = 0;
  buffer = replicate 8 0;
  count = 2;
  start_sector = 2879;
  start_sector_32 = 0;
  return_info = 0;
  bpb = none;
  unit_code = 0;
}

medium : medium_size bus_driver bus_request ≡ 2880
unfolding sector_max_of get_u16le get_u32le
medium = refl

-- The query puts the signature behind the first byte.
query_test :
    (bus_ioctl_input_cmd peer_port (record bus_request { count = 8 }) bus_driver).req.buffer
    ≡ 0 ∷ b'F' ∷ b'U' ∷ b'J' ∷ b'I' ∷ 0 ∷ 0 ∷ 0 ∷ []
unfolding bus_ioctl_input_cmd
query_test = refl

bus_transfer-Done_example :
    Done bus_driver bus_request (bus_input_cmd peer_port bus_request bus_driver)
    × Done bus_driver bus_request (bus_output_cmd peer_port bus_request bus_driver)
bus_transfer-Done_example =
    bus_transfer-Done peer_port bus_request bus_driver (rw medium (omega arith))
