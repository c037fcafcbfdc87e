-- ===== src/Driver/Sample.antt =====
-- A driver for the tests, before its first request, with one sector in its cache.
use fujinet_msdos.Base.{true, false, none, [], ◌∷◌, replicate}
use fujinet_msdos.Nio.Sample.{Peer, fresh}
use fujinet_msdos.Driver.State.{Driver}

-- Unit u has slot u, and the medium of each has 720 sectors.
abbrev pub driver : Driver Peer
driver = record {
  nio = fresh [];
  unit_slot = 0 ∷ 1 ∷ 2 ∷ 3 ∷ 4 ∷ 5 ∷ 6 ∷ 7 ∷ [];
  current_uri = [];
  display_path = [];
  current_uri_len = 0;
  display_path_len = 0;
  cache = record {
    slots =
        record { valid = true; unit = 1; lba = 5; sector = 42 ∷ [] }
        ∷ replicate 55 (record { valid = false; unit = 0; lba = 0; sector = [] });
    next = 0;
  };
  readahead_data = [];
  info_cache = replicate 8 none;
  media_changed = replicate 8 false;
  batch_sectors = 16;
  readahead_sectors = 16;
  io_retries = 2;
  debug_io = false;
  auto_downshift = true;
  bpb_table = replicate 8 (0 ∷ 2 ∷ 2 ∷ 1 ∷ 0 ∷ 2 ∷ 112 ∷ 0 ∷ 208 ∷ 2 ∷ []);
}
