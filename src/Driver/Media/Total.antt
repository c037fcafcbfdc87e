-- ===== src/Driver/Media/Total.antt =====
-- `Media_check_cmd` and `Build_bpb_cmd` return.
use fujinet_msdos.Base.{◌≢◌, none, arith}
use fujinet_msdos.Nio.Port.{Port}
use fujinet_msdos.Nio.Disk.Reads.{nio_disk_read_sector_within}
use fujinet_msdos.Driver.Cache.{sector_size}
use fujinet_msdos.Driver.State.{Driver, SysReq, unit_to_diskservice_slot}
use fujinet_msdos.Driver.State.Info.{disk_info_cached_returns}
use fujinet_msdos.Driver.Media.{media_check_cmd, read_bpb, build_bpb_cmd}

module _ {W : Type 0} (port : Port W) where
  pub media_check_cmd-ne-none : (req : SysReq) (d : Driver W) → media_check_cmd port req d ≢ none
  unfolding media_check_cmd
  media_check_cmd-ne-none req d h = ground (arith, disk_info_cached_returns port req.unit d)

  read_bpb-ne-none : (req : SysReq) (d : Driver W) → read_bpb port req d ≢ none
  unfolding read_bpb
  read_bpb-ne-none req d h =
      let (r, e, w) =
        nio_disk_read_sector_within port (unit_to_diskservice_slot d req.unit) 0 req.buffer
          sector_size 0 d.nio (omega arith) in
      ground arith

  pub build_bpb_cmd-ne-none : (req : SysReq) (d : Driver W) → build_bpb_cmd port req d ≢ none
  unfolding build_bpb_cmd
  build_bpb_cmd-ne-none req d h =
      let (found, d', e, k) = disk_info_cached_returns port req.unit d in
      ground (arith, read_bpb-ne-none req d')
