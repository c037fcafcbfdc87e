-- ===== src/Nio/Disk/Tests.antt =====
-- The disk requests at concrete inputs.
use fujinet_msdos.Base.{◌≡◌, refl, some, [], ◌∷◌, arith, replicate}
use fujinet_msdos.Nio.Protocol.Corruption.{response_header}
use fujinet_msdos.Nio.Codes.{device_disk, cmd_info}
use fujinet_msdos.Nio.Port.{Line}
use fujinet_msdos.Nio.Sample.{Peer, peer_port, fresh}
use fujinet_msdos.Nio.Transaction.{send}
use fujinet_msdos.Nio.Transaction.Answer.{sent}
use fujinet_msdos.Nio.Disk.{Nio, DiskInfo, ReadDone, nio_disk_info, nio_disk_read_sectors}
use fujinet_msdos.Nio.Disk.Reads.{ReadWithin, nio_disk_read_sectors_within}
use fujinet_msdos.Nio.Disk.Info.{encode_info, info_query, info_request, nio_disk_info-encode_info}

abbrev a_disk : DiskInfo
a_disk = record {
  flags = 3;
  slot = 1;
  image_type = 2;
  sector_size = 512;
  sector_count = 2880;
  last_error = 0;
}

-- A peer that answers the info request.
abbrev informed : Nio Peer
informed = fresh (
    (response_header device_disk cmd_info (0 ∷ encode_info a_disk), 0 ∷ encode_info a_disk, 20)
    ∷ [])

nio_disk_read_sectors_within_example :
    (r : ReadDone Peer) × (nio_disk_read_sectors peer_port 1 7 2 (replicate 4 9) 4 0 informed
      ≡ some r)
    × ReadWithin 13 (replicate 4 9) 4 0 r
nio_disk_read_sectors_within_example =
    nio_disk_read_sectors_within peer_port 1 7 2 (replicate 4 9) 4 0 informed (omega arith)

abbrev informed_line : Line Peer
informed_line =
    (peer_port.getbuf_slip_dual (sent peer_port (info_query 1) (info_request 1 informed)).line 9216
      15000).line

nio_disk_info-encode_info_example :
    (n' : Nio Peer) × (nio_disk_info peer_port 1 informed ≡ some (some a_disk, n'))
unfolding send
nio_disk_info-encode_info_example =
    nio_disk_info-encode_info peer_port 1 a_disk informed informed_line
      (record { sector_size_fits = omega arith; sector_count_fits = omega arith }) refl refl refl
