-- ===== src/Nio/DiskWrite/Tests.antt =====
-- The writes at concrete inputs.
use fujinet_msdos.Base.{◌≡◌, refl, true, [], ◌∷◌, Bytes}
use fujinet_msdos.Nio.Checksum.{checksum, add_carry}
use fujinet_msdos.Nio.Protocol.{validate_response, frame_checksum}
use fujinet_msdos.Nio.Protocol.Corruption.{response_header}
use fujinet_msdos.Nio.Codes.{is_status_ok, device_disk, cmd_write_sectors}
use fujinet_msdos.Nio.Port.{Line}
use fujinet_msdos.Nio.Sample.{Peer, peer_port, fresh}
use fujinet_msdos.Nio.Disk.{Nio}
use fujinet_msdos.Nio.DiskWrite.{
  nio_disk_write_sectors, write_header, write_request, send_write, write_reply,
}
use fujinet_msdos.Nio.DiskWrite.Outcome.{Written, nio_disk_write_sectors_sound}

-- The answer to a write of 512 bytes.
abbrev write_answer : Bytes
write_answer = 1 ∷ 0 ∷ 0 ∷ 0 ∷ 1 ∷ 0 ∷ 0 ∷ 0 ∷ 0 ∷ 0 ∷ 0 ∷ 0 ∷ 2 ∷ []

abbrev accepting : Nio Peer
accepting =
    fresh (
      (response_header device_disk cmd_write_sectors (0 ∷ write_answer), 0 ∷ write_answer, 20) ∷ [])

accepted : (nio_disk_write_sectors peer_port 1 7 1 (5 ∷ 6 ∷ []) 2 0 accepting).ok ≡ true
unfolding nio_disk_write_sectors write_request write_reply send_write write_header validate_response
    frame_checksum checksum add_carry response_header is_status_ok
accepted = refl

nio_disk_write_sectors_sound_example :
    (before : Line Peer) × Written cmd_write_sectors 13
      (peer_port.getbuf_slip_dual before 16 15000)
      (nio_disk_write_sectors peer_port 1 7 1 (5 ∷ 6 ∷ []) 2 0 accepting).bytes_written
nio_disk_write_sectors_sound_example =
    nio_disk_write_sectors_sound peer_port 1 7 1 (5 ∷ 6 ∷ []) 2 0 accepting accepted
