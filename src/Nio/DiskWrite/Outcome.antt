-- ===== src/Nio/DiskWrite/Outcome.antt =====
-- What a write request puts on the line, and what it takes from the answer.
use fujinet_msdos.Base.{
  ℕ, ◌+◌, ◌-◌, ◌≤◌, ◌<◌, ◌≡◌, refl, true, ◌++◌, Bytes, u16, arith, length, length-append, take_all,
  get_or,
}
use fujinet_msdos.Base.Words.{get_u16le}
use fujinet_msdos.Nio.Checksum.{checksum, checksum-append}
use fujinet_msdos.Nio.Protocol.{
  header_size, header_bytes, ProtoCode, ok, bad_fields, Parsed, unparsed, frame_checksum,
  validate_response,
}
use fujinet_msdos.Nio.Codes.{device_disk, disk_version, status_ok, is_status_ok, cmd_write_sectors}
use fujinet_msdos.Nio.Port.{Line, Reception, Port}
use fujinet_msdos.Nio.Disk.{Nio, timeout_slow}
use fujinet_msdos.Nio.DiskWrite.{
  write_header, is_ok, write_reply, write_request, nio_disk_write_sectors,
}

-- The pieces of a write request, together fewer than 65530 bytes, make up one frame of the right
-- length and checksum: echoed back to the sender it is refused for its missing status field and
-- for nothing before that.
pub validate_response-write_header :
    (command : ℕ) (req_prefix buffer : Bytes) (capacity : ℕ)
    → length req_prefix + length buffer < 65530
    → validate_response
        (write_header command req_prefix buffer (length buffer))
        (req_prefix ++ buffer)
        (header_size + length req_prefix + length buffer)
        device_disk
        command
        capacity
      ≡ (bad_fields, unparsed (header_size + length req_prefix + length buffer))
unfolding write_header validate_response frame_checksum
validate_response-write_header command req_prefix buffer capacity small = ground (
  arith,
  take_all (u16 (header_size + length req_prefix + length buffer - header_size))
      (req_prefix ++ buffer) (omega (arith, length-append req_prefix buffer)),
  take_all (length buffer) buffer refl,
  checksum-append req_prefix buffer (
      checksum
        (header_bytes
          (record (write_header command req_prefix buffer (length buffer)) { checksum = 0 }))
        0),
)

-- The frame is a valid response to the write, its status is good, it is long enough and its version is
-- known, and the count is the one that stands in it.
pub record Written {W : Type 0} (command least : ℕ) (got : Reception W) (bytes_written : ℕ)
    : Type 0 where
  pub parsed : Parsed
  pub valid :
      validate_response got.line.rx_header got.line.rx_payload got.rx_len device_disk command 16
      ≡ (ok, parsed)
  pub status_is : parsed.status ≡ status_ok
  pub long_enough : least ≤ parsed.payload_length
  pub version_is : get_or got.line.rx_payload 1 0 ≡ disk_version
  pub count_is : bytes_written ≡ get_u16le got.line.rx_payload (least - 1)

is_ok→eq : (c : ProtoCode) → is_ok c ≡ true → c ≡ ok
unfolding is_ok
is_ok→eq ok h = refl
is_ok→eq _ h = cc

module _ {W : Type 0} (command least bytes_written : ℕ) (n : Nio W) (got : Reception W) where
  write_reply-Written :
      (write_reply command least bytes_written n got).ok ≡ true
      → Written command least got (write_reply command least bytes_written n got).bytes_written
  unfolding write_reply is_status_ok
  write_reply-Written e = record {
    parsed =
        (validate_response got.line.rx_header got.line.rx_payload got.rx_len device_disk command
          16).1;
    valid = ground (
      arith,
      is_ok→eq
          (validate_response got.line.rx_header got.line.rx_payload got.rx_len device_disk command
            16).0,
    );
    status_is = ground arith;
    long_enough = ground arith;
    version_is = ground arith;
    count_is = ground arith;
  }

  write_reply_silent : (write_reply command least bytes_written n got).nio.last ≡ n.last
  unfolding write_reply
  write_reply_silent = ground arith

module _ {W : Type 0} (port : Port W) where
  -- A write that returns true has received from the port a frame that is a valid response to it
  -- with a good status, a long enough payload and the known version, and it reports the count
  -- that stands in that frame.
  pub nio_disk_write_sectors_sound :
      (slot lba count : ℕ) (buffer : Bytes) (buffer_length bytes_written : ℕ) (n : Nio W)
      → (nio_disk_write_sectors port slot lba count buffer buffer_length bytes_written n).ok ≡ true
      → (before : Line W) × Written cmd_write_sectors 13
          (port.getbuf_slip_dual before 16 timeout_slow)
          (nio_disk_write_sectors port slot lba count buffer buffer_length bytes_written
            n).bytes_written
  unfolding nio_disk_write_sectors write_request
  nio_disk_write_sectors_sound slot lba count buffer buffer_length bytes_written n e =
      (_, write_reply-Written cmd_write_sectors 13 bytes_written n _ e)

  -- A write, whether it succeeds or fails, leaves the variables of the last diagnosis as they
  -- were.
  pub nio_disk_write_sectors_silent :
      (slot lba count : ℕ) (buffer : Bytes) (buffer_length bytes_written : ℕ) (n : Nio W)
      → (nio_disk_write_sectors port slot lba count buffer buffer_length bytes_written n).nio.last
        ≡ n.last
  unfolding nio_disk_write_sectors write_request
  nio_disk_write_sectors_silent slot lba count buffer buffer_length bytes_written n =
      write_reply_silent cmd_write_sectors 13 bytes_written n _
