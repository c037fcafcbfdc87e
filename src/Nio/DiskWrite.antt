-- ===== src/Nio/DiskWrite.antt =====
-- sys/nio.c: `nio_disk_write_sector` and `nio_disk_write_sectors`, which build their frame by hand, so
-- that the sector data is sent from the caller's buffer.
pub mod Outcome
mod Tests
use fujinet_msdos.Base.{
  ℕ, ◌+◌, ◌-◌, Bool, true, false, not, ◌||◌, [], ◌∷◌, ◌++◌, Bytes, u8, u16, ltb, ◌==◌,
  if◌then◌else◌, length, take, get_or,
}
use fujinet_msdos.Base.Words.{put_u16le, put_u32le, get_u16le}
use fujinet_msdos.Nio.Checksum.{checksum}
use fujinet_msdos.Nio.Protocol.{
  Header, header_size, header_bytes, field_none, ProtoCode, ok, Parsed, validate_response,
}
use fujinet_msdos.Nio.Codes.{
  device_disk, disk_version, cmd_write_sector, cmd_write_sectors, is_status_ok,
}
use fujinet_msdos.Nio.Port.{Line, Reception, Port}
use fujinet_msdos.Nio.Transaction.{slip_end}
use fujinet_msdos.Nio.Disk.{Nio, WriteDone, resp_16, timeout_slow}

-- The header that is written to `tx_prefix`, over a request in two parts.
pub write_header : ℕ → Bytes → Bytes → ℕ → Header
write_header command req_prefix buffer buffer_length =
    let blank : Header = record {
      device = device_disk;
      command = command;
      length = u16 (header_size + length req_prefix + buffer_length);
      checksum = 0;
      fields = field_none;
    } in
    record blank {
      checksum = u8 (
          checksum (take buffer_length buffer)
            (checksum req_prefix (checksum (header_bytes blank) 0)));
    }

is_ok : ProtoCode → Bool
is_ok ok = true
is_ok _ = false

-- What both functions make of the frame that `getbuf_slip_dual` has brought. `least` is the shortest
-- payload that is taken, and the count of bytes written stands in its last two bytes; `resp` still has
-- the status in front.
pub write_reply : {W : Type 0} → ℕ → ℕ → ℕ → Nio W → Reception W → WriteDone W
unfolding is_ok
write_reply command least bytes_written n got =
    let resp = got.line.rx_payload in
    let (code, parsed) =
      validate_response got.line.rx_header resp got.rx_len device_disk command 16 in
    let n' = record n {
      line = record (n.line) { world = got.line.world; rx_header = got.line.rx_header };
    } in
    let bad =
      not (is_status_ok parsed.status)
      || ltb parsed.payload_length least
      || not (get_or resp 1 0 == disk_version) in
    if not (is_ok code)
    then record { ok = false; bytes_written = bytes_written; nio = n' }
    else if bad
    then record { ok = false; bytes_written = bytes_written; nio = n' }
    else record { ok = true; bytes_written = get_u16le resp (least - 1); nio = n' }

module _ {W : Type 0} (port : Port W) where
  pub send_write : Header → Bytes → Bytes → ℕ → W → W
  send_write tx req_prefix buffer buffer_length w =
      let opened = port.putc (port.flush_rx w) slip_end in
      let prefixed = port.putbuf_slip (port.putbuf_slip opened (header_bytes tx)) req_prefix in
      let filled =
        if buffer_length == 0
        then prefixed
        else port.putbuf_slip prefixed (take buffer_length buffer) in
      port.wait_tx_empty (port.putc filled slip_end)

  -- The block that both functions repeat: `resp` is a local array, in which the answer is received.
  pub write_request : ℕ → Bytes → ℕ → Bytes → ℕ → ℕ → Nio W → WriteDone W
  write_request command req_prefix least buffer buffer_length bytes_written n =
      let tx = write_header command req_prefix buffer buffer_length in
      let sent = send_write tx req_prefix buffer buffer_length n.line.world in
      write_reply command least bytes_written n (
        port.getbuf_slip_dual (record (n.line) { world = sent; rx_payload = resp_16 }) 16
          timeout_slow)

  pub nio_disk_write_sector : ℕ → ℕ → Bytes → ℕ → ℕ → Nio W → WriteDone W
  nio_disk_write_sector slot lba buffer buffer_length bytes_written n =
      write_request cmd_write_sector
        (disk_version ∷ slot ∷ (put_u32le lba ++ put_u16le buffer_length)) 11 buffer buffer_length
        bytes_written n

  pub nio_disk_write_sectors : ℕ → ℕ → ℕ → Bytes → ℕ → ℕ → Nio W → WriteDone W
  nio_disk_write_sectors slot lba count buffer buffer_length bytes_written n =
      write_request cmd_write_sectors
        (disk_version ∷ slot ∷ (put_u32le lba ++ put_u16le count ++ put_u16le buffer_length)) 13
        buffer buffer_length bytes_written n
