-- ===== src/Nio/Disk/Reads.antt =====
-- Bounds on what a disk read copies.
use fujinet_msdos.Base.{
  ◌∷◌, ◌++◌, ℕ, ◌+◌, ◌-◌, ◌≤◌, ◌<◌, ◌≡◌, true, false, some, Bytes, arith, length, length-blit, take,
  drop,
}
use fujinet_msdos.Nio.Protocol.{Header, ok, Parsed, validate_response}
use fujinet_msdos.Base.Words.{get_u16le, put_u16le, put_u32le}
use fujinet_msdos.Nio.Codes.{device_disk, cmd_read_sector, cmd_read_sectors, disk_version}
use fujinet_msdos.Nio.Port.{Port, Request, rx}
use fujinet_msdos.Nio.Disk.{
  no_response, Nio, Done, ReadDone, data_reply, nio_disk_read_sector, nio_disk_read_sectors, max_rx,
}
use fujinet_msdos.Nio.Disk.Total.{Called, nio_call_returns}

validated_length :
    (h : Header) (payload : Bytes) (rx_len device command capacity : ℕ) {parsed : Parsed}
    → validate_response h payload rx_len device command capacity ≡ (ok, parsed)
    → parsed.payload_length ≤ capacity
unfolding validate_response
validated_length h payload rx_len device command capacity e = ground arith

-- What a read leaves behind. A failed one leaves the buffer and the count as they were. A successful
-- one has copied no more than was asked for, all of it from the received payload behind the `skip` bytes,
-- and the buffer keeps its size.
pub record ReadWithin {W : Type 0} (skip : ℕ) (buffer : Bytes) (buffer_length bytes_read : ℕ)
    (r : ReadDone W) : Type 0 where
  pub within : r.ok ≡ true → (r.bytes_read ≤ buffer_length) × (skip + r.bytes_read ≤ max_rx)
  pub size_is : length r.buffer ≡ length buffer
  pub untouched : r.ok ≡ false → (r.buffer ≡ buffer) × (r.bytes_read ≡ bytes_read)

data_reply-ReadWithin :
    {W : Type 0} (skip : ℕ) (buffer : Bytes) (buffer_length bytes_read : ℕ) (d : Done W)
    → buffer_length + skip < 65536
    → (d.ok ≡ true → d.response.payload_length ≤ max_rx)
    → ReadWithin skip buffer buffer_length bytes_read
        (data_reply skip buffer buffer_length bytes_read d)
unfolding data_reply
data_reply-ReadWithin skip buffer buffer_length bytes_read d small fits = record {
  within = ground arith;
  size_is = ground (
    arith,
    length-blit buffer 0
        (take (get_u16le d.nio.line.rx_payload (skip - 2)) (drop skip d.nio.line.rx_payload)),
  );
  untouched = ground arith;
}

Called-fits :
    {W : Type 0} (port : Port W) (q : Request) (n : Nio W) (d : Done W)
    → Called port q rx n d
    → d.ok ≡ true
    → d.response.payload_length ≤ q.reply_capacity
Called-fits port q n d c h =
    let a = c.answered h in
    let bound = validated_length _ _ _ _ _ _ a.valid in rw (c.done_is, a.response_is) bound

module _ {W : Type 0} (port : Port W) where
  -- A read of sectors with a buffer length below 65523 returns, whatever the port does. A
  -- successful one reports no more than that length, all of it from within the receive buffer;
  -- the buffer keeps its size, and a failed read leaves the buffer and the count as they were.
  pub nio_disk_read_sectors_within :
      (slot lba count : ℕ) (buffer : Bytes) (buffer_length bytes_read : ℕ) (n : Nio W)
      → buffer_length < 65523
      → (r : ReadDone W) × (nio_disk_read_sectors port slot lba count buffer buffer_length
            bytes_read n
          ≡ some r)
        × ReadWithin 13 buffer buffer_length bytes_read r
  unfolding nio_disk_read_sectors
  nio_disk_read_sectors_within slot lba count buffer buffer_length bytes_read n small =
      let (d, e, c) =
        nio_call_returns port device_disk cmd_read_sectors
          (disk_version ∷ slot ∷ (put_u32le lba ++ put_u16le count ++ put_u16le buffer_length)) rx
          max_rx no_response n in
      (
        data_reply 13 buffer buffer_length bytes_read d,
        rw (e, nio_disk_read_sectors),
        data_reply-ReadWithin 13 buffer buffer_length bytes_read d (omega arith)
            (Called-fits port _ n d c),
      )

  -- A read of one sector with a buffer length below 65525 returns, whatever the port does. A
  -- successful one reports no more than that length, all of it from within the receive buffer;
  -- the buffer keeps its size, and a failed read leaves the buffer and the count as they were.
  pub nio_disk_read_sector_within :
      (slot lba : ℕ) (buffer : Bytes) (buffer_length bytes_read : ℕ) (n : Nio W)
      → buffer_length < 65525
      → (r : ReadDone W) × (nio_disk_read_sector port slot lba buffer buffer_length bytes_read n
          ≡ some r)
        × ReadWithin 11 buffer buffer_length bytes_read r
  unfolding nio_disk_read_sector
  nio_disk_read_sector_within slot lba buffer buffer_length bytes_read n small =
      let (d, e, c) =
        nio_call_returns port device_disk cmd_read_sector
          (disk_version ∷ slot ∷ (put_u32le lba ++ put_u16le buffer_length)) rx max_rx no_response
          n in
      (
        data_reply 11 buffer buffer_length bytes_read d,
        rw (e, nio_disk_read_sector),
        data_reply-ReadWithin 11 buffer buffer_length bytes_read d (omega arith)
            (Called-fits port _ n d c),
      )

  data_reply_failed :
      (skip : ℕ) (buffer : Bytes) (size bytes_read : ℕ) (d : Done W) (r : ReadDone W)
      → some (data_reply skip buffer size bytes_read d) ≡ some r
      → r.ok ≡ true
      → d.ok ≡ true
  unfolding data_reply
  data_reply_failed skip buffer size bytes_read d r e good = ground arith

  -- A read that succeeds stands on a call that did.
  pub nio_disk_read_sectors_answered :
      (slot lba count : ℕ) (buffer : Bytes) (buffer_length bytes_read : ℕ) (n : Nio W)
      (r : ReadDone W)
      → nio_disk_read_sectors port slot lba count buffer buffer_length bytes_read n ≡ some r
      → r.ok ≡ true
      → (d : Done W) × (q : Request) × Called port q rx n d × (d.ok ≡ true)
  unfolding nio_disk_read_sectors
  nio_disk_read_sectors_answered slot lba count buffer buffer_length bytes_read n r e good =
      let (d, e', c) =
        nio_call_returns port device_disk cmd_read_sectors
          (disk_version ∷ slot ∷ (put_u32le lba ++ put_u16le count ++ put_u16le buffer_length)) rx
          max_rx no_response n in
      (
        d,
        _,
        c,
        data_reply_failed 13 buffer buffer_length bytes_read d r
            (rw (e', nio_disk_read_sectors) at e) good,
      )
