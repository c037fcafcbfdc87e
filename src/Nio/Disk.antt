-- ===== src/Nio/Disk.antt =====
-- sys/nio.c: `nio_call` and the requests to the disk service. The file-scope variables of the source
-- (the receive buffers, the last diagnosis, the configuration) are the fields of `Nio`; `none` means
-- that a call read on past its fuel, which `nio_call_returns` excludes.
pub mod Total
pub mod Reads
pub mod Info
mod Tests
use fujinet_msdos.Base.{
  ℕ, ◌+◌, ◌-◌, ◌%◌, ◌*◌, Bool, true, false, not, ◌&&◌, ◌||◌, Option, none, some, List, [], ◌∷◌,
  ◌++◌, Bytes, u8, u16, ltb, leb, ◌==◌, if◌then◌else◌, length, take, drop, replicate, get_or, blit,
}
use fujinet_msdos.Base.Words.{put_u16le, put_u32le, get_u16le, get_u32le}
use fujinet_msdos.Nio.Checksum.{checksum}
use fujinet_msdos.Nio.Protocol.{
  Header, header_size, header_bytes, field_none, ProtoCode, validate_response,
}
use fujinet_msdos.Nio.Codes.{
  NioError, bad_status, bad_payload, device_disk, disk_version, cmd_info, cmd_read_sector,
  cmd_write_sector, cmd_read_sectors, cmd_write_sectors, is_status_ok,
}
use fujinet_msdos.Nio.Port.{Line, Port, Response, Diag, Reply, null, own, rx, Memory, Request}
use fujinet_msdos.Nio.Transaction.{nio_transaction_call, slip_end}

-- NIO_TIMEOUT_SLOW, NIO_MAX_RX, NIO_MAX_TX_PREFIX and NIO_MAX_STALE_RESPONSES.
abbrev pub timeout_slow : ℕ
timeout_slow = 15000

abbrev pub max_rx : ℕ
max_rx = 9216

abbrev pub max_tx_prefix : ℕ
max_tx_prefix = 32

abbrev pub max_stale : ℕ
max_stale = 2

-- The file-scope variables. `diag` is `nio_diag`; `last` is what the `nio_last_…` variables hold.
pub record Nio (W : Type 0) : Type 0 where
  pub line : Line W
  pub diag : Diag
  pub last : Diag
  pub network_timeout_ms : ℕ
  pub transport_retries : ℕ

-- `nio_disk_info_t`.
pub record DiskInfo : Type 0 where
  pub flags : ℕ
  pub slot : ℕ
  pub image_type : ℕ
  pub sector_size : ℕ
  pub sector_count : ℕ
  pub last_error : ℕ

-- A result, the response header that comes with it, the reply and the new state.
pub record Done (W : Type 0) : Type 0 where
  pub ok : Bool
  pub response : Response
  pub reply : Reply
  pub nio : Nio W

-- `nio_fail`; the lengths that every caller passes are those that the variables hold already.
pub nio_fail : {W : Type 0} → Nio W → NioError → Nio W
nio_fail n error = record n { last = record (n.last) { error = error } }

-- What a request that reads leaves in the caller's buffer and in `*bytes_read`.
pub record ReadDone (W : Type 0) : Type 0 where
  pub ok : Bool
  pub buffer : Bytes
  pub bytes_read : ℕ
  pub nio : Nio W

pub record WriteDone (W : Type 0) : Type 0 where
  pub ok : Bool
  pub bytes_written : ℕ
  pub nio : Nio W

-- After `nio_bind_transaction` none of the ten pointers that the transaction tests is null.
abbrev pub bound_pointers : List Bool
bound_pointers = replicate 10 true

-- One more than the stale responses that are skipped.
abbrev pub fuel : ℕ
fuel = 3

abbrev pub diag_or : Option Diag → Diag → Diag
diag_or none d = d
diag_or (some d) _ = d

-- The arguments that `nio_call` passes on, and those that it adds.
abbrev pub nio_request : ℕ → ℕ → Bytes → ℕ → Request
nio_request device command payload reply_capacity = record {
  device = device;
  command = command;
  payload = some payload;
  payload_length = length payload;
  reply_capacity = reply_capacity;
  rx_capacity = max_rx;
  max_stale_responses = max_stale;
}

-- What `nio_call` assigns after the transaction.
abbrev pub done_of : {W : Type 0} → Nio W → Bool → Memory W → Done W
done_of n ok m = record {
  ok = ok;
  response = m.response;
  reply = m.reply;
  nio = record n { line = m.line; diag = diag_or m.diag n.diag; last = diag_or m.diag n.diag };
}

-- `nio_call`, on a payload of which all bytes are sent. `response` is the caller's variable before.
pub nio_call :
    {W : Type 0} → Port W → ℕ → ℕ → Bytes → Reply → ℕ → Response → Nio W → Option (Done W)
nio_call port device command payload reply reply_capacity response n =
    elim (nio_transaction_call port bound_pointers max_tx_prefix
      (nio_request device command payload reply_capacity) n.transport_retries n.network_timeout_ms
      timeout_slow fuel
      (record { line = n.line; reply = reply; response = response; diag = some n.diag })) [
        | none ↦ none
        | some (ok, m) ↦ some (done_of n ok m)
      ]

-- An uninitialised local array of 16 bytes; no byte is read that was not received.
abbrev pub resp_16 : Bytes
resp_16 = replicate 16 0

abbrev pub no_response : Response
no_response = record { status = 0; payload_length = 0 }

abbrev pub reply_bytes : Reply → Bytes
reply_bytes (own b) = b
reply_bytes _ = []

-- The assignments to `*info`.
pub read_info : Bytes → ℕ → DiskInfo
read_info resp payload_length = record {
  flags = get_or resp 1 0;
  slot = get_or resp 4 0;
  image_type = get_or resp 5 0;
  sector_size = get_u16le resp 6;
  sector_count = get_u32le resp 8;
  last_error = if ltb 12 payload_length then get_or resp 12 0 else 0;
}

-- The error of a reply that is no good: the payload's where the status is fine.
reply_error : ℕ → NioError
reply_error status = if is_status_ok status then bad_payload else bad_status

info_reply : {W : Type 0} → Done W → Option DiskInfo × Nio W
unfolding read_info reply_error
info_reply d =
    let resp = reply_bytes d.reply in
    let bad =
      not (is_status_ok d.response.status)
      || ltb d.response.payload_length 12
      || not (get_or resp 0 0 == disk_version) in
    if not d.ok
    then (none, d.nio)
    else if bad
    then (none, nio_fail d.nio (reply_error d.response.status))
    else (some (read_info resp d.response.payload_length), d.nio)

pub nio_disk_info : {W : Type 0} → Port W → ℕ → Nio W → Option (Option DiskInfo × Nio W)
unfolding info_reply
nio_disk_info port slot n =
    elim (nio_call port device_disk cmd_info (disk_version ∷ slot ∷ []) (own resp_16) 16 no_response
      n) [ none ↦ none | some d ↦ some (info_reply d) ]

-- What nio_disk_read_sector and nio_disk_read_sectors do with the answer: `skip` bytes stand in front
-- of the data, the last two of them its length. The reply is the receive buffer.
pub data_reply : {W : Type 0} → ℕ → Bytes → ℕ → ℕ → Done W → ReadDone W
unfolding reply_error
data_reply skip buffer buffer_length bytes_read d =
    let rx_payload = d.nio.line.rx_payload in
    let data_len = get_u16le rx_payload (skip - 2) in
    let bad =
      not (is_status_ok d.response.status)
      || ltb d.response.payload_length skip
      || not (get_or rx_payload 0 0 == disk_version) in
    let overlong =
      ltb buffer_length data_len || ltb d.response.payload_length (u16 (skip + data_len)) in
    if not d.ok
    then record { ok = false; buffer = buffer; bytes_read = bytes_read; nio = d.nio }
    else if bad
    then record {
      ok = false;
      buffer = buffer;
      bytes_read = bytes_read;
      nio = nio_fail d.nio (reply_error d.response.status);
    }
    else if overlong
    then record {
      ok = false;
      buffer = buffer;
      bytes_read = bytes_read;
      nio = nio_fail d.nio bad_payload;
    }
    else record {
      ok = true;
      buffer = blit buffer 0 (take data_len (drop skip rx_payload));
      bytes_read = data_len;
      nio = d.nio;
    }

pub nio_disk_read_sector :
    {W : Type 0} → Port W → ℕ → ℕ → Bytes → ℕ → ℕ → Nio W → Option (ReadDone W)
nio_disk_read_sector port slot lba buffer buffer_length bytes_read n =
    elim (nio_call port device_disk cmd_read_sector
      (disk_version ∷ slot ∷ (put_u32le lba ++ put_u16le buffer_length)) rx max_rx no_response n) [
        | none ↦ none
        | some d ↦ some (data_reply 11 buffer buffer_length bytes_read d)
      ]

pub nio_disk_read_sectors :
    {W : Type 0} → Port W → ℕ → ℕ → ℕ → Bytes → ℕ → ℕ → Nio W → Option (ReadDone W)
nio_disk_read_sectors port slot lba count buffer buffer_length bytes_read n =
    elim (nio_call port device_disk cmd_read_sectors
      (disk_version ∷ slot ∷ (put_u32le lba ++ put_u16le count ++ put_u16le buffer_length)) rx
      max_rx no_response n) [
        | none ↦ none
        | some d ↦ some (data_reply 13 buffer buffer_length bytes_read d)
      ]
