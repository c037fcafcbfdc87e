-- ===== src/Nio/Disk/Info.antt =====
-- `nio_disk_info` against a device that answers as the service protocol asks.
use fujinet_msdos.Base.{ℕ, ◌<◌, ◌≡◌, refl, some, true, [], ◌∷◌, ◌++◌, Bytes, arith}
use fujinet_msdos.Base.Words.{put_u16le, put_u32le, get_u16le, get_u32le}
use fujinet_msdos.Nio.Protocol.Corruption.{response_header, validate_response-response_header}
use fujinet_msdos.Nio.Codes.{device_disk, cmd_info, disk_version, is_status_ok}
use fujinet_msdos.Nio.Port.{Line, Port, own, Memory, Request}
use fujinet_msdos.Nio.Transaction.{all_set}
use fujinet_msdos.Nio.Transaction.Answer.{sent, nio_transaction_call_answered}
use fujinet_msdos.Nio.Disk.{
  Nio, DiskInfo, nio_disk_info, nio_call, nio_request, done_of, bound_pointers, max_tx_prefix,
  info_reply, read_info, resp_16, no_response, timeout_slow, max_rx,
}

-- The payload of a reply to the info command: two reserved bytes after the flags.
abbrev pub encode_info : DiskInfo → Bytes
encode_info i =
    disk_version
    ∷ i.flags
    ∷ 0
    ∷ 0
    ∷ i.slot
    ∷ i.image_type
    ∷ (put_u16le i.sector_size ++ put_u32le i.sector_count ++ i.last_error ∷ [])

-- The fields of the info fit their C types.
pub record IsDiskInfo (i : DiskInfo) : Type 0 where
  pub sector_size_fits : i.sector_size < 65536
  pub sector_count_fits : i.sector_count < 4294967296

pub read_info-encode_info : (i : DiskInfo) → IsDiskInfo i → read_info (encode_info i) 13 ≡ i
unfolding read_info put_u16le put_u32le get_u16le get_u32le
read_info-encode_info i v = ground arith

-- The transaction of the info command.
abbrev pub info_request : {W : Type 0} → ℕ → Nio W → Memory W
info_request slot n = record {
  line = n.line;
  reply = own resp_16;
  response = no_response;
  diag = some n.diag;
}

abbrev pub info_query : ℕ → Request
info_query slot = nio_request device_disk cmd_info (disk_version ∷ slot ∷ []) 16

-- When the info fits its C types, and the first frame that comes back is the response of a
-- conforming device with status 0 and the encoding of that info, the caller gets the same info,
-- every field of it.
pub nio_disk_info-encode_info :
    {W : Type 0} (port : Port W) (slot : ℕ) (i : DiskInfo) (n : Nio W) (l : Line W)
    → IsDiskInfo i
    → port.getbuf_slip_dual
        (sent port (info_query slot) (info_request slot n)).line
        max_rx
        timeout_slow
      ≡ record { line = l; rx_len = 20 }
    → l.rx_header ≡ response_header device_disk cmd_info (0 ∷ encode_info i)
    → l.rx_payload ≡ 0 ∷ encode_info i
    → (n' : Nio W) × (nio_disk_info port slot n ≡ some (some i, n'))
unfolding nio_disk_info nio_call info_reply put_u16le put_u32le get_u16le get_u32le is_status_ok
    all_set
nio_disk_info-encode_info port slot i n l v heard hh hp =
    let (m, called, response_is, reply_is) =
      nio_transaction_call_answered port bound_pointers max_tx_prefix (info_query slot)
        n.transport_retries n.network_timeout_ms timeout_slow 2 (info_request slot n) l 20
        (record { status = 0; expected_len = 20; payload_offset = 1; payload_length = 13 }) refl
        (omega arith) heard
        (rw (hh, hp)
          (validate_response-response_header device_disk cmd_info 0 (encode_info i) 16 (omega arith)
            (omega arith))) in
    ((done_of n true m).nio, ground (arith, called, response_is, reply_is))
