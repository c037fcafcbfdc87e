-- ===== src/Nio/Transaction/Frame.antt =====
-- The request frame that `nio_transaction_call` builds, read with the validator of the other direction.
use fujinet_msdos.Base.{◌+◌, ◌-◌, ◌<◌, ◌≡◌, some, Bytes, u16, arith, length, take_all}
use fujinet_msdos.Nio.Protocol.{
  bad_fields, header_size, unparsed, frame_checksum, validate_response,
}
use fujinet_msdos.Nio.Port.{Request}
use fujinet_msdos.Nio.Transaction.{request_header}

-- A request of fewer than 65530 payload bytes, echoed back to its sender, has the right length,
-- checksum, device and command, and is refused for its missing status field.
pub validate_response-request_header :
    (q : Request) (payload : Bytes)
    → q.payload ≡ some payload
    → q.payload_length ≡ length payload
    → length payload < 65530
    → validate_response
        (request_header q)
        payload
        (header_size + length payload)
        q.device
        q.command
        q.reply_capacity
      ≡ (bad_fields, unparsed (header_size + length payload))
unfolding request_header validate_response frame_checksum
validate_response-request_header q payload p n small = ground (
  arith,
  take_all (u16 (header_size + length payload - header_size)) payload (omega arith),
  take_all q.payload_length payload n,
)
