-- ===== src/Nio/Protocol.antt =====
-- sys/nio_protocol.h and sys/nio_protocol.c: the frame header and `nio_protocol_validate_response`.
pub mod Validate
pub mod Corruption
mod Tests
use fujinet_msdos.Base.{
  ℕ, ◌+◌, ◌-◌, ◌/◌, ◌%◌, ◌*◌, ◌≡◌, ◌||◌, Bool, true, false, not, [], ◌∷◌, Bytes, u8, u16, ltb, ◌==◌,
  if◌then◌else◌, bit_and, get_or, take,
}
use fujinet_msdos.Nio.Checksum.{checksum}

-- `nio_frame_header_t`.
pub record Header : Type 0 where
  pub device : ℕ
  pub command : ℕ
  pub length : ℕ
  pub checksum : ℕ
  pub fields : ℕ

-- NIO_FRAME_HEADER_SIZE, which is `sizeof(nio_frame_header_t)`.
abbrev pub header_size : ℕ
header_size = 6

abbrev pub field_none : ℕ
field_none = 0

abbrev pub field_a1 : ℕ
field_a1 = 1

-- The six bytes of a header in memory, on the little-endian target.
abbrev pub header_bytes : Header → Bytes
header_bytes h =
    h.device ∷ h.command ∷ (h.length % 256) ∷ (h.length / 256) ∷ h.checksum ∷ h.fields ∷ []

-- The NIO_PROTO_OK and NIO_PROTO_ERR_… codes, in the order of their numbers 0 to 7.
pub data ProtoCode : Type 0 where
  ok short_frame length_mismatch bad_checksum device_command bad_fields empty_status : ProtoCode
  reply_too_large : ProtoCode

-- `nio_parsed_response_t`.
pub record Parsed : Type 0 where
  pub status : ℕ
  pub expected_len : ℕ
  pub payload_offset : ℕ
  pub payload_length : ℕ

-- The checksum of a header with its checksum field zeroed, and of the payload that follows it.
unfoldable pub frame_checksum : Header → Bytes → ℕ
frame_checksum h payload =
    u8 (checksum payload (checksum (header_bytes (record h { checksum = 0 })) 0))

-- What a failed validation leaves in `*parsed`.
abbrev pub unparsed : ℕ → Parsed
unparsed expected = record {
  status = 0;
  expected_len = expected;
  payload_offset = 0;
  payload_length = 0;
}

-- `payload` is the receive buffer, of which `rx_len - 6` bytes belong to the frame. A caller that
-- passes a null `parsed` does not look at the second part of the result.
unfoldable pub validate_response : Header → Bytes → ℕ → ℕ → ℕ → ℕ → ProtoCode × Parsed
validate_response header payload rx_len expected_device expected_command reply_capacity =
    let payload_len = u16 (rx_len - header_size) in
    if ltb rx_len header_size
    then (short_frame, unparsed header_size)
    else if not (rx_len == header.length)
    then (length_mismatch, unparsed header.length)
    else if not (frame_checksum header (take payload_len payload) == header.checksum)
    then (bad_checksum, unparsed header.length)
    else if not (header.device == expected_device) || not (header.command == expected_command)
    then (device_command, unparsed header.length)
    else if not (bit_and header.fields 0x80 == 0) || not (bit_and header.fields 0x07 == field_a1)
    then (bad_fields, unparsed header.length)
    else if ltb payload_len 1
    then (empty_status, unparsed header.length)
    else if ltb reply_capacity (payload_len - 1)
    then (reply_too_large, unparsed header.length)
    else (
      ok,
      record {
        status = get_or payload 0 0;
        expected_len = header.length;
        payload_offset = 1;
        payload_length = u16 (payload_len - 1);
      },
    )
