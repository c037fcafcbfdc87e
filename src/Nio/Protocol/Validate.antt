-- ===== src/Nio/Protocol/Validate.antt =====
-- What `validate_response` accepts, and what it says of everything else.
use fujinet_msdos.Base.{ℕ, ◌+◌, ◌-◌, ◌≤◌, ◌<◌, ◌≡◌, Bytes, u16, arith, bit_and, take}
use fujinet_msdos.Nio.Protocol.{
  Header, header_size, field_a1, ok, frame_checksum, validate_response,
}

-- A response frame of `rx_len` bytes that answers the given command, and that the reply buffer holds.
pub record IsResponse (h : Header) (payload : Bytes) (rx_len device command capacity : ℕ)
    : Type 0 where
  pub long_enough : header_size + 1 ≤ rx_len
  pub length_is : rx_len ≡ h.length
  pub checksum_is : frame_checksum h (take (u16 (rx_len - header_size)) payload) ≡ h.checksum
  pub device_is : h.device ≡ device
  pub command_is : h.command ≡ command
  pub no_more_fields : bit_and h.fields 0x80 ≡ 0
  pub one_byte_field : bit_and h.fields 0x07 ≡ field_a1
  pub fits : rx_len ≤ capacity + header_size + 1

module _ (h : Header) (payload : Bytes) (rx_len device command capacity : ℕ) where
  -- A frame of fewer than 65536 bytes that is accepted satisfies the independent description of a
  -- response: its length is the one in the header, its checksum, device and command are right, it
  -- has one status byte, and its data fits the caller's buffer.
  pub validate_response_sound :
      rx_len < 65536
      → (validate_response h payload rx_len device command capacity).0 ≡ ok
      → IsResponse h payload rx_len device command capacity
  unfolding validate_response
  validate_response_sound small e = ground arith
