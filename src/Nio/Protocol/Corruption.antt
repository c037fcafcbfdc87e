-- ===== src/Nio/Protocol/Corruption.antt =====
-- One damaged byte of a response, and the response of an honest device.
use fujinet_msdos.Base.{
  ℕ, ◌+◌, ◌-◌, ◌/◌, ◌%◌, sym, ap, ◌∙◌, [], ◌≤◌, ◌<◌, ◌≡◌, ◌≢◌, ◌∷◌, ◌++◌, suc, Bytes, IsByte,
  AllBytes, u16, arith, length, take_all, length-append,
}
use fujinet_msdos.Nio.Checksum.{
  sum, residue, checksum-residue, sum-append, checksum-append, checksum, checksum-IsByte,
  checksum_one_byte, AllBytes-append, Distinct,
}
use fujinet_msdos.Nio.Protocol.{
  Header, header_size, header_bytes, field_a1, ok, bad_checksum, frame_checksum, validate_response,
  unparsed,
}
use fujinet_msdos.Nio.Protocol.Validate.{IsResponse}

-- The fields of a header fit their C types.
pub record IsHeader (h : Header) : Type 0 where
  pub device_fits : h.device < 256
  pub command_fits : h.command < 256
  pub length_fits : h.length < 65536
  pub checksum_fits : h.checksum < 256
  pub fields_fit : h.fields < 256

header_seed-IsByte :
    (h : Header) → IsHeader h → IsByte (checksum (header_bytes (record h { checksum = 0 })) 0)
header_seed-IsByte h v = checksum-IsByte _ 0 (omega arith) (ground arith)

pub frame_checksum_one_byte :
    (h : Header) (xs ys : Bytes) (x y : ℕ)
    → IsHeader h
    → AllBytes xs
    → AllBytes ys
    → IsByte x
    → IsByte y
    → Distinct x y
    → frame_checksum h (xs ++ x ∷ ys) ≢ frame_checksum h (xs ++ y ∷ ys)
unfolding frame_checksum
frame_checksum_one_byte h xs ys x y v hxs hys hx hy d e =
    let seed = checksum (header_bytes (record h { checksum = 0 })) 0 in
    let hs = header_seed-IsByte h v in
    checksum_one_byte xs ys x y seed hs hxs hys hx hy d (
      omega (
        arith,
        checksum-IsByte (xs ++ x ∷ ys) seed hs (AllBytes-append xs (x ∷ ys) hxs (hx, hys)),
        checksum-IsByte (xs ++ y ∷ ys) seed hs (AllBytes-append xs (y ∷ ys) hxs (hy, hys)),
      ))

-- A response of bytes that fits its frame is valid with payload byte x. With another byte y in
-- that place, where the two are not 0x00 and 0xFF, it is refused as a checksum error.
pub validate_response_one_byte :
    (h : Header) (xs ys : Bytes) (x y device command capacity : ℕ)
    → IsHeader h
    → AllBytes xs
    → AllBytes ys
    → IsByte x
    → IsByte y
    → Distinct x y
    → IsResponse h (xs ++ x ∷ ys) h.length device command capacity
    → h.length ≡ header_size + length (xs ++ x ∷ ys)
    → validate_response h (xs ++ y ∷ ys) h.length device command capacity
      ≡ (bad_checksum, unparsed h.length)
unfolding validate_response
validate_response_one_byte h xs ys x y device command capacity v hxs hys hx hy d r len =
    let n = u16 (h.length - header_size) in
    ground (
      arith,
      frame_checksum_one_byte h xs ys x y v hxs hys hx hy d,
      take_all n (xs ++ x ∷ ys)
          (omega (arith, length-append xs (x ∷ ys), length-append xs (y ∷ ys))),
      take_all n (xs ++ y ∷ ys)
          (omega (arith, length-append xs (x ∷ ys), length-append xs (y ∷ ys))),
    )

-- The header of a conforming response with the given payload, its status first.
unfoldable pub response_header : ℕ → ℕ → Bytes → Header
response_header device command payload =
    let blank : Header = record {
      device = device;
      command = command;
      length = header_size + length payload;
      checksum = 0;
      fields = field_a1;
    } in
    record blank { checksum = frame_checksum blank payload }

-- The response that a conforming device frames, with a status and data that fits the caller's
-- buffer and has fewer than 65529 bytes, is accepted with that status and the length of the data.
pub validate_response-response_header :
    (device command status : ℕ) (rest : Bytes) (capacity : ℕ)
    → length rest ≤ capacity
    → length rest < 65529
    → validate_response
        (response_header device command (status ∷ rest))
        (status ∷ rest)
        (header_size + suc (length rest))
        device
        command
        capacity
      ≡ (
        ok,
        record {
          status = status;
          expected_len = header_size + suc (length rest);
          payload_offset = 1;
          payload_length = length rest;
        },
      )
unfolding response_header frame_checksum validate_response
validate_response-response_header device command status rest capacity fits small = ground (
  arith,
  take_all (u16 (header_size + suc (length rest) - header_size)) (status ∷ rest) (omega arith),
)

-- The header that a conforming device sends with a payload, from the rules of the protocol: the length is
-- that of the whole frame, one byte of the payload is the status, and the checksum is the sum of the other
-- bytes of the frame, modulo 255, where only the sum 0 gives 0.
pub conforming_header : ℕ → ℕ → Bytes → Header
conforming_header device command payload =
    let size = 6 + length payload in
    record {
      device = device;
      command = command;
      length = size;
      checksum = residue (device + command + size % 256 + size / 256 + 1 + sum payload);
      fields = 1;
    }

conforming_header_lem :
    (device command : ℕ) (payload : Bytes)
    → IsByte device
    → IsByte command
    → AllBytes payload
    → length payload < 65530
    → conforming_header device command payload ≡ response_header device command payload
unfolding conforming_header response_header frame_checksum
conforming_header_lem device command payload hd hc hp small =
    let size = 6 + length payload in
    let front : Bytes = device ∷ command ∷ (size % 256) ∷ (size / 256) ∷ 0 ∷ 1 ∷ [] in
    let front_fits : AllBytes front =
      (hd, (hc, (omega arith, (omega arith, (omega arith, (omega arith, tt)))))) in
    let total = device + command + size % 256 + size / 256 + 1 + sum payload in
    let summed : checksum payload (checksum front 0) ≡ residue total =
      sym (checksum-append front payload 0)
      ∙ checksum-residue (front ++ payload) 0 (omega arith)
          (AllBytes-append front payload front_fits hp)
      ∙ ap residue (omega (arith, sum-append front payload)) in
    let byte : residue total ≡ residue total % 256 = ground arith in
    ap (λ k. record { device = device; command = command; length = size; checksum = k; fields = 1 })
      (byte ∙ ap (λ k. k % 256) (sym summed))

-- A response that a device frames by the rules of the protocol is accepted with its status and
-- the length of its data: device, command and payload are bytes, the length in the header is that
-- of the whole frame, one byte is the status, and the checksum is the sum of the other bytes of
-- the frame modulo 255, where only the sum 0 gives 0; the data fits the caller's buffer and has
-- fewer than 65529 bytes.
pub validate_response-conforming_header :
    (device command status : ℕ) (rest : Bytes) (capacity : ℕ)
    → IsByte device
    → IsByte command
    → AllBytes (status ∷ rest)
    → length rest ≤ capacity
    → length rest < 65529
    → validate_response
        (conforming_header device command (status ∷ rest))
        (status ∷ rest)
        (7 + length rest)
        device
        command
        capacity
      ≡ (
        ok,
        record {
          status = status;
          expected_len = 7 + length rest;
          payload_offset = 1;
          payload_length = length rest;
        },
      )
validate_response-conforming_header device command status rest capacity hd hc hp fits small =
    let same : header_size + suc (length rest) ≡ 7 + length rest = omega arith in
    rw (conforming_header_lem device command (status ∷ rest) hd hc hp (omega arith), ← same)
      (validate_response-response_header device command status rest capacity fits small)
