-- ===== src/Nio/Protocol/Tests.antt =====
-- Runs of the validator, and the theorems at concrete inputs.
use fujinet_msdos.Base.{◌+◌, ◌≡◌, refl, ap, [], ◌∷◌, Bytes, arith}
use fujinet_msdos.Nio.Checksum.{checksum, add_carry}
use fujinet_msdos.Nio.Protocol.{
  Header, ok, short_frame, length_mismatch, bad_checksum, device_command, reply_too_large,
  frame_checksum, unparsed, validate_response,
}
use fujinet_msdos.Nio.Protocol.Validate.{IsResponse, validate_response_sound}
use fujinet_msdos.Nio.Protocol.Corruption.{
  validate_response_one_byte, conforming_header, validate_response-conforming_header,
}

-- A response of the disk service to command 5: status 0 and two bytes of data.
abbrev answer : Header
answer = record { device = 0xFC; command = 5; length = 9; checksum = 0x0F; fields = 1 }

abbrev answer_payload : Bytes
answer_payload = 0 ∷ 1 ∷ 2 ∷ []

answer_accepted :
    validate_response answer answer_payload 9 0xFC 5 16
    ≡ (ok, record { status = 0; expected_len = 9; payload_offset = 1; payload_length = 2 })
unfolding validate_response frame_checksum checksum add_carry
answer_accepted = refl

answer_refused :
    (validate_response answer answer_payload 5 0xFC 5 16 ≡ (short_frame, unparsed 6))
    × (validate_response answer answer_payload 8 0xFC 5 16 ≡ (length_mismatch, unparsed 9))
    × (validate_response answer (1 ∷ answer_payload) 9 0xFC 5 16 ≡ (bad_checksum, unparsed 9))
    × (validate_response answer answer_payload 9 0xFC 6 16 ≡ (device_command, unparsed 9))
    × (validate_response answer answer_payload 9 0xFC 5 1 ≡ (reply_too_large, unparsed 9))
unfolding validate_response frame_checksum checksum add_carry
answer_refused = (refl, refl, refl, refl, refl)

answer-IsResponse : IsResponse answer answer_payload 9 0xFC 5 16
answer-IsResponse =
    validate_response_sound answer answer_payload 9 0xFC 5 16 (omega arith)
      (ap (λ r. r.0) answer_accepted)

validate_response_sound_example : IsResponse answer answer_payload 9 0xFC 5 16
unfolding validate_response frame_checksum checksum add_carry
validate_response_sound_example =
    validate_response_sound answer answer_payload 9 0xFC 5 16 (omega arith) refl

validate_response-conforming_header_example :
    validate_response (conforming_header 0xFC 5 answer_payload) answer_payload (7 + 2) 0xFC 5 16
    ≡ (ok, record { status = 0; expected_len = 7 + 2; payload_offset = 1; payload_length = 2 })
validate_response-conforming_header_example =
    validate_response-conforming_header 0xFC 5 0 (1 ∷ 2 ∷ []) 16 (omega arith) (omega arith)
      (omega arith, (omega arith, (omega arith, tt))) (omega arith) (omega arith)

-- The exception: 0x00 and 0xFF count the same in a frame that is not all zero.
checksum_blind : checksum (7 ∷ 0x00 ∷ []) 0 ≡ checksum (7 ∷ 0xFF ∷ []) 0
unfolding checksum add_carry
checksum_blind = refl

validate_response_one_byte_example :
    validate_response answer (0 ∷ 9 ∷ 2 ∷ []) 9 0xFC 5 16 ≡ (bad_checksum, unparsed 9)
validate_response_one_byte_example =
    validate_response_one_byte answer (0 ∷ []) (2 ∷ []) 1 9 0xFC 5 16 (omega arith) (omega arith)
      (omega arith) (omega arith) (omega arith) (omega arith) answer-IsResponse refl
