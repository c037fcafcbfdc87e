-- ===== src/Nio/Transaction/Tests.antt =====
-- The transaction at concrete inputs, against a scripted peer.
use fujinet_msdos.Base.{
  ℕ, ◌≡◌, ◌≢◌, refl, Bool, true, false, Option, none, some, List, [], ◌∷◌, Bytes, arith, length,
}
use fujinet_msdos.Nio.Checksum.{checksum, add_carry}
use fujinet_msdos.Nio.Protocol.{Header, frame_checksum, validate_response}
use fujinet_msdos.Nio.Codes.{no_error, from_proto}
use fujinet_msdos.Nio.Port.{Port, Reply, own, Memory, Request}
use fujinet_msdos.Nio.Transaction.{
  all_set, nio_transaction_call, attempts, nio_transaction_once, read_response, receive, accept,
  give_up, deliver, send, request_header, max_attempts, diag_fail, diag_reset, nio_port_error,
  wants_retry,
}
use fujinet_msdos.Nio.Transaction.Sound.{Answered, nio_transaction_call_sound}
use fujinet_msdos.Nio.Transaction.Stale.{IsBabbling, nio_transaction_call-ne-none}
use fujinet_msdos.Nio.Transaction.Retry.{Tried, nio_transaction_call-Tried}
use fujinet_msdos.Nio.Sample.{Peer, peer_port, blank_header}
use fujinet_msdos.Nio.Transaction.Answer.{nio_transaction_call_answered, sent}

abbrev answer : Header
answer = record { device = 0xFC; command = 5; length = 9; checksum = 0x0F; fields = 1 }

abbrev data_bytes : Bytes
data_bytes = 0 ∷ 1 ∷ 2 ∷ []

abbrev other_answer : Header
other_answer = record { device = 0xFC; command = 4; length = 9; checksum = 0x0E; fields = 1 }

abbrev ask_info : Request
ask_info = record {
  device = 0xFC;
  command = 5;
  payload = some (1 ∷ 3 ∷ []);
  payload_length = 2;
  reply_capacity = 4;
  rx_capacity = 16;
  max_stale_responses = 2;
}

abbrev memory : List (Header × Bytes × ℕ) → Memory Peer
memory script = record {
  line = record {
    world = record { script = script; heard = [] };
    rx_header = blank_header;
    rx_payload = [];
  };
  reply = own (9 ∷ 9 ∷ 9 ∷ 9 ∷ []);
  response = record { status = 0; payload_length = 0 };
  diag = some (record { error = no_error; status = 0; rx_len = 0; expected_len = 0; lsr = 0 });
}

abbrev run : List (Header × Bytes × ℕ) → Option (Bool × Memory Peer)
run script = nio_transaction_call peer_port (true ∷ []) 32 ask_info 2 15000 15000 3 (memory script)

-- A short frame, which is retried, then a stale one, which is skipped, then the answer.
abbrev bumpy : List (Header × Bytes × ℕ)
bumpy = (answer, [], 4) ∷ (other_answer, data_bytes, 9) ∷ (answer, data_bytes, 9) ∷ []

abbrev reply_of : Option (Bool × Memory Peer) → Option (Bool × Reply × ℕ)
reply_of none = none
reply_of (some (ok, m)) = some (ok, m.reply, length m.line.world.heard)

bumpy_replies : reply_of (run bumpy) ≡ some (true, own (1 ∷ 2 ∷ 9 ∷ 9 ∷ []), 20)
unfolding nio_transaction_call request_header max_attempts all_set attempts nio_transaction_once
    read_response receive accept give_up deliver send diag_reset wants_retry nio_port_error
    validate_response frame_checksum checksum add_carry from_proto diag_fail
bumpy_replies = refl

-- The memory that a run ends with.
abbrev after : Option (Bool × Memory Peer) → Memory Peer
after none = memory []
after (some (ok, m)) = m

bumpy_ends : run bumpy ≡ some (true, after (run bumpy))
unfolding nio_transaction_call request_header max_attempts all_set attempts nio_transaction_once
    read_response receive accept give_up deliver send diag_reset wants_retry nio_port_error
    validate_response frame_checksum checksum add_carry from_proto diag_fail
bumpy_ends = refl

-- The peer is silent: three attempts, and no reply.
silent_ends : run [] ≡ some (false, after (run []))
unfolding nio_transaction_call request_header max_attempts all_set attempts nio_transaction_once
    read_response receive accept give_up deliver send diag_reset wants_retry nio_port_error
    validate_response frame_checksum checksum add_carry from_proto diag_fail
silent_ends = refl

nio_transaction_call_sound_example :
    Answered peer_port ask_info (own (9 ∷ 9 ∷ 9 ∷ 9 ∷ [])) (after (run bumpy))
nio_transaction_call_sound_example =
    nio_transaction_call_sound peer_port (true ∷ []) 32 ask_info 2 15000 15000 3 (memory bumpy)
      bumpy_ends

nio_transaction_call-ne-none_example : run bumpy ≢ none
nio_transaction_call-ne-none_example =
    nio_transaction_call-ne-none peer_port (true ∷ []) 32 ask_info 2 15000 15000 3 (memory bumpy)
      (omega arith) (omega arith)

nio_transaction_call-Tried_example :
    Tried peer_port ask_info 3 15000
      (request_header ask_info)
      3
      (memory bumpy)
      true
      (after (run bumpy))
unfolding all_set
nio_transaction_call-Tried_example =
    nio_transaction_call-Tried peer_port (true ∷ []) 32 ask_info 2 15000 15000 3 (memory bumpy) refl
      (omega arith) (omega arith) bumpy_ends

-- A peer that only ever sends the answer to another command.
abbrev babbler : Port Peer
babbler = record peer_port {
  getbuf_slip_dual = λ l capacity timeout. record {
    line = record l { rx_header = other_answer; rx_payload = data_bytes };
    rx_len = 9;
  };
}

abbrev patient : Request
patient = record ask_info { max_stale_responses = 255 }

babbler-IsBabbling : IsBabbling babbler patient 15000
unfolding receive validate_response frame_checksum checksum add_carry
babbler-IsBabbling m = refl

-- The peer answers at once.
abbrev prompt : Memory Peer
prompt = memory ((answer, data_bytes, 9) ∷ [])

nio_transaction_call_answered_example :
    (m' : Memory Peer) × (nio_transaction_call peer_port
        (true ∷ [])
        32
        ask_info
        2
        15000
        15000
        3
        prompt
      ≡ some (true, m'))
    × (m'.response ≡ record { status = 0; payload_length = 2 })
    × (m'.reply ≡ own (1 ∷ 2 ∷ 9 ∷ 9 ∷ []))
unfolding validate_response frame_checksum checksum add_carry deliver all_set send
nio_transaction_call_answered_example =
    nio_transaction_call_answered peer_port (true ∷ []) 32 ask_info 2 15000 15000 2 prompt
      (record {
        world =
            (sent peer_port ask_info (record prompt {
              line = record (prompt.line) { world = record (prompt.line.world) { script = [] } };
            })).line.world;
        rx_header = answer;
        rx_payload = data_bytes;
      })
      9 (record { status = 0; expected_len = 9; payload_offset = 1; payload_length = 2 }) refl
      (omega arith) refl refl
