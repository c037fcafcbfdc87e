-- ===== src/Nio/Transaction/Answer.antt =====
-- A valid response to the first attempt ends the transaction well.
use fujinet_msdos.Base.{
  ℕ, suc, ◌-◌, ◌<◌, ◌≤◌, ◌≡◌, refl, Bool, true, some, List, arith, if◌then◌else◌, ◌==◌, take, drop,
}
use fujinet_msdos.Nio.Protocol.{Header, ProtoCode, Parsed, validate_response, header_size}
use fujinet_msdos.Nio.Codes.{device_network, status_internal_error}
use fujinet_msdos.Nio.Port.{Line, Port, Memory, Request}
use fujinet_msdos.Nio.Transaction.Sound.{replied}
use fujinet_msdos.Nio.Transaction.{
  nio_transaction_call, attempts, nio_transaction_once, read_response, receive, accept, deliver,
  send, request_header, max_attempts, all_set, diag_reset,
}

-- The memory once the request is sent by the first attempt.
abbrev pub sent : {W : Type 0} → Port W → Request → Memory W → Memory W
sent port q m = record m {
  diag = diag_reset m.diag;
  response = record { status = status_internal_error; payload_length = 0 };
  line = record (m.line) { world = send port q (request_header q) m.line.world };
}

abbrev pub timeout_of : Request → ℕ → ℕ → ℕ
timeout_of q network_timeout default_timeout =
    if q.device == device_network then network_timeout else default_timeout

module _ {W : Type 0} (port : Port W) (q : Request) (fuel timeout : ℕ) where
  once_answered :
      (m : Memory W) (tx : Header) {m' : Memory W}
      → m' ≡ record m {
        response = record { status = status_internal_error; payload_length = 0 };
        line = record (m.line) { world = send port q tx m.line.world };
      }
      → (receive port q timeout m').code ≡ ProtoCode.ok
      → nio_transaction_once port q (suc fuel) timeout tx m
        ≡ some (true, accept port q (receive port q timeout m'))
  unfolding nio_transaction_once read_response
  once_answered m tx {m'} is ok = rw (← is) (ground arith)

  attempts_answered :
      (n : ℕ) (m : Memory W)
      → (receive port q timeout (sent port q m)).code ≡ ProtoCode.ok
      → attempts port q (suc n) (suc fuel) timeout (request_header q) m
        ≡ some (true, accept port q (receive port q timeout (sent port q m)))
  unfolding attempts accept
  attempts_answered n m ok =
      let first =
        once_answered (record m { diag = diag_reset m.diag }) (request_header q) refl ok in
      rw (attempts, first)

max_attempts_pos : (retries : ℕ) → 0 < max_attempts retries
unfolding max_attempts
max_attempts_pos retries = ground arith

call_answered :
    {W : Type 0} (port : Port W) (pointers : List Bool) (tx_capacity : ℕ) (q : Request)
    (retries network_timeout default_timeout fuel : ℕ) (m : Memory W)
    → all_set pointers ≡ true
    → header_size ≤ tx_capacity
    → (receive port q (timeout_of q network_timeout default_timeout) (sent port q m)).code
      ≡ ProtoCode.ok
    → nio_transaction_call port pointers tx_capacity q retries network_timeout default_timeout
        (suc fuel)
        m
      ≡ some (
        true,
        accept port q
            (receive port q (timeout_of q network_timeout default_timeout) (sent port q m)),
      )
unfolding nio_transaction_call
call_answered port pointers tx_capacity q retries network_timeout default_timeout fuel m set room
      ok =
    let tries = max_attempts retries in
    let some_try : tries ≡ suc (tries - 1) = omega (arith, max_attempts_pos retries) in
    ground (
      arith,
      some_try,
      attempts_answered port q fuel (timeout_of q network_timeout default_timeout) (tries - 1) m ok,
    )

-- On a bound port with room for a header, when the first frame that is read is a valid response
-- to the request, the call returns true with that frame's status and data length, and with its
-- data in the reply.
pub nio_transaction_call_answered :
    {W : Type 0} (port : Port W) (pointers : List Bool) (tx_capacity : ℕ) (q : Request)
    (retries network_timeout default_timeout fuel : ℕ) (m : Memory W) (l : Line W) (rx_len : ℕ)
    (parsed : Parsed)
    → all_set pointers ≡ true
    → header_size ≤ tx_capacity
    → port.getbuf_slip_dual
        (sent port q m).line
        q.rx_capacity
        (timeout_of q network_timeout default_timeout)
      ≡ record { line = l; rx_len = rx_len }
    → validate_response l.rx_header l.rx_payload rx_len q.device q.command q.reply_capacity
      ≡ (ProtoCode.ok, parsed)
    → (m' : Memory W) × (nio_transaction_call port pointers tx_capacity q retries network_timeout
          default_timeout
          (suc fuel)
          m
        ≡ some (true, m'))
      × (m'.response ≡ record { status = parsed.status; payload_length = parsed.payload_length })
      × (m'.reply
          ≡ replied m.reply (take parsed.payload_length (drop parsed.payload_offset l.rx_payload)))
unfolding receive accept deliver
nio_transaction_call_answered port pointers tx_capacity q retries network_timeout default_timeout
      fuel m l rx_len parsed set room got valid =
    let timeout = timeout_of q network_timeout default_timeout in
    (
      accept port q (receive port q timeout (sent port q m)),
      call_answered port pointers tx_capacity q retries network_timeout default_timeout fuel m set
          room (rw (got, valid)),
      rw (got, valid),
      ground (arith, got, valid),
    )
