-- ===== src/Nio/Transaction.antt =====
-- sys/nio_transaction.h and sys/nio_transaction.c: one request, the responses that come back, and the
-- retries. A C function that changes memory takes a `Memory` and returns the new one.
mod Views
pub mod Sound
pub mod Stale
pub mod Retry
pub mod Frame
pub mod Answer
mod Tests
use fujinet_msdos.Base.{
  ℕ, zero, suc, ◌+◌, ◌%◌, Bool, true, false, not, ◌&&◌, ◌||◌, Option, none, some, List, [], ◌∷◌,
  Bytes, u8, u16, ltb, leb, ◌==◌, if◌then◌else◌, length, take, drop, blit,
}
use fujinet_msdos.Nio.Checksum.{checksum}
use fujinet_msdos.Nio.Protocol.{
  Header, header_size, header_bytes, field_none, ProtoCode, Parsed, validate_response,
}
use fujinet_msdos.Nio.Port.{
  Line, Reception, Port, Response, Diag, Reply, null, own, rx, Memory, Request,
}
use fujinet_msdos.Nio.Codes.{
  NioError, no_error, short_frame, length_mismatch, bad_checksum, device_command, timed_out,
  buffer_full, uart, bad_payload, from_proto, status_internal_error, device_network,
}

abbrev pub slip_end : ℕ
slip_end = 0xC0

abbrev pub on_diag : (Diag → Diag) → Option Diag → Option Diag
on_diag f none = none
on_diag f (some d) = some (f d)

pub diag_reset : Option Diag → Option Diag
diag_reset = on_diag (λ d. record {
  error = no_error;
  status = status_internal_error;
  rx_len = 0;
  expected_len = 0;
  lsr = 0;
})

diag_fail : Option Diag → NioError → ℕ → ℕ → Option Diag
diag_fail diag error rx_len expected_len =
    on_diag (λ d. record d { error = error; rx_len = rx_len; expected_len = expected_len }) diag

-- What a callback says, or 0 where it is null.
abbrev pub ask : {W : Type 0} → Option (W → ℕ) → W → ℕ
ask none w = 0
ask (some f) w = f w

reason_error : ℕ → NioError → NioError
reason_error reason fallback =
    if reason == 1
    then timed_out
    else if reason == 2
    then buffer_full
    else if reason == 3
    then uart
    else fallback

pub nio_port_error : {W : Type 0} → Port W → W → NioError → NioError
unfolding reason_error
nio_port_error port w fallback =
    if not (ask port.last_lsr w == 0)
    then uart
    else elim port.last_slip_reason [ none ↦ fallback | some f ↦ reason_error (f w) fallback ]

pub nio_should_retry_error : NioError → Bool
nio_should_retry_error uart = true
nio_should_retry_error timed_out = true
nio_should_retry_error short_frame = true
nio_should_retry_error length_mismatch = true
nio_should_retry_error bad_checksum = true
nio_should_retry_error _ = false

-- Whether a failed attempt is repeated; without a `diag` none is.
pub wants_retry : Option Diag → Bool
unfolding nio_should_retry_error
wants_retry none = false
wants_retry (some d) = nio_should_retry_error d.error

-- The bytes of the payload that are sent and summed.
abbrev pub payload_bytes : Option Bytes → ℕ → Bytes
payload_bytes none n = []
payload_bytes (some p) n = take n p

-- `memmove` into the reply; of no bytes where the reply is null or the length 0.
deliver : {W : Type 0} → Memory W → Bytes → Memory W
deliver m src = elim m.reply [
  | null ↦ m
  | own b ↦ record m { reply = own (blit b 0 src) }
  | rx ↦ record m { line = record (m.line) { rx_payload = blit m.line.rx_payload 0 src } }
]

module _ {W : Type 0} (port : Port W) (q : Request) where
  -- The frame goes out between two END bytes.
  unfoldable pub send : Header → W → W
  send tx w =
      let opened = port.putc (port.flush_rx w) slip_end in
      let headed = port.putbuf_slip opened (header_bytes tx) in
      let filled : W = elim q.payload [
        | none ↦ headed
        | some p ↦
            if q.payload_length == 0
            then headed
            else port.putbuf_slip headed (take q.payload_length p)
      ] in
      port.wait_tx_empty (port.putc filled slip_end)

  -- One call of `getbuf_slip_dual` and the validation of what it brought.
  pub record Heard : Type 0 where
    pub memory : Memory W
    pub rx_len : ℕ
    pub code : ProtoCode
    pub parsed : Parsed

  pub receive : ℕ → Memory W → Heard
  receive timeout m =
      let got = port.getbuf_slip_dual m.line q.rx_capacity timeout in
      let (code, parsed) =
        validate_response got.line.rx_header got.line.rx_payload got.rx_len q.device q.command
          q.reply_capacity in
      record {
        memory = record m {
          line = got.line;
          diag =
              on_diag
                (λ d. record d {
                  rx_len = got.rx_len;
                  lsr = ask port.last_lsr got.line.world;
                  expected_len = parsed.expected_len;
                })
                m.diag;
        };
        rx_len = got.rx_len;
        code = code;
        parsed = parsed;
      }

  pub give_up : Heard → NioError → Memory W
  give_up h error = record (h.memory) {
    diag = diag_fail h.memory.diag error h.rx_len h.parsed.expected_len;
  }

  pub accept : Heard → Memory W
  accept h =
      let m = h.memory in
      let m' =
        deliver m (take h.parsed.payload_length (drop h.parsed.payload_offset m.line.rx_payload)) in
      record m' {
        diag = on_diag (λ d. record d { error = no_error; status = h.parsed.status }) m'.diag;
        response = record { status = h.parsed.status; payload_length = h.parsed.payload_length };
      }

  -- From the label `read_response` on. A response to another command is stale, and is skipped while
  -- `++stale_count <= max_stale_responses`, on a counter of 8 bits. `none` means that the fuel ran out.
  pub read_response : ℕ → ℕ → ℕ → Memory W → Option (Bool × Memory W)
  read_response zero timeout stale_count m = none
  read_response (suc fuel) timeout stale_count m =
      let h = receive timeout m in
      let again = read_response fuel timeout (u8 (stale_count + 1)) h.memory in
      elim (h.code) [
        | ProtoCode.ok ↦ some (true, accept h)
        | ProtoCode.device_command ↦
            if leb (u8 (stale_count + 1)) q.max_stale_responses
            then again
            else some (false, give_up h device_command)
        | other ↦
            some (false, give_up h (nio_port_error port h.memory.line.world (from_proto other)))
      ]

  pub nio_transaction_once : ℕ → ℕ → Header → Memory W → Option (Bool × Memory W)
  nio_transaction_once fuel timeout tx m = read_response fuel timeout 0 (record m {
    response = record { status = status_internal_error; payload_length = 0 };
    line = record (m.line) { world = send tx m.line.world };
  })

  -- The `for` loop, with the attempts that are left.
  pub attempts : ℕ → ℕ → ℕ → Header → Memory W → Option (Bool × Memory W)
  attempts zero fuel timeout tx m = some (false, m)
  attempts (suc n) fuel timeout tx m =
      elim (nio_transaction_once fuel timeout tx (record m { diag = diag_reset m.diag })) [
        | none ↦ none
        | some (true, m') ↦ some (true, m')
        | some (false, m') ↦
            if wants_retry m'.diag then attempts n fuel timeout tx m' else some (false, m')
      ]

-- The request header with its checksum.
pub request_header : Request → Header
request_header q =
    let blank : Header = record {
      device = q.device;
      command = q.command;
      length = u16 (header_size + q.payload_length);
      checksum = 0;
      fields = field_none;
    } in
    record blank {
      checksum =
          u8
            (checksum (payload_bytes q.payload q.payload_length) (checksum (header_bytes blank) 0));
    }

-- `(uint8_t) (transport_retries + 1)`, and 1 where that wraps to 0.
pub max_attempts : ℕ → ℕ
max_attempts transport_retries =
    if u8 (transport_retries + 1) == 0 then 1 else u8 (transport_retries + 1)

unfoldable pub all_set : List Bool → Bool
all_set [] = true
all_set (b ∷ bs) = b && all_set bs

-- `pointers` says of each pointer that the guard tests whether it is set; `fuel` bounds the
-- responses that one attempt reads.
pub nio_transaction_call :
    {W : Type 0}
    → Port W
    → List Bool
    → ℕ
    → Request
    → ℕ
    → ℕ
    → ℕ
    → ℕ
    → Memory W
    → Option (Bool × Memory W)
nio_transaction_call port pointers tx_capacity q retries network_timeout default_timeout fuel m =
    if not (all_set pointers) || ltb tx_capacity header_size
    then some (false, record m { diag = diag_fail m.diag bad_payload 0 0 })
    else attempts port q (max_attempts retries) fuel
        (if q.device == device_network then network_timeout else default_timeout) (request_header q)
        m
