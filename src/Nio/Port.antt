-- ===== src/Nio/Port.antt =====
-- The data of sys/nio_transaction.h: the serial port as a record of functions, as it is in the
-- source, and the memory that a transaction works on. `W` is what lies behind the port's `ctx`.
use fujinet_msdos.Base.{ℕ, Option, Bytes}
use fujinet_msdos.Nio.Protocol.{Header}
use fujinet_msdos.Nio.Codes.{NioError}

-- The world behind the port, and the two receive buffers that `getbuf_slip_dual` fills.
pub record Line (W : Type 0) : Type 0 where
  pub world : W
  pub rx_header : Header
  pub rx_payload : Bytes

pub record Reception (W : Type 0) : Type 0 where
  pub line : Line W
  pub rx_len : ℕ

-- `nio_transaction_port_t`. The last two callbacks may be null.
pub record Port (W : Type 0) : Type 0 where
  pub flush_rx : W → W
  pub putc : W → ℕ → W
  pub putbuf_slip : W → Bytes → W
  pub wait_tx_empty : W → W
  -- The capacity of the payload buffer, and the timeout.
  pub getbuf_slip_dual : Line W → ℕ → ℕ → Reception W
  pub last_slip_reason : Option (W → ℕ)
  pub last_lsr : Option (W → ℕ)

-- `nio_response_t`; a caller that passes a null pointer ignores it.
pub record Response : Type 0 where
  pub status : ℕ
  pub payload_length : ℕ

-- `nio_transaction_diag_t`.
pub record Diag : Type 0 where
  pub error : NioError
  pub status : ℕ
  pub rx_len : ℕ
  pub expected_len : ℕ
  pub lsr : ℕ

-- Where the reply goes: nowhere, to a buffer of the caller, or to the receive buffer itself, which is
-- what nio_disk_read_sector and nio_disk_read_sectors pass.
pub data Reply : Type 0 where
  null : Reply
  own : Bytes → Reply
  rx : Reply

-- All that a transaction writes to. `diag` may be null.
pub record Memory (W : Type 0) : Type 0 where
  pub line : Line W
  pub reply : Reply
  pub response : Response
  pub diag : Option Diag

-- The arguments that a transaction does not change. `payload` may be null.
pub record Request : Type 0 where
  pub device : ℕ
  pub command : ℕ
  pub payload : Option Bytes
  pub payload_length : ℕ
  pub reply_capacity : ℕ
  pub rx_capacity : ℕ
  pub max_stale_responses : ℕ
