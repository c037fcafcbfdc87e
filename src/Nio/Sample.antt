-- ===== src/Nio/Sample.antt =====
-- A scripted peer for the tests, on a port that plays it.
use fujinet_msdos.Base.{ℕ, some, List, [], ◌∷◌, ◌++◌, Bytes}
use fujinet_msdos.Nio.Protocol.{Header}
use fujinet_msdos.Nio.Codes.{no_error}
use fujinet_msdos.Nio.Port.{Line, Reception, Port}
use fujinet_msdos.Nio.Disk.{Nio}

-- What the peer will send, frame by frame, and what it has been sent.
pub record Peer : Type 0 where
  pub script : List (Header × Bytes × ℕ)
  pub heard : Bytes

abbrev pub hears : Peer → Bytes → Peer
hears p bs = record p { heard = p.heard ++ bs }

abbrev pub next_frame : List (Header × Bytes × ℕ) → Line Peer → Reception Peer
next_frame [] l = record { line = l; rx_len = 0 }
next_frame ((h, payload, n) ∷ rest) l = record {
  line = record { world = record (l.world) { script = rest }; rx_header = h; rx_payload = payload };
  rx_len = n;
}

abbrev pub peer_port : Port Peer
peer_port = record {
  flush_rx = λ p. p;
  putc = λ p c. hears p (c ∷ []);
  putbuf_slip = hears;
  wait_tx_empty = λ p. p;
  getbuf_slip_dual = λ l capacity timeout. next_frame l.world.script l;
  last_slip_reason = some (λ p. 0);
  last_lsr = some (λ p. 0);
}

abbrev pub blank_header : Header
blank_header = record { device = 0; command = 0; length = 0; checksum = 0; fields = 0 }

-- The state before the first call, with what the peer will send.
abbrev pub fresh : List (Header × Bytes × ℕ) → Nio Peer
fresh script = record {
  line = record {
    world = record { script = script; heard = [] };
    rx_header = blank_header;
    rx_payload = [];
  };
  diag = record { error = no_error; status = 0; rx_len = 0; expected_len = 0; lsr = 0 };
  last = record { error = no_error; status = 0; rx_len = 0; expected_len = 0; lsr = 0 };
  network_timeout_ms = 15000;
  transport_retries = 2;
}
