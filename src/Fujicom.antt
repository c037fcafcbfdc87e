-- ===== src/Fujicom.antt =====
-- sys/fujicom.c: `fuji_bus_call`, the request of the older FUJICOM command set. Its frames have the
-- header and the checksum of the NIO protocol, up to four parameter bytes, and an acknowledgement.
pub mod Ack
mod Tests
use fujinet_msdos.Base.{
  ℕ, ◌+◌, ◌-◌, Bool, true, false, not, ◌||◌, Option, none, some, [], ◌∷◌, ◌++◌, Bytes, u8, u16, ltb,
  ◌==◌, if◌then◌else◌, length, take, get_or,
}
use fujinet_msdos.Nio.Checksum.{add_carry}
use fujinet_msdos.Nio.Protocol.{Header, header_size, header_bytes}
use fujinet_msdos.Nio.Port.{Line, Reception, Port}
use fujinet_msdos.Nio.Transaction.{slip_end, payload_bytes}

-- TIMEOUT_SLOW and PACKET_ACK.
abbrev pub bus_timeout : ℕ
bus_timeout = 15000

abbrev pub packet_ack : ℕ
packet_ack = 6

-- `fuji_field_numbytes_table`: the number of parameter bytes for each field descriptor.
abbrev pub fuji_field_numbytes_table : Bytes
fuji_field_numbytes_table = 0 ∷ 1 ∷ 2 ∷ 3 ∷ 4 ∷ 2 ∷ 4 ∷ 4 ∷ []

unfoldable pub fuji_calc_checksum : Bytes → ℕ → ℕ
fuji_calc_checksum [] chk = chk
fuji_calc_checksum (b ∷ bs) chk = fuji_calc_checksum bs (add_carry chk b)

-- The arguments of `fuji_bus_call` that go into the request; the descriptor is below 8.
pub record BusCall : Type 0 where
  pub device : ℕ
  pub fuji_cmd : ℕ
  pub fields : ℕ
  pub aux1 : ℕ
  pub aux2 : ℕ
  pub aux3 : ℕ
  pub aux4 : ℕ
  pub data_in : Option Bytes
  pub data_length : ℕ

-- The parameter bytes that follow the header in `fb_buffer`.
abbrev pub bus_aux : BusCall → Bytes
bus_aux c =
    take (get_or fuji_field_numbytes_table c.fields 0) (c.aux1 ∷ c.aux2 ∷ c.aux3 ∷ c.aux4 ∷ [])

unfoldable pub bus_header : BusCall → Header
bus_header c =
    let blank : Header = record {
      device = c.device;
      command = c.fuji_cmd;
      length = u16 (header_size + (length (bus_aux c) + c.data_length));
      checksum = 0;
      fields = c.fields;
    } in
    record blank {
      checksum = u8 (
          fuji_calc_checksum (payload_bytes c.data_in c.data_length)
            (fuji_calc_checksum (header_bytes blank ++ bus_aux c) 0));
    }

unfoldable pub send_bus : {W : Type 0} → Port W → BusCall → W → W
send_bus {W} port c w =
    let opened = port.putc (port.flush_rx w) slip_end in
    let headed = port.putbuf_slip opened (header_bytes (bus_header c) ++ bus_aux c) in
    let filled : W = elim c.data_in [
      | none ↦ headed
      | some p ↦ port.putbuf_slip headed (take c.data_length p)
    ] in
    port.wait_tx_empty (port.putc filled slip_end)

-- The checksum of the frame that was received, over the header and the reply where there is one.
unfoldable pub ack_checksum : Header → Option Bytes → ℕ → ℕ
ack_checksum h reply rlen = u8 (
    fuji_calc_checksum (payload_bytes reply (rlen - header_size))
      (fuji_calc_checksum (header_bytes (record h { checksum = 0 })) 0))

-- The tests on what was received.
unfoldable pub is_acknowledged : Header → Option Bytes → ℕ → ℕ → Bool
is_acknowledged h reply rlen device =
    if ltb rlen header_size || not (rlen == h.length)
    then false
    else if not (h.checksum == ack_checksum h reply rlen)
    then false
    else if not (h.device == device)
    then false
    else if not (h.command == packet_ack)
    then false
    else true

-- The reply buffer, where the caller gave one, holds what was received.
abbrev pub refill : Option Bytes → Bytes → Option Bytes
refill none content = none
refill (some old) content = some content

abbrev pub content_of : Option Bytes → Bytes
content_of none = []
content_of (some b) = b

pub record BusDone (W : Type 0) : Type 0 where
  pub ok : Bool
  pub reply : Option Bytes
  pub world : W

-- `fb_buffer`, which holds the header that was sent, is the header buffer of the answer.
abbrev pub hear_bus : {W : Type 0} → Port W → BusCall → Option Bytes → ℕ → W → Reception W
hear_bus port c reply reply_length w =
    port.getbuf_slip_dual
      (record {
        world = send_bus port c w;
        rx_header = bus_header c;
        rx_payload = content_of reply;
      })
      reply_length bus_timeout

pub fuji_bus_call : {W : Type 0} → Port W → BusCall → Option Bytes → ℕ → W → BusDone W
fuji_bus_call port c reply reply_length w =
    let got = hear_bus port c reply reply_length w in
    let reply' = refill reply got.line.rx_payload in
    record {
      ok = is_acknowledged got.line.rx_header reply' got.rx_len c.device;
      reply = reply';
      world = got.line.world;
    }
