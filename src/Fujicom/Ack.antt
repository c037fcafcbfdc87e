-- ===== src/Fujicom/Ack.antt =====
-- What a successful `fuji_bus_call` has received, and its checksum against that of the NIO protocol.
use fujinet_msdos.Base.{
  ℕ, ◌+◌, ◌-◌, ◌≤◌, ◌<◌, ◌≡◌, refl, true, false, some, [], ◌∷◌, ◌++◌, Bytes, IsByte, AllBytes,
  arith, length, length-append, take, take_all,
}
use fujinet_msdos.Nio.Checksum.{checksum, checksum-append, Distinct}
use fujinet_msdos.Nio.Protocol.{Header, header_size, header_bytes, frame_checksum}
use fujinet_msdos.Nio.Protocol.Corruption.{IsHeader, frame_checksum_one_byte}
use fujinet_msdos.Nio.Port.{Port}
use fujinet_msdos.Fujicom.{
  BusCall, bus_aux, bus_header, packet_ack, fuji_calc_checksum, ack_checksum, is_acknowledged,
  fuji_bus_call, hear_bus,
}

-- The checksum loops of the older command set and of the NIO protocol compute the same function.
pub fuji_calc_checksum-checksum :
    (bs : Bytes) (seed : ℕ) → fuji_calc_checksum bs seed ≡ checksum bs seed
unfolding fuji_calc_checksum checksum
fuji_calc_checksum-checksum [] seed = refl
fuji_calc_checksum-checksum (b ∷ bs) seed = fuji_calc_checksum-checksum bs _

-- The checksum of an acknowledgement is the one that the NIO protocol asks of a frame.
ack_checksum-frame_checksum :
    (h : Header) (content : Bytes) (rlen : ℕ)
    → ack_checksum h (some content) rlen ≡ frame_checksum h (take (rlen - header_size) content)
unfolding ack_checksum frame_checksum
ack_checksum-frame_checksum h content rlen =
    rw
      (
        fuji_calc_checksum-checksum (header_bytes (record h { checksum = 0 })) 0,
        fuji_calc_checksum-checksum (take (rlen - header_size) content)
            (checksum (header_bytes (record h { checksum = 0 })) 0),
      )
      refl

-- A request with data, together with its parameter bytes and header fewer than 65536 bytes, has
-- in its header its length, and the checksum that the NIO protocol asks of a frame.
pub bus_header-frame_checksum :
    (c : BusCall) (content : Bytes)
    → c.data_in ≡ some content
    → c.data_length ≡ length content
    → header_size + length (bus_aux c ++ content) < 65536
    → (frame_checksum (bus_header c) (bus_aux c ++ content) ≡ (bus_header c).checksum)
      × ((bus_header c).length ≡ header_size + length (bus_aux c ++ content))
unfolding bus_header frame_checksum
bus_header-frame_checksum c content e n small =
    let h = header_bytes (record (bus_header c) { checksum = 0 }) in
    (
      ground (
        arith,
        take_all c.data_length content n,
        fuji_calc_checksum-checksum (h ++ bus_aux c) 0,
        fuji_calc_checksum-checksum content (checksum (h ++ bus_aux c) 0),
        checksum-append h (bus_aux c) 0,
        checksum-append (bus_aux c) content (checksum h 0),
      ),
      omega (arith, length-append (bus_aux c) content),
    )

-- An acknowledgement by the device, of the length and the checksum in its header.
pub record IsAck (h : Header) (content : Bytes) (rlen device : ℕ) : Type 0 where
  pub long_enough : header_size ≤ rlen
  pub length_is : rlen ≡ h.length
  pub checksum_is : h.checksum ≡ frame_checksum h (take (rlen - header_size) content)
  pub device_is : h.device ≡ device
  pub command_is : h.command ≡ packet_ack

is_acknowledged-IsAck :
    (h : Header) (content : Bytes) (rlen device : ℕ)
    → is_acknowledged h (some content) rlen device ≡ true
    → IsAck h content rlen device
unfolding is_acknowledged
is_acknowledged-IsAck h content rlen device e =
    let same = ack_checksum-frame_checksum h content rlen in
    record {
      long_enough = ground arith;
      length_is = ground arith;
      checksum_is = ground (arith, same);
      device_is = ground arith;
      command_is = ground arith;
    }

-- When `fuji_bus_call` returns true for a caller with a reply buffer, what the port brought is an
-- acknowledgement by the device: its length is the one in its header, its checksum is right, its
-- device is the one that was called and its command is ACK; the reply is its content.
pub fuji_bus_call-IsAck :
    {W : Type 0} (port : Port W) (c : BusCall) (buffer : Bytes) (reply_length : ℕ) (w : W)
    → (fuji_bus_call port c (some buffer) reply_length w).ok ≡ true
    → (content : Bytes) × ((fuji_bus_call port c (some buffer) reply_length w).reply ≡ some content)
      × IsAck
          (hear_bus port c (some buffer) reply_length w).line.rx_header
          content
          (hear_bus port c (some buffer) reply_length w).rx_len
          c.device
unfolding fuji_bus_call
fuji_bus_call-IsAck port c buffer reply_length w e =
    let got = hear_bus port c (some buffer) reply_length w in
    (
      got.line.rx_payload,
      refl,
      is_acknowledged-IsAck got.line.rx_header got.line.rx_payload got.rx_len c.device e,
    )

-- An acknowledgement of bytes that fits its frame is taken with content byte x. With another byte
-- y in that place, where the two are not 0x00 and 0xFF, it is refused.
pub is_acknowledged_one_byte :
    (h : Header) (xs ys : Bytes) (x y rlen device : ℕ)
    → IsHeader h
    → AllBytes xs
    → AllBytes ys
    → IsByte x
    → IsByte y
    → Distinct x y
    → rlen ≡ header_size + length (xs ++ x ∷ ys)
    → is_acknowledged h (some (xs ++ x ∷ ys)) rlen device ≡ true
    → is_acknowledged h (some (xs ++ y ∷ ys)) rlen device ≡ false
unfolding is_acknowledged
is_acknowledged_one_byte h xs ys x y rlen device v hxs hys hx hy d len e = ground (
  arith,
  ack_checksum-frame_checksum h (xs ++ x ∷ ys) rlen,
  ack_checksum-frame_checksum h (xs ++ y ∷ ys) rlen,
  take_all (rlen - header_size) (xs ++ x ∷ ys) (omega arith),
  take_all (rlen - header_size) (xs ++ y ∷ ys)
      (omega (arith, length-append xs (x ∷ ys), length-append xs (y ∷ ys))),
  frame_checksum_one_byte h xs ys x y v hxs hys hx hy d,
)
