-- ===== src/Fujicom/Tests.antt =====
-- A request of the older command set, and its acknowledgement.
use fujinet_msdos.Base.{◌≡◌, refl, true, some, [], ◌∷◌, Bytes}
use fujinet_msdos.Nio.Checksum.{add_carry}
use fujinet_msdos.Nio.Protocol.{Header}
use fujinet_msdos.Nio.Sample.{Peer, peer_port}
use fujinet_msdos.Fujicom.{
  BusCall, fuji_calc_checksum, ack_checksum, is_acknowledged, fuji_bus_call, hear_bus, send_bus,
}
use fujinet_msdos.Fujicom.Ack.{IsAck, fuji_bus_call-IsAck}

-- A call of device 0x70 with two parameters and three bytes of data.
abbrev call : BusCall
call = record {
  device = 0x70;
  fuji_cmd = 0xE8;
  fields = 2;
  aux1 = 1;
  aux2 = 2;
  aux3 = 0;
  aux4 = 0;
  data_in = some (7 ∷ 8 ∷ 9 ∷ []);
  data_length = 3;
}

abbrev ack : Header
ack = record { device = 0x70; command = 6; length = 8; checksum = 0x83; fields = 0 }

abbrev peer : Peer
peer = record { script = (ack, 2 ∷ 3 ∷ [], 8) ∷ []; heard = [] }

acknowledged : (fuji_bus_call peer_port call (some (0 ∷ 0 ∷ [])) 2 peer).ok ≡ true
unfolding fuji_bus_call is_acknowledged ack_checksum fuji_calc_checksum add_carry send_bus
acknowledged = refl

fuji_bus_call-IsAck_example :
    (content : Bytes) × ((fuji_bus_call peer_port call (some (0 ∷ 0 ∷ [])) 2 peer).reply
      ≡ some content)
    × IsAck
        (hear_bus peer_port call (some (0 ∷ 0 ∷ [])) 2 peer).line.rx_header
        content
        (hear_bus peer_port call (some (0 ∷ 0 ∷ [])) 2 peer).rx_len
        0x70
fuji_bus_call-IsAck_example = fuji_bus_call-IsAck peer_port call (0 ∷ 0 ∷ []) 2 peer acknowledged

valid_ack : is_acknowledged ack (some (2 ∷ 3 ∷ [])) 8 0x70 ≡ true
unfolding is_acknowledged ack_checksum fuji_calc_checksum add_carry
valid_ack = refl
