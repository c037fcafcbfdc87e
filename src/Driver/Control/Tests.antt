-- ===== src/Driver/Control/Tests.antt =====
-- A control call at a concrete input.
use fujinet_msdos.Base.{◌≡◌, refl, some, [], ◌∷◌, Bytes}
use fujinet_msdos.Base.Words.{get_u16le}
use fujinet_msdos.Nio.Sample.{Peer, peer_port}
use fujinet_msdos.Driver.Sample.{driver}
use fujinet_msdos.Driver.Control.{Controlled, control_state, nio_handle_control_call}

-- SET_STATE with an empty URI and an empty path.
abbrev set_call : Bytes
set_call = 5 ∷ b'F' ∷ b'U' ∷ b'J' ∷ b'I' ∷ 0 ∷ 1 ∷ 0 ∷ 2 ∷ 9 ∷ 4 ∷ 0 ∷ 0 ∷ 0 ∷ 0 ∷ 0 ∷ 0 ∷ 0 ∷ []

abbrev ended : Controlled Peer
ended = control_state set_call 1 driver

set_call_ends : nio_handle_control_call peer_port set_call 1 driver ≡ some ended
unfolding nio_handle_control_call get_u16le
set_call_ends = refl

set_call_status : ended.status ≡ 0
unfolding control_state get_u16le
set_call_status = refl
