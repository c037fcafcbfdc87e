-- ===== src/Driver/Control.antt =====
-- `nio_handle_control_call` and `fill_query` of sys/commands_nio.c, on the control block of sys/ioctl.h
-- as it lies in memory: 2-byte alignment, so the block has 534 bytes.
pub mod Total
pub mod Device
pub mod Accepted
mod Tests
use Prim.Native.Char.{code}
use Prim.Native.String.{String}
use fujinet_msdos.Base.{
  ◌>>=◌, ℕ, ◌+◌, Bool, true, false, ◌&&◌, ◌||◌, Option, none, some, [], ◌∷◌, ◌++◌, Bytes, u16, ltb,
  ◌==◌, if◌then◌else◌, get_or, take, drop, blit, replicate,
}
use fujinet_msdos.Base.Words.{get_u16le, put_u16le}
use fujinet_msdos.Nio.Codes.{status_ok, status_io_error, error_code}
use fujinet_msdos.Nio.Port.{Port, own, Diag}
use fujinet_msdos.Nio.Disk.{Nio, Done, nio_call, no_response, reply_bytes}
use fujinet_msdos.Driver.State.{Driver, failed, op_complete, bad_req_len, max_units}

-- FUJI_IOCTL_VERSION, and the limits of sys/ioctl.h.
abbrev pub ioctl_version : ℕ
ioctl_version = 1

abbrev pub max_data : ℕ
max_data = 512

abbrev pub max_uri : ℕ
max_uri = 255

abbrev pub max_path : ℕ
max_path = 127

abbrev pub cmd_set_state : ℕ
cmd_set_state = 2

-- The offsets of the fields of `fuji_ioctl_nio_call`.
abbrev pub off_status : ℕ
off_status = 9

abbrev pub off_request_len : ℕ
off_request_len = 10

abbrev pub off_response_len : ℕ
off_response_len = 12

abbrev pub off_data : ℕ
off_data = 14

abbrev pub off_diag : ℕ
off_diag = 526

-- FUJI_IOCTL_SIGNATURE.
abbrev pub signature : Bytes
signature = b'F' ∷ b'U' ∷ b'J' ∷ b'I' ∷ []

-- The signature, the unit, the version and the number of units, from offset 1 on.
pub fill_query : ℕ → Bytes → Bytes
fill_query unit query = blit query 1 (signature ++ unit ∷ ioctl_version ∷ max_units ∷ [])

-- A C string buffer of the given size, cleared and filled.
abbrev pub cleared_copy : ℕ → Bytes → Bytes
cleared_copy size src = blit (replicate size 0) 0 src

-- What remembers the current place of the file tools.
pub set_state : {W : Type 0} → ℕ → ℕ → Bytes → Bytes → Driver W → Driver W
set_state uri_len path_len uri path d = record d {
  current_uri_len = uri_len;
  display_path_len = path_len;
  current_uri = cleared_copy (max_uri + 1) (take uri_len uri);
  display_path = cleared_copy (max_path + 1) (take path_len path);
}

-- The diagnosis of the last call, at the end of the block.
write_diag : Diag → Bytes → Bytes
write_diag last call = blit call off_diag (
    error_code last.error
    ∷ last.status
    ∷ (put_u16le last.rx_len ++ put_u16le last.expected_len ++ last.lsr ∷ []))

-- A control block, its status and its driver after the call.
pub record Controlled (W : Type 0) : Type 0 where
  pub status : ℕ
  pub call : Bytes
  pub driver : Driver W

-- The request that the driver answers itself.
pub control_state : {W : Type 0} → Bytes → ℕ → Driver W → Controlled W
unfolding fill_query set_state
control_state call unit d =
    let request_len = get_u16le call off_request_len in
    let uri_len = get_u16le call off_data in
    let path_len = get_u16le call (off_data + 2) in
    let overlong =
      ltb max_uri uri_len
      || ltb max_path path_len
      || ltb request_len (u16 (4 + uri_len + path_len)) in
    if ltb request_len 4 || overlong
    then record { status = failed bad_req_len; call = call; driver = d }
    else record {
      status = op_complete;
      call =
          fill_query unit
            (blit (blit call off_status (status_ok ∷ [])) off_response_len (put_u16le 0));
      driver =
          set_state uri_len path_len (drop (off_data + 4) call) (drop (off_data + 4 + uri_len) call)
            d;
    }

-- What the block holds after the call: the payload and the reply share its data area.
finish_control : {W : Type 0} → Bytes → ℕ → Driver W → Done W → Controlled W
unfolding write_diag fill_query
finish_control call unit d r =
    let failure =
      blit (blit call off_status (status_io_error ∷ [])) off_response_len (put_u16le 0) in
    let success =
      blit (blit (blit call off_data (reply_bytes r.reply)) off_status (r.response.status ∷ []))
        off_response_len (put_u16le r.response.payload_length) in
    record {
      status = op_complete;
      call = fill_query unit (write_diag r.nio.last (if r.ok then success else failure));
      driver = record d { nio = r.nio };
    }

pub nio_handle_control_call : {W : Type 0} → Port W → Bytes → ℕ → Driver W → Option (Controlled W)
unfolding control_state finish_control
nio_handle_control_call {W} port call unit d =
    let request_len = get_u16le call off_request_len in
    let response_len = get_u16le call off_response_len in
    let device = get_or call 7 0 in
    let command = get_or call 8 0 in
    let served : Option (Controlled W) = (do
      r ←
          nio_call port device command (take request_len (drop off_data call))
            (own (take max_data (drop off_data call))) response_len no_response d.nio
      some (finish_control call unit d r)) in
    if ltb max_data request_len || ltb max_data response_len
    then some (record { status = failed bad_req_len; call = call; driver = d })
    else if device == 0 && (command == cmd_set_state)
    then some (control_state call unit d)
    else served
