-- ===== src/Driver/Ioctl.antt =====
-- `handle_ioctl_buffer` of sys/commands_nio.c, which both IOCTL commands call, on the blocks of
-- sys/ioctl.h as they lie in memory.
pub mod Total
pub mod Mapping
use fujinet_msdos.Base.{
  ◌>>=◌, ℕ, ◌+◌, Bool, true, false, ◌||◌, Option, none, some, [], ◌∷◌, ◌++◌, Bytes, ltb, leb, ◌==◌,
  if◌then◌else◌, get_or, set, drop, blit,
}
use fujinet_msdos.Base.Words.{get_u16le, put_u16le}
use fujinet_msdos.Nio.Port.{Port}
use fujinet_msdos.Driver.State.{
  Driver, SysReq, Reply, max_units, failed, op_complete, unknown_unit, unknown_cmd, bad_req_len,
  cache_invalidate_unit,
}
use fujinet_msdos.Driver.Control.{
  fill_query, set_state, max_uri, max_path, nio_handle_control_call, Controlled,
}

-- The sizes of fuji_ioctl_query, fuji_ioctl_state, fuji_ioctl_unit_map and fuji_ioctl_nio_call.
abbrev pub query_size : ℕ
query_size = 8

abbrev pub state_size : ℕ
state_size = 396

abbrev pub unit_map_size : ℕ
unit_map_size = 9

abbrev pub nio_call_size : ℕ
nio_call_size = 534

-- The numbers of the requests.
abbrev pub ioctl_query : ℕ
ioctl_query = 0

abbrev pub ioctl_get_state : ℕ
ioctl_get_state = 1

abbrev pub ioctl_set_state : ℕ
ioctl_set_state = 2

abbrev pub ioctl_get_unit_map : ℕ
ioctl_get_unit_map = 3

abbrev pub ioctl_set_unit_map : ℕ
ioctl_set_unit_map = 4

abbrev pub ioctl_nio_call : ℕ
ioctl_nio_call = 5

-- The offsets of the fields behind the query.
abbrev pub off_uri_len : ℕ
off_uri_len = 8

abbrev pub off_path_len : ℕ
off_path_len = 10

abbrev pub off_uri : ℕ
off_uri = 12

abbrev pub off_path : ℕ
off_path = 268

abbrev pub off_unit : ℕ
off_unit = 5

abbrev pub off_slot : ℕ
off_slot = 8

abbrev refuse : {W : Type 0} → ℕ → SysReq → Driver W → Reply W
refuse code req d = record { status = failed code; req = req; driver = d }

abbrev answer : {W : Type 0} → Bytes → SysReq → Driver W → Reply W
answer buffer req d = record {
  status = op_complete;
  req = record req { buffer = buffer };
  driver = d;
}

pub ioctl_get_state_case : {W : Type 0} → SysReq → Driver W → Reply W
ioctl_get_state_case req d =
    let queried = fill_query req.unit req.buffer in
    let sized =
      blit queried off_uri_len (put_u16le d.current_uri_len ++ put_u16le d.display_path_len) in
    if ltb req.count state_size
    then refuse unknown_cmd req d
    else answer (blit (blit sized off_uri d.current_uri) off_path d.display_path) req d

pub ioctl_set_state_case : {W : Type 0} → SysReq → Driver W → Reply W
ioctl_set_state_case req d =
    let uri_len = get_u16le req.buffer off_uri_len in
    let path_len = get_u16le req.buffer off_path_len in
    if ltb req.count state_size
    then refuse unknown_cmd req d
    else if ltb max_uri uri_len || ltb max_path path_len
    then refuse bad_req_len req d
    else answer (fill_query req.unit req.buffer) req
        (set_state uri_len path_len (drop off_uri req.buffer) (drop off_path req.buffer) d)

pub ioctl_get_unit_map_case : {W : Type 0} → SysReq → Driver W → Reply W
ioctl_get_unit_map_case req d =
    let requested_unit = get_or req.buffer off_unit 0 in
    if ltb req.count unit_map_size
    then refuse unknown_cmd req d
    else if leb max_units requested_unit
    then refuse unknown_unit req d
    else answer
        (blit (blit (fill_query req.unit req.buffer) off_unit (requested_unit ∷ [])) off_slot
          (get_or d.unit_slot requested_unit 0 ∷ []))
        req d

-- The unit and the slot are read before `fill_query` overwrites the unit.
pub ioctl_set_unit_map_case : {W : Type 0} → SysReq → Driver W → Reply W
ioctl_set_unit_map_case req d =
    let unit = get_or req.buffer off_unit 0 in
    let slot = get_or req.buffer off_slot 0 in
    let cleared = cache_invalidate_unit unit d in
    if ltb req.count unit_map_size
    then refuse unknown_cmd req d
    else if leb max_units unit
    then refuse unknown_unit req d
    else if leb max_units slot
    then refuse bad_req_len req d
    else answer (fill_query req.unit req.buffer) req (record cleared {
      unit_slot = set cleared.unit_slot unit slot;
      media_changed = set cleared.media_changed unit true;
    })

pub ioctl_nio_call_case : {W : Type 0} → Port W → SysReq → Driver W → Option (Reply W)
ioctl_nio_call_case {W} port req d =
    let called : Option (Reply W) = (do
      c ← nio_handle_control_call port req.buffer req.unit d
      some (record {
        status = c.status;
        req = record req { buffer = c.call };
        driver = c.driver;
      })) in
    if ltb req.count nio_call_size then some (refuse unknown_cmd req d) else called

pub handle_ioctl_buffer : {W : Type 0} → Port W → SysReq → Driver W → Option (Reply W)
handle_ioctl_buffer port req d =
    let command = get_or req.buffer 0 0 in
    if leb max_units req.unit
    then some (refuse unknown_unit req d)
    else if ltb req.count query_size
    then some (refuse unknown_cmd req d)
    else if command == ioctl_query
    then some (answer (fill_query req.unit req.buffer) req d)
    else if command == ioctl_get_state
    then some (ioctl_get_state_case req d)
    else if command == ioctl_set_state
    then some (ioctl_set_state_case req d)
    else if command == ioctl_get_unit_map
    then some (ioctl_get_unit_map_case req d)
    else if command == ioctl_set_unit_map
    then some (ioctl_set_unit_map_case req d)
    else if command == ioctl_nio_call
    then ioctl_nio_call_case port req d
    else some (refuse unknown_cmd req d)
