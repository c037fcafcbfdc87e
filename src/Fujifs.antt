-- ===== src/Fujifs.antt =====
-- ncopy/fujifs.c: the network handles and the operations on them. The directory listing (readdir, its
-- tokens, and stat, which reads through it) is not modelled. A string is the list of its characters in
-- front of the final NUL; where the 256 bytes of a buffer are sent, the string in it is what counts.
pub mod Open
pub mod Transfer
pub mod Paths
mod Tests
use fujinet_msdos.Base.{
  ℕ, zero, suc, ◌+◌, ◌-◌, ◌*◌, ◌/◌, ◌%◌, Bool, true, false, not, ◌&&◌, ◌||◌, Option, none, some,
  List, [], ◌∷◌, ◌++◌, map, Bytes, min, ltb, leb, ◌==◌, if◌then◌else◌, get_or, set, take, length,
  replicate,
}
use fujinet_msdos.Base.Words.{get_u16le}
pub use fujinet_msdos.FujiF5.{FujiBus}

-- `fn_network_handle`.
pub record Handle : Type 0 where
  pub parent : ℕ
  pub is_open : Bool
  pub did_auth : Bool
  pub position : ℕ
  pub length : ℕ
  pub user : Bytes
  pub password : Bytes

-- The file-scope variables, and the world behind the requests. `status` has 4 bytes.
pub record Fuji (W : Type 0) : Type 0 where
  pub world : W
  pub handles : List Handle
  pub buf : Bytes
  pub status : Bytes
  pub did_init : Bool

abbrev pub netdev_total : ℕ
netdev_total = 8

-- `NETDEV(x)`.
abbrev pub netdev : ℕ → ℕ
netdev x = 0x70 + x

abbrev pub open_size : ℕ
open_size = 256

abbrev pub reply_complete : ℕ
reply_complete = b'C'

-- The kinds of fields of include/fuji_firmware.h.
abbrev pub fields_none : ℕ
fields_none = 0

-- The errors of include/fuji_firmware.h.
abbrev pub network_success : ℕ
network_success = 1

abbrev pub end_of_file : ℕ
end_of_file = 136

abbrev pub not_connected : ℕ
not_connected = 207

abbrev pub service_not_available : ℕ
service_not_available = 210

abbrev pub no_device_available : ℕ
no_device_available = 216

abbrev pub blank_handle : Handle
blank_handle = record {
  parent = 0;
  is_open = false;
  did_auth = false;
  position = 0;
  length = 0;
  user = [];
  password = [];
}

abbrev pub fields_a1_a2 : ℕ
fields_a1_a2 = 2

abbrev pub fields_b12 : ℕ
fields_b12 = 5

abbrev pub fields_c1234 : ℕ
fields_c1234 = 7

-- The commands of include/fuji_firmware.h.
abbrev pub cmd_chdir : ℕ
cmd_chdir = 0x2C

abbrev pub cmd_getcwd : ℕ
cmd_getcwd = 0x30

abbrev pub cmd_username : ℕ
cmd_username = 0xFD

abbrev pub cmd_password : ℕ
cmd_password = 0xFE

-- `FUJIFS_DIRECTORY` and `FUJIFS_WRITE`.
abbrev pub directory_mode : ℕ
directory_mode = 6

abbrev pub write_mode : ℕ
write_mode = 8

-- `N:`, where the path has no such prefix.
pub has_prefix : Bytes → Bool
has_prefix (n ∷ c ∷ rest) = ((n == b'N') || (n == b'n')) && (c == b':')
has_prefix _ = false

-- What `ennify` leaves in `fujifs_buf`; the path may be that buffer.
pub ennify : Bytes → Bytes
ennify path =
    if has_prefix path then take (open_size - 1) path else b'N' ∷ b':' ∷ take (open_size - 3) path

-- `://` in the path.
pub is_fq_url : Bytes → Bool
is_fq_url (a ∷ b ∷ c ∷ rest) = (a == b':') && (b == b'/') && (c == b'/') || is_fq_url (b ∷ c ∷ rest)
is_fq_url _ = false

-- A path that a caller passes: a string of its own, or `fujifs_buf`, which the call itself writes to.
pub data PathArg : Type 0 where
  own : Bytes → PathArg
  shared : PathArg

-- The index of the first handle that is not open.
unfoldable pub first_free : List Handle → Option ℕ
first_free [] = none
first_free (h ∷ hs) =
    let rest : Option ℕ = elim (first_free hs) [ none ↦ none | some i ↦ some (i + 1) ] in
    if h.is_open then rest else some 0

module _ {W : Type 0} where
  unfoldable pub path_text : Fuji W → PathArg → Bytes
  path_text s (own text) = text
  path_text s shared = s.buf

  -- `FN_HANDLE(x)`.
  abbrev pub fn_handle : Fuji W → ℕ → Handle
  fn_handle s x = get_or s.handles (x - 1) blank_handle

  abbrev pub set_handle : ℕ → Handle → Fuji W → Fuji W
  set_handle x h s = record s { handles = set s.handles (x - 1) h }

  unfoldable pub set_open : ℕ → Bool → Fuji W → Fuji W
  set_open x b s = set_handle x (record (fn_handle s x) { is_open = b }) s

  -- The table is cleared by the first call.
  unfoldable pub init_handles : Fuji W → Fuji W
  init_handles s =
      if s.did_init
      then s
      else record s { handles = replicate netdev_total blank_handle; did_init = true }

  unfoldable pub fujifs_find_handle : Fuji W → ℕ × Fuji W
  fujifs_find_handle s =
      let s1 = init_handles s in
      elim (first_free s1.handles) [ none ↦ (0, s1) | some i ↦ (i + 1, set_open (i + 1) true s1) ]

  -- A number of a handle that is open.
  unfoldable pub is_connected : Fuji W → ℕ → Bool
  is_connected s x = leb 1 x && leb x netdev_total && (fn_handle s x).is_open

  -- `status.length` and `status.errcode`.
  abbrev pub status_length : Fuji W → ℕ
  status_length s = get_u16le s.status 0

  abbrev pub status_error : Fuji W → ℕ
  status_error s = get_or s.status 3 0

module _ {W : Type 0} (bus : FujiBus W) where
  pub write_cmd : ℕ → ℕ → Bytes → Fuji W → ℕ × Fuji W
  write_cmd x command content s =
      let (reply, w) = bus.write_call s.world (netdev x) command fields_none 0 0 content in
      (reply, record s { world = w })

  unfoldable pub read_status : ℕ → Fuji W → Fuji W
  read_status x s =
      let (reply, status, w) = bus.read_call s.world (netdev x) b'S' fields_none 0 0 4 s.status in
      record s { world = w; status = status }
