-- ===== src/Redirector/State.antt =====
-- The data of fnshare/redir.c: the registers of the caller, the areas of DOS that the pointers of the
-- file lead to, and the operations on the network files (ncopy/fujifs.h) as an interface.
pub mod Told
use fujinet_msdos.Base.{
  ℕ, Bool, true, false, not, ◌==◌, Option, Bytes, bit_and, ◌+◌, ◌/◌, ◌%◌, u16, u32, if◌then◌else◌,
}
use fujinet_msdos.Redirector.Names.{fcbitize}

-- `FN_DIRENT`, whose time is a `struct tm`.
pub record Dirent : Type 0 where
  pub name : Bytes
  pub size : ℕ
  pub isdir : Bool
  pub tm_year : ℕ
  pub tm_mon : ℕ
  pub tm_mday : ℕ
  pub tm_hour : ℕ
  pub tm_min : ℕ
  pub tm_sec : ℕ

-- The functions of ncopy/fujifs.h that the redirector calls, on a world `W`. An error is a number that
-- is not 0. What `stat` leaves in the caller's entry is given in any case.
pub record FujiFs (W : Type 0) : Type 0 where
  pub opendir : W → ℕ → Bytes → ℕ × ℕ × W
  pub readdir : W → ℕ → Option Dirent × W
  pub closedir : W → ℕ → W
  pub stat : W → ℕ → Bytes → ℕ × Dirent × W
  pub rmdir : W → ℕ → Bytes → ℕ × W
  pub mkdir : W → ℕ → Bytes → ℕ × W
  pub unlink : W → ℕ → Bytes → ℕ × W
  pub rename : W → ℕ → Bytes → Bytes → ℕ × W
  pub open_file : W → ℕ → Bytes → ℕ → ℕ × ℕ × W
  pub close : W → ℕ → ℕ × W
  pub seek : W → ℕ → ℕ → W
  -- The bytes read, and the count that is returned.
  pub read : W → ℕ → ℕ → ℕ × Bytes × W
  pub write : W → ℕ → Bytes → ℕ → ℕ × W

-- `DIRREC`.
pub record DirRec : Type 0 where
  pub fcb_name : Bytes
  pub attr : ℕ
  pub year : ℕ
  pub month : ℕ
  pub day : ℕ
  pub hour : ℕ
  pub minute : ℕ
  pub second : ℕ
  pub start_sector : ℕ
  pub size : ℕ

-- `SRCHREC`.
pub record SrchRec : Type 0 where
  pub drive_num : ℕ
  pub pattern : Bytes
  pub attr_mask : ℕ
  pub index : ℕ
  pub dir_handle : ℕ

-- `SFTREC`, the entry of an open file.
pub record SftRec : Type 0 where
  pub handle_count : ℕ
  pub open_mode : ℕ
  pub attr : ℕ
  pub dev_info_word : ℕ
  pub dev_drvr_ptr : ℕ
  pub file_handle : ℕ
  pub size : ℕ
  pub pos : ℕ
  pub last_pos : ℕ
  pub index : ℕ
  pub fcb_name : Bytes

-- `r`, less the registers that no function looks at. The carry flag is one bit of `flags`.
pub record Regs : Type 0 where
  pub ax : ℕ
  pub bx : ℕ
  pub cx : ℕ
  pub dx : ℕ
  pub carry : Bool

-- What the redirector serves, fixed when it is loaded.
pub record Share : Type 0 where
  pub fn_drive_num : ℕ
  pub fn_host : ℕ
  pub fn_volume : Bytes
  pub fn_cwd : Bytes
  -- The path of the drive that DOS has for it, and the test of DOS whether a name is a device.
  pub cds_path_root : Bytes
  pub is_a_character_device : Bytes → Bool

-- The state a call works on. `sft` is the entry at ES:DI, `stack_param` the word on top of the
-- caller's stack, `dta` the caller's buffer, `cds` the path of the drive in question, and each other field what the pointer of that name leads
-- to.
pub record Redir (W : Type 0) : Type 0 where
  pub world : W
  pub r : Regs
  pub curr_fxn : ℕ
  pub filename_is_char_device : Bool
  pub filename1 : Bytes
  pub filename2 : Bytes
  pub fcbname1 : Bytes
  pub fcbname2 : Bytes
  pub srch_attr : ℕ
  pub dirrec1 : DirRec
  pub dirrec2 : DirRec
  pub srchrec1 : SrchRec
  pub srchrec2 : SrchRec
  pub current_path : Bytes
  pub cds : Bytes
  pub sft : SftRec
  pub stack_param : ℕ
  pub action_2e : ℕ
  pub mode_2e : ℕ
  pub dta : Bytes

-- The errors of fnshare/doserr.h that the redirector gives.
abbrev pub file_not_found : ℕ
file_not_found = 2

abbrev pub path_not_found : ℕ
path_not_found = 3

abbrev pub access_denied : ℕ
access_denied = 5

abbrev pub invalid_access_code : ℕ
invalid_access_code = 12

abbrev pub no_more_files : ℕ
no_more_files = 18

abbrev pub drive_not_ready : ℕ
drive_not_ready = 21

abbrev pub unexpected_network_error : ℕ
unexpected_network_error = 59

abbrev pub file_exists : ℕ
file_exists = 80

-- The attributes of fnshare/dosdata.h.
abbrev pub attr_read_only : ℕ
attr_read_only = 1

abbrev pub attr_hidden : ℕ
attr_hidden = 2

abbrev pub attr_system : ℕ
attr_system = 4

abbrev pub attr_volume_label : ℕ
attr_volume_label = 8

abbrev pub attr_directory : ℕ
attr_directory = 16

-- `dir_handle` where no directory is open: -1 in 16 bits.
abbrev pub no_handle : ℕ
no_handle = 65535

-- `a & b` as a test.
abbrev pub has_bits : ℕ → ℕ → Bool
has_bits a b = not (bit_and a b == 0)

module _ {W : Type 0} where
  unfoldable pub fail : ℕ → Redir W → Redir W
  fail err s = record s { r = record (s.r) { carry = true; ax = u16 err } }

  unfoldable pub succeed : Redir W → Redir W
  succeed s = record s { r = record (s.r) { carry = false; ax = 0 } }

-- `ent->isdir ? ATTR_DIRECTORY : 0`.
abbrev pub dirent_attr : Dirent → ℕ
dirent_attr ent = if ent.isdir then attr_directory else 0

-- The date is in bit fields, the year counted from 1980 in 7 bits (`tm_year - 80`).
unfoldable pub fndirent_to_dirrec : Dirent → DirRec
fndirent_to_dirrec ent = record {
  fcb_name = fcbitize ent.name;
  attr = dirent_attr ent;
  year = (ent.tm_year + 48) % 128;
  month = (ent.tm_mon + 1) % 16;
  day = ent.tm_mday % 32;
  hour = ent.tm_hour % 32;
  minute = ent.tm_min % 64;
  second = ent.tm_sec / 2 % 32;
  size = u32 ent.size;
  start_sector = 0;
}
