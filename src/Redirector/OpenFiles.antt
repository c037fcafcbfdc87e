-- ===== src/Redirector/OpenFiles.antt =====
-- The calls of fnshare/redir.c on open files.
pub mod Position
pub mod Errors
use fujinet_msdos.Base.{
  ℕ, ◌+◌, ◌-◌, ◌*◌, ◌/◌, ◌%◌, Bool, true, false, not, ◌&&◌, ◌||◌, [], ◌∷◌, Bytes, u8, u16, u32,
  bit_and, bit_or, ltb, leb, ◌==◌, if◌then◌else◌, blit, take,
}
use fujinet_msdos.Redirector.Names.{contains_wildcards}
use fujinet_msdos.Redirector.State.{
  FujiFs, DirRec, SftRec, Share, Redir, file_not_found, path_not_found, access_denied,
  invalid_access_code, drive_not_ready, unexpected_network_error, attr_read_only, attr_directory,
  attr_volume_label, has_bits, fail, succeed, fndirent_to_dirrec,
}
use fujinet_msdos.Redirector.Search.{host_path}

-- The modes of fnshare/dosdata.h, and those of ncopy/fujifs.h.
abbrev mode_writeonly : ℕ
mode_writeonly = 1

abbrev mode_readwrite : ℕ
mode_readwrite = 2

abbrev flags_read : ℕ
flags_read = 4

abbrev flags_write : ℕ
flags_write = 8

abbrev flags_readwrite : ℕ
flags_readwrite = 12

-- The count is cut at the end of the file, in 32 bits and then in 16.
pub read_count : SftRec → ℕ → ℕ
read_count sft cx =
    if ltb sft.size (u32 (sft.pos + cx)) then u16 (u32 (sft.size + 4294967296 - sft.pos)) else cx

module _ {W : Type 0} (fs : FujiFs W) where
  pub close_file : Redir W → Redir W
  close_file s =
      let count = s.sft.handle_count in
      let s1 = record s { sft = record (s.sft) { handle_count = count - 1 } } in
      let (err, w) = fs.close s1.world s1.sft.file_handle in
      let s2 = record s1 { world = w } in
      if not (has_bits s1.sft.open_mode 3)
      then s1
      else if err == 0
      then s2
      else fail access_denied s2

  -- `fujifs_seek`, whose error is ignored.
  pub sought : SftRec → W → W
  sought sft w = if sft.pos == sft.last_pos then w else fs.seek w sft.file_handle sft.pos

  pub read_file : Redir W → Redir W
  read_file s =
      let count = read_count s.sft s.r.cx in
      let s1 = record s { r = record (s.r) { cx = count } } in
      let (got, content, w) = fs.read (sought s.sft s.world) s.sft.file_handle count in
      let pos = u32 (s.sft.pos + u16 got) in
      if has_bits s.sft.open_mode 1
      then fail access_denied s
      else if count == 0
      then s1
      else record s1 {
        world = w;
        r = record (s1.r) { cx = u16 got };
        dta = blit s.dta 0 content;
        sft = record (s.sft) { pos = pos; last_pos = pos };
      }

  pub write_file : Redir W → Redir W
  write_file s =
      let (wrote, w) =
        fs.write (sought s.sft s.world) s.sft.file_handle (take s.r.cx s.dta) s.r.cx in
      let cx = u16 wrote in
      let s1 = record s { world = w; r = record (s.r) { cx = cx } } in
      let pos = u32 (s.sft.pos + cx) in
      if not (has_bits s.sft.open_mode 3)
      then fail access_denied s
      else if cx == 65535
      then fail drive_not_ready s1
      else record s1 {
        sft = record (s.sft) {
          pos = pos;
          last_pos = pos;
          size = if ltb s.sft.size pos then pos else s.sft.size;
        };
      }

module _ {W : Type 0} where
  -- commit_file, lock_file and unlock_file do nothing, the last two after reading what is asked of
  -- them.
  pub commit_file : Redir W → Redir W
  commit_file s = s

  pub lock_file : Redir W → Redir W
  lock_file s = s

  pub unlock_file : Redir W → Redir W
  unlock_file s = s

  -- The distance from the end, -(CX:DX) as a signed number of 32 bits, is compared with the size as
  -- an unsigned one.
  pub seek_file : Redir W → Redir W
  seek_file s =
      let amount = u32 (4294967296 - u32 (s.r.cx * 65536 + s.r.dx)) in
      let amount' = if ltb s.sft.size amount then s.sft.size else amount in
      let pos = s.sft.size - amount' in
      record s {
        sft = record (s.sft) { pos = pos };
        r = record (s.r) { dx = pos / 65536; ax = pos % 65536 };
      }

  pub extended_attr : Redir W → Redir W
  extended_attr s = record s { r = record (s.r) { ax = 2 } }

-- The open mode is a word: an FCB open has its highest bit.
pub init_sft : Share → SftRec → SftRec
init_sft share sft = record sft {
  open_mode =
      if has_bits sft.open_mode 0x8000
      then bit_or sft.open_mode 0x00F0
      else bit_and sft.open_mode 0x000F;
  dev_info_word = u16 (bit_or 0x8040 share.fn_drive_num);
  pos = 0;
  last_pos = 0;
  dev_drvr_ptr = 0;
}

pub fill_sft : {W : Type 0} → Redir W → Bool → Bool → SftRec
fill_sft s use_found_1 truncate =
    if use_found_1
    then record (s.sft) {
      fcb_name = s.fcbname1;
      attr = s.dirrec1.attr;
      index = u8 s.srchrec1.index;
      size = if truncate then 0 else s.dirrec1.size;
    }
    else record (s.sft) { fcb_name = s.fcbname1; attr = u8 s.stack_param; size = 0; index = 0xFF }

-- What a call asks for: the mode, the action, and the mode left in the entry of the file.
pub record Asked : Type 0 where
  pub open_mode : ℕ
  pub action : ℕ
  pub sft_mode : ℕ

abbrev open_if_exists : ℕ
open_if_exists = 1

abbrev replace_if_exists : ℕ
replace_if_exists = 2

abbrev create_if_not_exist : ℕ
create_if_not_exist = 16

pub asked : {W : Type 0} → Redir W → Asked
asked s =
    let mode = bit_and s.mode_2e 0x7F in
    if s.curr_fxn == 0x16
    then record { open_mode = s.stack_param; action = open_if_exists; sft_mode = s.sft.open_mode }
    else if s.curr_fxn == 0x17
    then record {
      open_mode = mode_writeonly;
      action = if s.stack_param / 256 == 0 then create_if_not_exist else replace_if_exists;
      sft_mode = s.sft.open_mode;
    }
    else record { open_mode = mode; action = s.action_2e; sft_mode = mode }

-- The low bits of the action say what to do with a file that is there, the next ones what to do where
-- there is none.
pub refusal : Asked → Bool → DirRec → ℕ
refusal a exists rec =
    let writes = has_bits a.open_mode 3 in
    if exists
    then (if has_bits rec.attr 24
          || has_bits rec.attr attr_read_only && writes
          || not (has_bits a.action 0x0F)
        then access_denied
        else 0)
    else if not (has_bits a.action 0xF0)
    then file_not_found
    else if not writes
    then access_denied
    else 0

-- The mode for the network file; there is none for the value 3.
pub flags_of : ℕ → ℕ
flags_of open_mode =
    let access = open_mode % 4 in
    if access == 0
    then flags_read
    else if access == mode_writeonly
    then flags_write
    else if access == mode_readwrite
    then flags_readwrite
    else 0

module _ {W : Type 0} (fs : FujiFs W) (share : Share) where
  -- The end of open_extended: the file is opened and its entry filled.
  pub open_asked : Asked → Bool → Redir W → Redir W
  open_asked a exists s =
      let flags = flags_of a.open_mode in
      let (err, handle, w) =
        fs.open_file s.world share.fn_host (host_path share s.filename1) flags in
      let s1 = record s { world = w; sft = record (s.sft) { file_handle = u8 handle } } in
      let replaces =
        has_bits (bit_and a.action (if exists then 0x0F else 0xF0)) replace_if_exists in
      if flags == 0
      then fail invalid_access_code s
      else if not (err == 0)
      then fail unexpected_network_error (record s { world = w })
      else succeed (record s1 { sft = init_sft share (fill_sft s1 exists replaces) })

  -- What becomes of the call when it is known whether there is such a file.
  open_found : Asked → Bool → Redir W → Redir W
  open_found a exists s =
      let error = refusal a exists s.dirrec1 in
      if not (error == 0) then fail error s else open_asked a exists s

  pub open_extended : Redir W → Redir W
  open_extended s =
      let a = asked s in
      let s1 = record s { sft = record (s.sft) { open_mode = a.sft_mode } } in
      let (err, entry, w) = fs.stat s1.world share.fn_host (host_path share s.filename1) in
      let exists = u16 err == 0 in
      let s2 = record s1 {
        world = w;
        r = record (s1.r) { ax = u16 err };
        dirrec1 = if exists then fndirent_to_dirrec entry else s1.dirrec1;
      } in
      if contains_wildcards s.fcbname1 then fail path_not_found s1 else open_found a exists s2
