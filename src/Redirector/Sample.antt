-- ===== src/Redirector/Sample.antt =====
-- A host of one directory for the tests: reading takes the entries one by one.
use fujinet_msdos.Base.{ℕ, ◌+◌, false, List, [], ◌∷◌, ◌++◌, Bytes, replicate, get_elem?}
use fujinet_msdos.Redirector.Names.{no_name}
use fujinet_msdos.Redirector.State.{Dirent, FujiFs, DirRec, SrchRec, SftRec, Regs, Share, Redir}

abbrev pub file : Bytes → Dirent
file name = record {
  name = name;
  size = 100;
  isdir = false;
  tm_year = 124;
  tm_mon = 0;
  tm_mday = 1;
  tm_hour = 12;
  tm_min = 30;
  tm_sec = 0;
}

-- a.txt, b.bin and c.txt.
abbrev pub files : List Dirent
files =
    file (b'a' ∷ b'.' ∷ b't' ∷ b'x' ∷ b't' ∷ [])
    ∷ file (b'b' ∷ b'.' ∷ b'b' ∷ b'i' ∷ b'n' ∷ [])
    ∷ file (b'c' ∷ b'.' ∷ b't' ∷ b'x' ∷ b't' ∷ [])
    ∷ []

-- The host's state: how many entries have been read.
abbrev pub Host : Type 0
Host = ℕ

-- Every file is there, each opening starts the directory again.
abbrev pub host : FujiFs Host
host = record {
  opendir = λ w h path. (0, 2, 0);
  readdir = λ w h. (get_elem? files w, w + 1);
  closedir = λ w h. 0;
  stat = λ w h path. (0, file [], w);
  rmdir = λ w h path. (0, w);
  mkdir = λ w h path. (0, w);
  unlink = λ w h path. (0, w);
  rename = λ w h old new. (0, w);
  open_file = λ w h path mode. (0, 3, w);
  close = λ w h. (0, w);
  seek = λ w h pos. w;
  read = λ w h count. (count, replicate count 42, w);
  write = λ w h content count. (count, w);
}

abbrev pub share : Share
share = record {
  fn_drive_num = 5;
  fn_host = 1;
  fn_volume = b't' ∷ b'n' ∷ b'f' ∷ b's' ∷ b':' ∷ b'/' ∷ b'/' ∷ b'x' ∷ [];
  fn_cwd = [];
  cds_path_root = b'F' ∷ b':' ∷ b'\\' ∷ [];
  is_a_character_device = λ name. false;
}

abbrev pub blank_record : DirRec
blank_record = record {
  fcb_name = no_name;
  attr = 0;
  year = 0;
  month = 0;
  day = 0;
  hour = 0;
  minute = 0;
  second = 0;
  start_sector = 0;
  size = 0;
}

-- Any name with the extension TXT, in lower case as the host has it.
abbrev pub text_files : Bytes
text_files = replicate 8 b'?' ++ (b't' ∷ b'x' ∷ b't' ∷ [])

abbrev pub search : SrchRec
search = record {
  drive_num = 0xC5;
  pattern = text_files;
  attr_mask = 0x16;
  index = 0;
  dir_handle = 2;
}

abbrev pub blank_file : SftRec
blank_file = record {
  handle_count = 1;
  open_mode = 2;
  attr = 0;
  dev_info_word = 0x8045;
  dev_drvr_ptr = 0;
  file_handle = 3;
  size = 100;
  pos = 10;
  last_pos = 0;
  index = 0;
  fcb_name = no_name;
}

abbrev pub regs : Regs
regs = record { ax = 0; bx = 0; cx = 20; dx = 0; carry = false }

-- The directory `\` is open and a file with 100 bytes.
abbrev pub state : Redir Host
state = record {
  world = 0;
  r = regs;
  curr_fxn = 0;
  filename_is_char_device = false;
  filename1 = b'\\' ∷ b'*' ∷ b'.' ∷ b't' ∷ b'x' ∷ b't' ∷ [];
  filename2 = [];
  fcbname1 = text_files;
  fcbname2 = no_name;
  srch_attr = 0x16;
  dirrec1 = blank_record;
  dirrec2 = blank_record;
  srchrec1 = search;
  srchrec2 = search;
  current_path = [];
  cds = b'F' ∷ b':' ∷ b'\\' ∷ [];
  sft = blank_file;
  stack_param = 0;
  action_2e = 0;
  mode_2e = 0;
  dta = replicate 32 0;
}
