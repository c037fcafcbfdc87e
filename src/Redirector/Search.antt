-- ===== src/Redirector/Search.antt =====
-- `find_next` and `find_first` of fnshare/redir.c.
pub mod Shown
pub mod Listing
pub mod Finite
pub mod Errors
use fujinet_msdos.Base.{
  ℕ, zero, suc, ◌+◌, Bool, true, false, not, ◌&&◌, ◌||◌, Option, none, some, [], ◌∷◌, Bytes, bit_or,
  u8, ◌==◌, if◌then◌else◌, ◌>>=◌,
}
use fujinet_msdos.Redirector.Names.{
  fcbname_length, fcbitize, match_to_mask, split_last, undosify_path, path_with_volume,
}
use fujinet_msdos.Redirector.State.{
  Dirent, FujiFs, DirRec, SrchRec, Regs, Share, Redir, file_not_found, no_more_files,
  unexpected_network_error, attr_volume_label, attr_directory, attr_system, attr_hidden, no_handle,
  has_bits, fail, succeed, dirent_attr, fndirent_to_dirrec,
}

-- What the mask keeps from the caller.
pub is_masked : ℕ → ℕ → Bool
is_masked srch_mask attr =
    (srch_mask == attr_volume_label) && not (has_bits attr attr_volume_label)
    || has_bits attr attr_directory && not (has_bits srch_mask attr_directory)
    || has_bits attr attr_volume_label && not (has_bits srch_mask attr_volume_label)
    || has_bits attr attr_system && not (has_bits srch_mask attr_system)
    || has_bits attr attr_hidden && not (has_bits srch_mask attr_hidden)

pub is_wanted : SrchRec → Dirent → Bool
unfolding is_masked
is_wanted srchrec ent =
    match_to_mask srchrec.pattern (fcbitize ent.name)
    && not (is_masked srchrec.attr_mask (dirent_attr ent))

-- The path on the host of a path of DOS.
pub host_path : Share → Bytes → Bytes
host_path share filename = path_with_volume share.fn_volume share.fn_cwd (undosify_path filename)

-- The path of the directory that a search goes through.
pub search_directory : Bytes → Bytes
search_directory filename = elim (split_last b'\\' filename) [
  | some (front, behind) ↦ front
  | none ↦ filename
]

module _ {W : Type 0} (fs : FujiFs W) (share : Share) where
  -- The loop over the entries of the open directory. An entry that is passed over has left its name
  -- in the record.
  pub find_loop : ℕ → Redir W → Option (Redir W)
  find_loop zero s = none
  find_loop (suc fuel) s =
      let (ent, w) = fs.readdir s.world s.srchrec1.dir_handle in
      elim ent [
        | none ↦
            let w' = fs.closedir w s.srchrec1.dir_handle in
            some (
              fail no_more_files (record s {
                world = w';
                srchrec1 = record (s.srchrec1) { dir_handle = no_handle };
              }))
        | some e ↦
            let passed = record s {
              world = w;
              dirrec1 = record (s.dirrec1) { fcb_name = fcbitize e.name };
            } in
            let rest = find_loop fuel passed in
            if is_wanted s.srchrec1 e
            then some (record s { world = w; dirrec1 = fndirent_to_dirrec e })
            else rest
      ]

  pub find_next : ℕ → Redir W → Option (Redir W)
  unfolding host_path search_directory
  find_next fuel s =
      let (err, handle, w) =
        fs.opendir s.world share.fn_host (host_path share (search_directory s.filename1)) in
      let unopened = fail unexpected_network_error (record s { world = w }) in
      let opened = record s {
        world = w;
        srchrec1 = record (s.srchrec1) { dir_handle = u8 handle };
      } in
      let found = find_loop fuel s in
      let found_opened = find_loop fuel opened in
      if not (s.srchrec1.dir_handle == no_handle)
      then found
      else if err == 0
      then found_opened
      else some unopened

  -- The volume label, which has a record of its own.
  label_found : Redir W → Redir W
  label_found s = succeed (record s {
    srchrec1 = record (s.srchrec1) {
      drive_num = u8 (bit_or (share.fn_drive_num + 1) 0x80);
      pattern = s.fcbname1;
      attr_mask = s.srch_attr;
    };
    dirrec1 = record (s.dirrec1) {
      fcb_name = b'F' ∷ b'U' ∷ b'J' ∷ b'I' ∷ b'N' ∷ b'E' ∷ b'T' ∷ b' ' ∷ b' ' ∷ b' ' ∷ b' ' ∷ [];
      attr = attr_volume_label;
      year = 0;
      month = 0;
      day = 0;
      hour = 0;
      minute = 0;
      second = 0;
      size = 0;
    };
  })

  -- The search before its first step: a directory that is still open is closed.
  pub search_start : Redir W → Redir W
  search_start s =
      let is_open = not (s.srchrec1.dir_handle == no_handle) in
      record s {
        world = if is_open then fs.closedir s.world s.srchrec1.dir_handle else s.world;
        srchrec1 = record {
          pattern = s.fcbname1;
          dir_handle = no_handle;
          index = 65535;
          attr_mask = s.srch_attr;
          drive_num = u8 (bit_or share.fn_drive_num 0xC0);
        };
      }

  -- An empty search is the caller's error.
  pub search_end : Redir W → Redir W
  search_end s =
      if s.r.ax == no_more_files then record s { r = record (s.r) { ax = file_not_found } } else s

  pub find_first : ℕ → Redir W → Option (Redir W)
  unfolding label_found search_start search_end
  find_first fuel s =
      let searched : Option (Redir W) = (do
        s' ← find_next fuel (search_start s)
        some (search_end s')) in
      if s.srch_attr == attr_volume_label then some (label_found s) else searched
