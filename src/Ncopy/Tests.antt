-- ===== src/Ncopy/Tests.antt =====
-- The copy program at concrete inputs.
use fujinet_msdos.Base.{
  ℕ, zero, suc, ◌+◌, ◌≡◌, refl, ap, arith, false, some, [], ◌∷◌, ◌++◌, Bytes, min, ◌==◌,
  if◌then◌else◌, take, drop, length, replicate,
}
use fujinet_msdos.Base.Words.{get_u16le}
use fujinet_msdos.Fujifs.{
  FujiBus, Fuji, own, blank_handle, write_mode, read_status, fujifs_find_handle, init_handles,
  first_free, set_open, is_connected, path_text,
}
use fujinet_msdos.Fujifs.Open.{fujifs_open, open_named, open_result, open_error, with_error}
use fujinet_msdos.Fujifs.Transfer.Blocks.{Serves, Takes}
use fujinet_msdos.Ncopy.{LocalFiles, Copying, read_mode, copied, get_file, put_file}
use fujinet_msdos.Ncopy.Copied.{Stores, get_file-copied}
use fujinet_msdos.Ncopy.Sent.{Reads, put_file-copied}
use fujinet_msdos.Ncopy.Parser.{parse_command}
use fujinet_msdos.Ncopy.Parser.Words.{words, parsed_words, parse_command-words}

-- A device with a file: it has at most 255 bytes ready at a time.
abbrev one_file : FujiBus Bytes
one_file = record {
  none_call = λ w dev command. (b'C', w);
  read_call = λ w dev command kind a b n content.
      if command == b'S'
      then (b'C', min (length w) 255 ∷ 0 ∷ 1 ∷ 1 ∷ [], w)
      else (b'C', take n w, drop n w);
  write_call =
      λ w dev command kind a b content. (b'C', if command == b'W' then w ++ content else w);
}

abbrev one_local : LocalFiles Bytes
one_local = record {
  fopen_wb = λ l name. some [];
  fopen_rb = λ l name. some l;
  fwrite = λ l block. (length block, l ++ block);
  fread = λ l n. (take n l, drop n l);
  fclose = λ l. l;
}

take-take : (k : ℕ) (xs : Bytes) → take k (take k xs) ≡ take k xs
take-take zero xs = refl
take-take (suc k) [] = refl
take-take (suc k) (x ∷ xs) = ap (◌∷◌ x) (take-take k xs)

length_zero : (xs : Bytes) → min (length xs) 255 + 0 ≡ 0 → xs ≡ []
length_zero [] e = refl
length_zero (x ∷ xs) e = absurd (ground arith)

one_file-Serves : Serves one_file 1 (λ w. w)
unfolding get_u16le
one_file-Serves = record {
  status_keeps = λ w status. refl;
  status_within = λ w status. (ground arith);
  status_some = λ w status e. length_zero w e;
  block_complete = λ w k buffer e. refl;
  block_is = λ w k buffer e. take-take k w;
  block_taken = λ w k buffer e. refl;
}

one_file-Takes : Takes one_file 1 (λ w. w)
one_file-Takes = record {
  write_complete = λ w content. refl;
  write_is = λ w content. refl;
  close_keeps = λ w. refl;
}

one_local-Stores : Stores one_local (λ l. l)
one_local-Stores = record {
  opened_is = λ l name l' e. cc;
  closed_is = λ l. refl;
  count_is = λ l b. refl;
  written_is = λ l b. refl;
}

one_local-Reads : Reads one_local (λ l. l)
one_local-Reads = record { read_is = λ l n. refl; left_is = λ l n. refl }

-- The table before the first call; the device has a file of 300 bytes.
abbrev remote : Fuji Bytes
remote = record {
  world = replicate 300 65;
  handles = replicate 8 blank_handle;
  buf = [];
  status = 0 ∷ 0 ∷ 0 ∷ 0 ∷ [];
  did_init = false;
}

abbrev copying : Copying Bytes Bytes
copying = record { buf = replicate 256 0; fuji = remote; files = [] }

get_file-copied_example :
    (c' : Copying Bytes Bytes) × (get_file one_file one_local 400 0
        (b'a' ∷ [])
        (some (b'b' ∷ []))
        copying
      ≡ some (copied, c'))
    × (c'.files ≡ (fujifs_open one_file 0 (own (b'a' ∷ [])) read_mode remote).2.world)
unfolding fujifs_open open_named open_result open_error with_error read_status fujifs_find_handle
    init_handles first_free set_open is_connected path_text
get_file-copied_example =
    get_file-copied one_file one_local 1 (λ w. w) (λ l. l) one_local-Stores 400 0 (b'a' ∷ [])
      (b'b' ∷ []) copying [] refl refl refl refl one_file-Serves (omega arith)

put_file-copied_example :
    (c' : Copying Bytes Bytes) × (put_file one_file one_local 400 0
        (b'a' ∷ [])
        (some (b'b' ∷ []))
        (record copying { files = replicate 300 66 })
      ≡ some (copied, c'))
    × (c'.fuji.world
        ≡ (fujifs_open one_file 0 (own (b'b' ∷ [])) write_mode remote).2.world ++ replicate 300 66)
unfolding fujifs_open open_named open_result open_error with_error read_status fujifs_find_handle
    init_handles first_free set_open is_connected path_text
put_file-copied_example =
    put_file-copied one_file one_local 1 (λ w. w) (λ l. l) one_file-Takes one_local-Reads 400 0
      (b'a' ∷ []) (b'b' ∷ []) (record copying { files = replicate 300 66 }) (replicate 300 66)
      (omega arith) (omega arith) refl refl refl (omega arith)

parse_command-words_example :
    parse_command (b' ' ∷ b'G' ∷ b'e' ∷ b't' ∷ b'\t' ∷ b' ' ∷ b'a' ∷ b'\n' ∷ [])
    ≡ parsed_words (words (b' ' ∷ b'G' ∷ b'e' ∷ b't' ∷ b'\t' ∷ b' ' ∷ b'a' ∷ b'\n' ∷ []))
parse_command-words_example =
    parse_command-words (b' ' ∷ b'G' ∷ b'e' ∷ b't' ∷ b'\t' ∷ b' ' ∷ b'a' ∷ b'\n' ∷ [])
