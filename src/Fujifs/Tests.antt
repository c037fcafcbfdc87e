-- ===== src/Fujifs/Tests.antt =====
-- The network handles at concrete inputs.
use fujinet_msdos.Base.{ℕ, ◌+◌, refl, true, [], ◌∷◌, replicate}
use fujinet_msdos.Fujifs.{FujiBus, Fuji, own, blank_handle}
use fujinet_msdos.Fujifs.Open.{fujifs_open}
use fujinet_msdos.Fujifs.Open.Table.{Ends, fujifs_open-OpenEnd}

-- A device that does all that it is asked for and counts the requests; its status says that 100 bytes
-- are there.
abbrev device : FujiBus ℕ
device = record {
  none_call = λ w dev command. (b'C', w + 1);
  read_call = λ w dev command kind a b n content. (b'C', 100 ∷ 0 ∷ 1 ∷ 1 ∷ [], w + 1);
  write_call = λ w dev command kind a b content. (b'C', w + 1);
}

-- The first handle is a host with a user.
abbrev table : Fuji ℕ
table = record {
  world = 0;
  handles =
      record blank_handle { is_open = true; parent = 1; user = b'u' ∷ [] }
      ∷ replicate 7 blank_handle;
  buf = [];
  status = 0 ∷ 0 ∷ 0 ∷ 0 ∷ [];
  did_init = true;
}

fujifs_open-OpenEnd_example : Ends table (fujifs_open device 1 (own (b'a' ∷ [])) 4 table)
fujifs_open-OpenEnd_example =
    fujifs_open-OpenEnd device 1 (own (b'a' ∷ [])) 4 table (record { size_is = refl; ready = refl })
