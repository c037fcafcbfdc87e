-- ===== src/Redirector/Tests.antt =====
-- The redirector at concrete inputs.
use fujinet_msdos.Base.{
  ℕ, zero, suc, ◌+◌, ◌-◌, ◌<◌, ◌≡◌, ◌≢◌, refl, inr, none, some, List, [], ◌∷◌, ◌++◌, Bytes, arith,
  length, drop, get_elem?,
}
use fujinet_msdos.Redirector.Sample.{files, Host, host, share, search, regs, state}
use fujinet_msdos.Redirector.Names.{fcbitize, fcb_to_path, get_fcbname_from_path, path_with_volume}
use fujinet_msdos.Redirector.Names.RoundTrip.{
  Is83, fcb_to_path-fcbitize, get_fcbname_from_path-fcbitize,
}
use fujinet_msdos.Redirector.Names.Bounds.{IsHostPath, path_with_volume-IsHostPath}
use fujinet_msdos.Redirector.State.{Redir, Dirent, no_more_files, file_not_found}
use fujinet_msdos.Redirector.Search.{find_next, find_first}
use fujinet_msdos.Redirector.Search.Finite.{IsFinite}
use fujinet_msdos.Redirector.Search.Listing.{
  IsListing, Searched, begun, find_next-Searched, find_first-Searched,
}
use fujinet_msdos.Redirector.OpenFiles.{read_file, write_file}
use fujinet_msdos.Redirector.OpenFiles.Position.{IsPlaced, Ended, read_file-Ended, write_file-Ended}
use fujinet_msdos.Redirector.Bulk.{delete_files}
use fujinet_msdos.Redirector.Bulk.Total.{delete_files-ne-none}
use fujinet_msdos.Redirector.Dispatch.{redirector}
use fujinet_msdos.Redirector.Dispatch.Errors.{OutcomeIsTold, redirector-IsTold}

-- READ.ME
abbrev base : Bytes
base = b'R' ∷ b'E' ∷ b'A' ∷ b'D' ∷ []

abbrev ext : Bytes
ext = b'M' ∷ b'E' ∷ []

readme-Is83 : Is83 base ext
readme-Is83 = record {
  base_is = (omega arith, (omega arith, (omega arith, (omega arith, tt))));
  base_dotless = (omega arith, (omega arith, (omega arith, (omega arith, tt))));
  base_pos = omega arith;
  base_within = omega arith;
  ext_is = (omega arith, (omega arith, tt));
  ext_dotless = (omega arith, (omega arith, tt));
  ext_within = omega arith;
}

fcb_to_path-fcbitize_example :
    (fcb_to_path (b'\\' ∷ b'D' ∷ b'\\' ∷ b'*' ∷ []) (fcbitize (base ++ b'.' ∷ ext))
      ≡ b'\\' ∷ b'D' ∷ b'\\' ∷ (base ++ b'.' ∷ ext))
    × (fcb_to_path (b'\\' ∷ b'D' ∷ b'\\' ∷ b'*' ∷ []) (fcbitize base)
        ≡ b'\\' ∷ b'D' ∷ b'\\' ∷ (base ++ b'.' ∷ []))
fcb_to_path-fcbitize_example =
    fcb_to_path-fcbitize (b'\\' ∷ b'D' ∷ []) (b'*' ∷ []) base ext (omega arith, tt) readme-Is83

get_fcbname_from_path-fcbitize_example :
    (get_fcbname_from_path (base ++ b'.' ∷ ext) ≡ fcbitize (base ++ b'.' ∷ ext))
    × (get_fcbname_from_path base ≡ fcbitize base)
get_fcbname_from_path-fcbitize_example = get_fcbname_from_path-fcbitize base ext readme-Is83

path_with_volume-IsHostPath_example :
    IsHostPath share.fn_volume (path_with_volume share.fn_volume (b'd' ∷ []) base)
path_with_volume-IsHostPath_example =
    path_with_volume-IsHostPath share.fn_volume (b'd' ∷ []) base (omega arith) (omega arith)

abbrev entries : Host → List Dirent
entries w = drop w files

-- Reading a list by its indices.
module _ {ℓ} {A : Type ℓ} where
  drop_nil : (xs : List A) (w : ℕ) → drop w xs ≡ [] → get_elem? xs w ≡ none
  drop_nil [] w e = refl
  drop_nil (x ∷ xs) zero e = cc
  drop_nil (x ∷ xs) (suc w) e = drop_nil xs w e

  drop_cons :
      (xs : List A) (w : ℕ) (y : A) (ys : List A)
      → drop w xs ≡ y ∷ ys
      → (get_elem? xs w ≡ some y) × (drop (w + 1) xs ≡ ys)
  drop_cons [] zero y ys e = cc
  drop_cons [] (suc w) y ys e = cc
  drop_cons (x ∷ xs) zero y ys e = (cc, cc)
  drop_cons (x ∷ xs) (suc w) y ys e =
      let next : suc w + 1 ≡ suc (w + 1) = omega arith in rw next (drop_cons xs w y ys e)

host-IsListing : IsListing host 2 entries
host-IsListing = record {
  read_end = λ w e. drop_nil files w e;
  read_entry = λ w e es is. drop_cons files w e es is;
}

within {ℓ} : {A : Type ℓ} (xs : List A) (w : ℕ) (y : A) → get_elem? xs w ≡ some y → w < length xs
within [] w y e = absurd cc
within (x ∷ xs) zero y e = omega arith
within (x ∷ xs) (suc w) y e = omega (arith, within xs w y e)

host-IsFinite : IsFinite host (λ w. 3 - w) 3
host-IsFinite = record {
  bound = λ w. omega arith;
  reads = λ w handle e is. omega (arith, within files w e is);
  unlinks = λ w h path. omega arith;
}

delete_files-ne-none_example : delete_files host share 9 9 state ≢ none
delete_files-ne-none_example =
    delete_files-ne-none host share (λ w. 3 - w) 3 host-IsFinite 9 9 state (omega arith)
      (omega arith)

find_next-Searched_example :
    (s' : Redir Host) × (find_next host share 9 state ≡ some s')
    × Searched entries search regs files no_more_files s'
find_next-Searched_example =
    find_next-Searched host share entries 9 state (omega arith) host-IsListing (omega arith)

find_first-Searched_example :
    (s' : Redir Host) × (find_first host share 9 state ≡ some s')
    × Searched entries (begun host share entries state 2) regs files file_not_found s'
find_first-Searched_example =
    find_first-Searched host share entries 9 state 2 0 (omega arith) refl refl (omega arith)
      host-IsListing (omega arith)

state-IsPlaced : IsPlaced state
state-IsPlaced = record {
  pos_within = omega arith;
  size_within = omega arith;
  count_within = omega arith;
}

read_file-Ended_example :
    Ended state (read_file host state) × (state.sft.size ≡ (read_file host state).sft.size)
read_file-Ended_example = read_file-Ended host state state-IsPlaced (λ w h count. omega arith)

write_file-Ended_example : Ended state (write_file host state)
write_file-Ended_example =
    write_file-Ended host state state-IsPlaced (λ w h count content. inr (omega arith))

redirector-IsTold_example :
    OutcomeIsTold (redirector host share 9 9 (record regs { ax = 0x1113 }) state)
redirector-IsTold_example = redirector-IsTold host share 9 9 (record regs { ax = 0x1113 }) state
