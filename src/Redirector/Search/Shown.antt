-- ===== src/Redirector/Search/Shown.antt =====
-- Which entries a search is after, apart from the tests of the code.
use fujinet_msdos.Base.{ℕ, ◌≡◌, ◌≢◌, inl, inr, true, false, not, ◌||◌, arith, ◌==◌, Bool-cases}
use fujinet_msdos.Redirector.Names.{fcbitize, match_to_mask}
use fujinet_msdos.Redirector.State.{Dirent, SrchRec, has_bits, attr_directory, attr_volume_label}
use fujinet_msdos.Redirector.Search.{is_masked, is_wanted}

-- The name fits the pattern, the search is not one for the volume label, and a directory is asked for
-- where the entry is one.
pub record IsShown (srchrec : SrchRec) (e : Dirent) : Type 0 where
  pub matches : match_to_mask srchrec.pattern (fcbitize e.name) ≡ true
  pub no_label : srchrec.attr_mask ≢ attr_volume_label
  pub directory : e.isdir ≡ true → has_bits srchrec.attr_mask attr_directory ≡ true

is_masked_file : (mask : ℕ) → is_masked mask 0 ≡ (mask == attr_volume_label)
unfolding is_masked
is_masked_file mask = ground arith

is_masked_directory :
    (mask : ℕ)
    → is_masked mask attr_directory
      ≡ ((mask == attr_volume_label) || not (has_bits mask attr_directory))
unfolding is_masked
is_masked_directory mask = ground arith

pub is_wanted-IsShown :
    (srchrec : SrchRec) (e : Dirent) → is_wanted srchrec e ≡ true → IsShown srchrec e
unfolding is_wanted
is_wanted-IsShown srchrec e h = elim (Bool-cases e.isdir) [
  | inl d ↦ record {
    matches = ground arith;
    no_label = ground (arith, is_masked_directory srchrec.attr_mask);
    directory = ground (arith, is_masked_directory srchrec.attr_mask);
  }
  | inr f ↦ record {
    matches = ground arith;
    no_label = ground (arith, is_masked_file srchrec.attr_mask);
    directory = λ d. cc;
  }
]

pub is_wanted_not-IsShown :
    (srchrec : SrchRec) (e : Dirent) → is_wanted srchrec e ≡ false → IsShown srchrec e → ⊥
unfolding is_wanted
is_wanted_not-IsShown srchrec e h v =
    let m = v.matches in
    let n = v.no_label in
    let k = v.directory in
    elim (Bool-cases e.isdir) [
      | inl d ↦ ground (arith, is_masked_directory srchrec.attr_mask, k d)
      | inr f ↦ ground (arith, is_masked_file srchrec.attr_mask)
    ]
