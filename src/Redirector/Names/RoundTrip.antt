-- ===== src/Redirector/Names/RoundTrip.antt =====
-- Names that fit the 8.3 form, to the area of DOS and back.
use mathlib.Core.List.{append_assoc, append-nil}
use fujinet_msdos.Base.{
  ◌≤◌, ◌≡◌, refl, ap, sym, ◌∙◌, false, [], ◌∷◌, ◌++◌, Bytes, arith, length, take, drop, blit,
  replicate, ◌==◌, get_or,
}
use fujinet_msdos.Redirector.Names.{
  no_name, fcbitize, name_of_fcb, directory_of, fcb_to_path, fcbname_loop, get_fcbname_from_path,
}
use fujinet_msdos.Redirector.Names.Areas.{
  Without, split_last-append, split_first-blit, take_short, take-blit_behind, take-blit, drop-blit,
  drop-blit_before, fcbitize_short, fcbitize_plain, blit_nothing, fcbname_loop-append,
}

-- A name in 8.3 form: a base of 1 to 8 characters and an extension of at most 3, with neither dots
-- nor spaces.
pub record Is83 (base ext : Bytes) : Type 0 where
  pub base_is : Without b' ' base
  pub base_dotless : Without b'.' base
  pub base_pos : 1 ≤ length base
  pub base_within : length base ≤ 8
  pub ext_is : Without b' ' ext
  pub ext_dotless : Without b'.' ext
  pub ext_within : length ext ≤ 3

first_char :
    (base ext : Bytes)
    → 1 ≤ length base
    → Without b' ' base
    → (get_or (blit (blit no_name 0 base) 8 ext) 0 0 == b' ') ≡ false
first_char [] ext pos h = absurd (omega arith)
first_char (x ∷ xs) ext pos (ne, h) = ground arith

-- The two halves of the area.
base_half :
    (base ext : Bytes)
    → length base ≤ 8
    → take 8 (blit (blit no_name 0 base) 8 ext) ≡ blit (replicate 8 b' ') 0 base
base_half base ext h =
    take-blit_behind 8 (blit no_name 0 base) ext
    ∙ take-blit 8 no_name base
    ∙ ap (λ s. blit (replicate 8 b' ') 0 s) (take_short 8 base h)

ext_half :
    (base ext : Bytes)
    → length base ≤ 8
    → length ext ≤ 3
    → take 3 (drop 8 (blit (blit no_name 0 base) 8 ext)) ≡ blit (replicate 3 b' ') 0 ext
ext_half base ext h k =
    ap (take 3) (
      drop-blit 8 (blit no_name 0 base) ext
      ∙ ap (λ s. blit s 0 ext) (drop-blit_before 8 no_name base h))
    ∙ take-blit 3 (replicate 3 b' ') ext
    ∙ ap (λ s. blit (replicate 3 b' ') 0 s) (take_short 3 ext k)

-- The name that is read from the area of a name.
name_of_fcb-blit :
    (base ext : Bytes)
    → Is83 base ext
    → name_of_fcb (blit (blit no_name 0 base) 8 ext) ≡ base ++ b'.' ∷ ext
unfolding name_of_fcb
name_of_fcb-blit base ext v =
    rw
      (
        name_of_fcb,
        first_char base ext v.base_pos v.base_is,
        base_half base ext v.base_within,
        ext_half base ext v.base_within v.ext_within,
        split_first-blit 8 base v.base_is v.base_within,
        split_first-blit 3 ext v.ext_is v.ext_within,
      )
      refl

-- In the directory of a path whose last part has no backslash.
fcb_to_path-blit :
    (directory old base ext : Bytes)
    → Without b'\\' old
    → Is83 base ext
    → fcb_to_path (directory ++ b'\\' ∷ old) (blit (blit no_name 0 base) 8 ext)
      ≡ directory ++ b'\\' ∷ (base ++ b'.' ∷ ext)
unfolding fcb_to_path directory_of
fcb_to_path-blit directory old base ext no_dir v =
    rw
      (
        fcb_to_path,
        directory_of,
        split_last-append b'\\' directory old no_dir,
        name_of_fcb-blit base ext v,
      )
      (append_assoc directory (b'\\' ∷ []) (base ++ b'.' ∷ ext))

no_extension : (base ext : Bytes) → Is83 base ext → Is83 base []
no_extension base ext v = record {
  base_is = v.base_is;
  base_dotless = v.base_dotless;
  base_pos = v.base_pos;
  base_within = v.base_within;
  ext_is = tt;
  ext_dotless = tt;
  ext_within = omega arith;
}

-- For a base of 1 to 8 characters and an extension of at most 3, neither with spaces or dots, put
-- into the area of DOS and back into a path whose last part has no backslash: the base with a dot
-- and the extension stands in the directory of that path as it was, and the base alone, without a
-- dot, comes back with a dot behind it.
pub fcb_to_path-fcbitize :
    (directory old base ext : Bytes)
    → Without b'\\' old
    → Is83 base ext
    → (fcb_to_path (directory ++ b'\\' ∷ old) (fcbitize (base ++ b'.' ∷ ext))
        ≡ directory ++ b'\\' ∷ (base ++ b'.' ∷ ext))
      × (fcb_to_path (directory ++ b'\\' ∷ old) (fcbitize base)
          ≡ directory ++ b'\\' ∷ (base ++ b'.' ∷ []))
fcb_to_path-fcbitize directory old base ext no_dir v = (
  rw (fcbitize_short base ext v.base_dotless v.base_within v.ext_within)
      (fcb_to_path-blit directory old base ext no_dir v),
  rw (fcbitize_plain base v.base_dotless v.base_within)
      (fcb_to_path-blit directory old base [] no_dir (no_extension base ext v)),
)

-- For a base of 1 to 8 characters and an extension of at most 3, neither with spaces or dots, the
-- redirector's two routines fill the area of DOS alike, with the base, a dot and the extension,
-- and with the base alone.
pub get_fcbname_from_path-fcbitize :
    (base ext : Bytes)
    → Is83 base ext
    → (get_fcbname_from_path (base ++ b'.' ∷ ext) ≡ fcbitize (base ++ b'.' ∷ ext))
      × (get_fcbname_from_path base ≡ fcbitize base)
unfolding get_fcbname_from_path fcbname_loop
get_fcbname_from_path-fcbitize base ext v =
    let plain = fcbname_loop-append base (b'.' ∷ ext) 0 no_name v.base_dotless in
    let behind = fcbname_loop-append ext [] 8 (blit no_name 0 base) v.ext_dotless in
    let alone = fcbname_loop-append base [] 0 no_name v.base_dotless in
    (
      plain
          ∙ ap (λ s. fcbname_loop s 8 (blit no_name 0 base)) (sym (append-nil ext))
          ∙ behind
          ∙ sym (fcbitize_short base ext v.base_dotless v.base_within v.ext_within),
      ap (λ s. fcbname_loop s 0 no_name) (sym (append-nil base))
          ∙ alone
          ∙ sym (blit_nothing (blit no_name 0 base) 8)
          ∙ sym (fcbitize_plain base v.base_dotless v.base_within),
    )
