-- ===== src/Driver/Cache/Shape.antt =====
-- The ring of slots keeps its size and its place, and where a sector is found in it.
use fujinet_msdos.Base.{
  ℕ, suc, ◌<◌, ◌≡◌, refl, ap, ◌∙◌, Option, none, some, List, [], ◌∷◌, Bytes, arith, Bool-cases, ◌⊎◌,
  inl, inr, true, false, length, length-set,
}
use fujinet_msdos.Driver.Cache.{
  Slot, Cache, cache_sectors, holds, cache_find, cache_store, cache_update_or_invalidate, revise_at,
  invalidate_slots,
}

pub record IsCache (c : Cache) : Type 0 where
  pub size_is : length c.slots ≡ cache_sectors
  pub next_within : c.next < cache_sectors

length-revise_at :
    (ss : List Slot) (i : ℕ) (content : Option Bytes) → length (revise_at ss i content) ≡ length ss
unfolding revise_at
length-revise_at [] i content = refl
length-revise_at (s ∷ ss) ℕ.zero content = refl
length-revise_at (s ∷ ss) (suc i) content = ap suc (length-revise_at ss i content)

length-invalidate_slots :
    (unit : ℕ) (ss : List Slot) → length (invalidate_slots unit ss) ≡ length ss
unfolding invalidate_slots
length-invalidate_slots unit [] = refl
length-invalidate_slots unit (s ∷ ss) = ap suc (length-invalidate_slots unit ss)

-- A hit is at the first slot, or behind it.
pub cache_find-cons :
    (unit lba : ℕ) (s : Slot) (ss : List Slot) {i : ℕ}
    → cache_find unit lba (s ∷ ss) ≡ some i
    → ((holds unit lba s ≡ true) × (i ≡ 0))
      ⊎ ((j : ℕ) × (holds unit lba s ≡ false) × (cache_find unit lba ss ≡ some j) × (i ≡ suc j))
unfolding cache_find
cache_find-cons unit lba s ss {i} e = go (cache_find unit lba ss) refl
  where
    go :
        (r : Option ℕ)
        → cache_find unit lba ss ≡ r
        → ((holds unit lba s ≡ true) × (i ≡ 0))
          ⊎ ((j : ℕ) × (holds unit lba s ≡ false) × (cache_find unit lba ss ≡ some j) × (i ≡ suc j))
    go none h = inl (ground arith)
    go (some j) h = elim (Bool-cases (holds unit lba s)) [
      | inl here ↦ inl (ground arith)
      | inr later ↦ inr (j, later, h, ground arith)
    ]

cache_find-lt :
    (unit lba : ℕ) (ss : List Slot) {i : ℕ} → cache_find unit lba ss ≡ some i → i < length ss
cache_find-lt unit lba [] e = unfold cache_find in cc
cache_find-lt unit lba (s ∷ ss) {i} e =
    elim (cache_find-cons unit lba s ss e) as (λ _. i < length (s ∷ ss)) [
      | inl (_, at) ↦ omega arith
      | inr (j, _, h, at) ↦ omega (arith, cache_find-lt unit lba ss h)
    ]

-- After an invalidation no sector of the unit is found.
pub cache_find-invalidate_slots :
    (unit lba : ℕ) (ss : List Slot) → cache_find unit lba (invalidate_slots unit ss) ≡ none
unfolding cache_find invalidate_slots
cache_find-invalidate_slots unit lba [] = refl
cache_find-invalidate_slots unit lba (s ∷ ss) =
    let rest = cache_find-invalidate_slots unit lba ss in ground arith

-- When the cache has 56 slots and its place for the next sector is among them, both still hold
-- after a store, an update and an invalidation.
pub Cache-IsCache :
    (unit lba : ℕ) (content : Bytes) (update : Option Bytes) {c : Cache}
    → IsCache c
    → IsCache (cache_store unit lba content c)
      × IsCache (cache_update_or_invalidate unit lba update c)
      × IsCache (record c { slots = invalidate_slots unit c.slots })
unfolding cache_store cache_update_or_invalidate
Cache-IsCache unit lba content update {c} v = (
  record { size_is = length-set c.slots c.next _ ∙ v.size_is; next_within = omega arith },
  grind (arith, length-revise_at),
  record {
    size_is = length-invalidate_slots unit c.slots ∙ v.size_is;
    next_within = v.next_within;
  },
)
