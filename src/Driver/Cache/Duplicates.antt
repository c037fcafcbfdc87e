-- ===== src/Driver/Cache/Duplicates.antt =====
-- Two slots can hold one sector, for `cache_store` does not look for it; the write path then updates the
-- first of them only.
use fujinet_msdos.Base.{
  ℕ, ◌<◌, ◌≡◌, ◌≢◌, refl, Option, none, some, List, [], ◌∷◌, Bytes, arith, take, Bool-cases, inl,
  inr,
}
use fujinet_msdos.Driver.Cache.{
  Slot, Cache, sector_size, holds, cache_find, cache_update_or_invalidate, revise_at,
}
use fujinet_msdos.Driver.Cache.Shape.{cache_find-cons}
use fujinet_msdos.Driver.Cache.Coherence.{Disk, written, Coherent, copies}

-- A copy of the sector that is not what the disk now holds refutes coherence.
stale-Incoherent :
    (disk : Disk) (unit lba : ℕ) (content : Bytes) (ss : List Slot)
    → Coherent disk ss
    → take sector_size content ≢ disk unit lba
    → 0 < copies unit lba ss
    → ¬ Coherent (written disk unit lba content) ss
stale-Incoherent disk unit lba content [] h ne n k = elim n [ ]
stale-Incoherent disk unit lba content (s ∷ ss) h ne n k = elim (Bool-cases (holds unit lba s)) [
  | inl hit ↦ ground arith
  | inr miss ↦ stale-Incoherent disk unit lba content ss h.1 ne (ground arith) k.1
]

revise-Incoherent :
    (disk : Disk) (unit lba : ℕ) (content : Bytes) (ss : List Slot) (i : ℕ)
    → Coherent disk ss
    → take sector_size content ≢ disk unit lba
    → 1 < copies unit lba ss
    → cache_find unit lba ss ≡ some i
    → ¬ Coherent (written disk unit lba content) (revise_at ss i (some content))
unfolding revise_at
revise-Incoherent disk unit lba content [] i h ne n e = elim n [ ]
revise-Incoherent disk unit lba content (s ∷ ss) i h ne n e =
    elim (cache_find-cons unit lba s ss e)
      as (λ _. ¬ Coherent (written disk unit lba content) (revise_at (s ∷ ss) i (some content))) [
        | inl (hit, at) ↦
            rw at (λ k. stale-Incoherent disk unit lba content ss h.1 ne (ground arith) k.1)
        | inr (j, miss, found, at) ↦
            rw at
              (λ k. revise-Incoherent disk unit lba content ss j h.1 ne (ground arith) found k.1)
      ]

-- When every valid slot holds what is on the disk, and two slots or more hold the sector that is
-- written with new content, then after the cache is updated some valid slot holds what is not on
-- the disk.
pub cache_update-Incoherent :
    (disk : Disk) (unit lba : ℕ) (content : Bytes) (c : Cache)
    → Coherent disk c.slots
    → take sector_size content ≢ disk unit lba
    → 1 < copies unit lba c.slots
    → ¬ Coherent
        (written disk unit lba content)
        (cache_update_or_invalidate unit lba (some content) c).slots
unfolding cache_update_or_invalidate
cache_update-Incoherent disk unit lba content c h ne n k = go (cache_find unit lba c.slots) refl
  where
    go : (r : Option ℕ) → cache_find unit lba c.slots ≡ r → ⊥
    go none e =
        stale-Incoherent disk unit lba content c.slots h ne (omega arith)
          (rw (e, cache_update_or_invalidate) at k)
    go (some i) e =
        revise-Incoherent disk unit lba content c.slots i h ne n e
          (rw (e, cache_update_or_invalidate) at k)
