-- ===== src/Driver/Cache/Coherence.antt =====
-- What the cache holds against what is on the disk.
use fujinet_msdos.Base.{
  ℕ, zero, suc, ◌+◌, ◌≤◌, ◌≡◌, refl, true, ◌&&◌, Option, none, some, List, [], ◌∷◌, Bytes, arith,
  ◌==◌, if◌then◌else◌, set, take, inl, inr,
}
use fujinet_msdos.Driver.Cache.Shape.{cache_find-cons}
use fujinet_msdos.Driver.Cache.{
  Slot, Cache, sector_size, holds, cache_find, cached_sector, cache_store,
  cache_update_or_invalidate, revise_at,
}

-- The sectors of each unit.
abbrev pub Disk : Type 0
Disk = ℕ → ℕ → Bytes

-- The disk after a sector is written.
abbrev pub written : Disk → ℕ → ℕ → Bytes → Disk
written disk unit lba content =
    λ u l. if (u == unit) && (l == lba) then take sector_size content else disk u l

-- Every valid slot holds what is on the disk.
abbrev pub Coherent : Disk → List Slot → Type 0
Coherent disk [] = Unit {0}
Coherent disk (s ∷ ss) = (s.valid ≡ true → s.sector ≡ disk s.unit s.lba) × Coherent disk ss

-- How many slots hold the sector.
abbrev pub copies : ℕ → ℕ → List Slot → ℕ
copies unit lba [] = 0
copies unit lba (s ∷ ss) = (if holds unit lba s then 1 else 0) + copies unit lba ss

-- When every valid slot holds what is on the disk, the sector at the index that is found is the
-- one on the disk.
pub cache_find-Coherent :
    (disk : Disk) (unit lba : ℕ) (ss : List Slot) {i : ℕ}
    → Coherent disk ss
    → cache_find unit lba ss ≡ some i
    → cached_sector ss i ≡ disk unit lba
unfolding cached_sector
cache_find-Coherent disk unit lba [] h e = unfold cache_find in cc
cache_find-Coherent disk unit lba (s ∷ ss) {i} h e =
    elim (cache_find-cons unit lba s ss e) as (λ _. cached_sector (s ∷ ss) i ≡ disk unit lba) [
      | inl (hit, at) ↦ rw at (ground arith)
      | inr (j, _, found, at) ↦ rw at (cache_find-Coherent disk unit lba ss h.1 found)
    ]

set-Coherent :
    (disk : Disk) (ss : List Slot) (i : ℕ) (s : Slot)
    → Coherent disk ss
    → s.sector ≡ disk s.unit s.lba
    → Coherent disk (set ss i s)
set-Coherent disk [] i s h k = tt
set-Coherent disk (x ∷ ss) zero s h k = (λ _. k, h.1)
set-Coherent disk (x ∷ ss) (suc i) s h k = (h.0, set-Coherent disk ss i s h.1 k)

-- When every valid slot holds what is on the disk, storing a sector as it is on the disk keeps it
-- so.
pub cache_store-Coherent :
    (disk : Disk) (unit lba : ℕ) (content : Bytes) (c : Cache)
    → Coherent disk c.slots
    → take sector_size content ≡ disk unit lba
    → Coherent disk (cache_store unit lba content c).slots
unfolding cache_store
cache_store-Coherent disk unit lba content c h k = set-Coherent disk c.slots c.next _ h k

-- Without a copy in the cache, a write to the disk leaves it coherent.
absent-Coherent :
    (disk : Disk) (unit lba : ℕ) (content : Bytes) (ss : List Slot)
    → copies unit lba ss ≡ 0
    → Coherent disk ss
    → Coherent (written disk unit lba content) ss
absent-Coherent disk unit lba content [] n h = tt
absent-Coherent disk unit lba content (s ∷ ss) n h =
    (ground arith, absent-Coherent disk unit lba content ss (omega arith) h.1)

cache_find-none :
    (unit lba : ℕ) (ss : List Slot) → cache_find unit lba ss ≡ none → copies unit lba ss ≡ 0
unfolding cache_find
cache_find-none unit lba [] e = refl
cache_find-none unit lba (s ∷ ss) e = ground (arith, cache_find-none unit lba ss)

revise-Coherent :
    (disk : Disk) (unit lba : ℕ) (content : Bytes) (ss : List Slot) (i : ℕ)
    → copies unit lba ss ≤ 1
    → Coherent disk ss
    → cache_find unit lba ss ≡ some i
    → Coherent (written disk unit lba content) (revise_at ss i (some content))
unfolding revise_at
revise-Coherent disk unit lba content [] i n h e = tt
revise-Coherent disk unit lba content (s ∷ ss) i n h e =
    elim (cache_find-cons unit lba s ss e)
      as (λ _. Coherent (written disk unit lba content) (revise_at (s ∷ ss) i (some content))) [
        | inl (hit, at) ↦
            rw at (ground arith, absent-Coherent disk unit lba content ss (ground arith) h.1)
        | inr (j, miss, found, at) ↦
            rw at
              (ground arith, revise-Coherent disk unit lba content ss j (ground arith) h.1 found)
      ]

-- When every valid slot holds what is on the disk, and at most one slot holds the sector that is
-- written, then after the cache is updated with the new content every valid slot holds what is on
-- the disk after the write.
pub cache_update-Coherent :
    (disk : Disk) (unit lba : ℕ) (content : Bytes) (c : Cache)
    → copies unit lba c.slots ≤ 1
    → Coherent disk c.slots
    → Coherent
        (written disk unit lba content)
        (cache_update_or_invalidate unit lba (some content) c).slots
unfolding cache_update_or_invalidate
cache_update-Coherent disk unit lba content c n h = go (cache_find unit lba c.slots) refl
  where
    go :
        (r : Option ℕ)
        → cache_find unit lba c.slots ≡ r
        → Coherent
            (written disk unit lba content)
            (cache_update_or_invalidate unit lba (some content) c).slots
    go none e =
        rw (e, cache_update_or_invalidate)
          (absent-Coherent disk unit lba content c.slots (cache_find-none unit lba c.slots e) h)
    go (some i) e =
        rw (e, cache_update_or_invalidate) (revise-Coherent disk unit lba content c.slots i n h e)
