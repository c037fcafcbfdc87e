-- ===== src/Driver/Cache.antt =====
-- The sector cache of sys/commands_nio.c: a ring of 56 slots, searched from slot 0. The four parallel
-- arrays of the source are one list of slots here.
pub mod Shape
pub mod Coherence
pub mod Duplicates
mod Tests
use fujinet_msdos.Base.{
  ℕ, suc, ◌+◌, ◌%◌, Bool, true, false, ◌&&◌, Option, none, some, List, [], ◌∷◌, Bytes, u8, ◌==◌,
  if◌then◌else◌, set, take, map,
}

abbrev pub sector_size : ℕ
sector_size = 512

abbrev pub cache_sectors : ℕ
cache_sectors = 56

-- One index of cache_valid, cache_unit, cache_lba and cache_data.
pub record Slot : Type 0 where
  pub valid : Bool
  pub unit : ℕ
  pub lba : ℕ
  pub sector : Bytes

pub record Cache : Type 0 where
  pub slots : List Slot
  pub next : ℕ

-- The slot holds the sector.
abbrev pub holds : ℕ → ℕ → Slot → Bool
holds unit lba s = s.valid && (s.unit == unit) && (s.lba == lba)

-- The first slot that holds the sector; `none` for the source's -1.
pub cache_find : ℕ → ℕ → List Slot → Option ℕ
cache_find unit lba [] = none
cache_find unit lba (s ∷ ss) =
    let later : Option ℕ = elim (cache_find unit lba ss) [ none ↦ none | some i ↦ some (suc i) ] in
    if holds unit lba s then some 0 else later

-- `cache_data[i]`.
pub cached_sector : List Slot → ℕ → Bytes
cached_sector [] i = []
cached_sector (s ∷ ss) ℕ.zero = s.sector
cached_sector (s ∷ ss) (ℕ.suc i) = cached_sector ss i

pub cache_store : ℕ → ℕ → Bytes → Cache → Cache
cache_store unit lba content c = record {
  slots =
      set c.slots c.next
        (record { valid = true; unit = unit; lba = lba; sector = take sector_size content });
  next = u8 ((c.next + 1) % cache_sectors);
}

abbrev pub revise : Option Bytes → Slot → Slot
revise none s = record s { valid = false }
revise (some content) s = record s { sector = take sector_size content }

pub revise_at : List Slot → ℕ → Option Bytes → List Slot
revise_at [] i content = []
revise_at (s ∷ ss) ℕ.zero content = revise content s ∷ ss
revise_at (s ∷ ss) (ℕ.suc i) content = s ∷ revise_at ss i content

-- The slot that `cache_find` names is overwritten, or given up where there is no data.
pub cache_update_or_invalidate : ℕ → ℕ → Option Bytes → Cache → Cache
cache_update_or_invalidate unit lba content c = elim (cache_find unit lba c.slots) [
  | none ↦ c
  | some idx ↦ record c { slots = revise_at c.slots idx content }
]

-- The loop of `cache_invalidate_unit`.
pub invalidate_slots : ℕ → List Slot → List Slot
invalidate_slots unit [] = []
invalidate_slots unit (s ∷ ss) =
    (if s.valid && s.unit == unit then record s { valid = false } else s) ∷ invalidate_slots unit ss
