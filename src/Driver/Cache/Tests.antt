-- ===== src/Driver/Cache/Tests.antt =====
-- The cache at concrete inputs.
use fujinet_msdos.Base.{ℕ, ◌≡◌, refl, true, false, some, [], ◌∷◌, arith, replicate}
use fujinet_msdos.Driver.Cache.{Slot, Cache, cache_find, cache_update_or_invalidate}
use fujinet_msdos.Driver.Cache.Coherence.{Disk, written, Coherent, cache_update-Coherent}

-- Every sector of unit `u` starts with its number.
abbrev disk : Disk
disk = λ u l. l ∷ u ∷ []

abbrev free : Slot
free = record { valid = false; unit = 0; lba = 0; sector = [] }

abbrev holding : ℕ → Slot
holding lba = record { valid = true; unit = 1; lba = lba; sector = lba ∷ 1 ∷ [] }

abbrev single : Cache
single = record { slots = holding 7 ∷ holding 8 ∷ free ∷ []; next = 2 }

-- Sector 7 was stored twice.
abbrev twice : Cache
twice = record { slots = holding 7 ∷ holding 8 ∷ holding 7 ∷ []; next = 0 }

single-Coherent : Coherent disk single.slots
single-Coherent = (λ _. refl, (λ _. refl, (λ e. cc, tt)))

twice-Coherent : Coherent disk twice.slots
twice-Coherent = (λ _. refl, (λ _. refl, (λ _. refl, tt)))

found : cache_find 1 8 single.slots ≡ some 1
unfolding cache_find
found = refl

cache_update-Coherent_example :
    Coherent
      (written disk 1 8 (5 ∷ []))
      (cache_update_or_invalidate 1 8 (some (5 ∷ [])) single).slots
cache_update-Coherent_example =
    cache_update-Coherent disk 1 8 (5 ∷ []) single (omega arith) single-Coherent

abbrev empty : Cache
empty = record { slots = replicate 56 free; next = 0 }
