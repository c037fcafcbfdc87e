-- ===== src/Driver/Ioctl/Mapping.antt =====
-- What a change of a unit's slot does to the driver.
use fujinet_msdos.Base.{
  ℕ, ◌≤◌, ◌<◌, ◌≡◌, true, false, some, none, ◌∙◌, arith, length, length-set, set, get_or,
  get_or-set,
}
use fujinet_msdos.Nio.Port.{Port}
use fujinet_msdos.Driver.Cache.{cache_find}
use fujinet_msdos.Driver.Cache.Shape.{cache_find-invalidate_slots}
use fujinet_msdos.Driver.State.{
  Driver, SysReq, Reply, max_units, unit_to_slot, cache_invalidate_unit,
}
use fujinet_msdos.Driver.Media.{media_check_cmd}
use fujinet_msdos.Driver.Media.Changed.{ToldChanged, media_check_cmd-ToldChanged}
use fujinet_msdos.Driver.Ioctl.{off_unit, off_slot, unit_map_size, ioctl_set_unit_map_case}

-- A driver whose unit has the slot and whose cache holds no sector of the unit. The next media check of
-- the unit reports a changed medium.
pub record Remapped {W : Type 0} (port : Port W) (unit slot : ℕ) (d : Driver W) : Type 0 where
  pub slot_is : unit_to_slot d unit ≡ slot
  pub forgotten : (lba : ℕ) → cache_find unit lba d.cache.slots ≡ none
  pub told :
      (check : SysReq)
      → check.unit ≡ unit
      → (r : Reply W) × (media_check_cmd port check d ≡ some r) × ToldChanged check d r

-- SET_UNIT_MAP with a long enough block, and a unit and a slot below 8, on a driver with 8 units:
-- the unit has the slot, the cache finds no sector of the unit, and a media check of it reports a
-- changed medium, clears the flag and sends nothing.
pub ioctl_set_unit_map_case-Remapped :
    {W : Type 0} (port : Port W) (req : SysReq) (d : Driver W)
    → unit_map_size ≤ req.count
    → get_or req.buffer off_unit 0 < max_units
    → get_or req.buffer off_slot 0 < max_units
    → length d.unit_slot ≡ max_units
    → length d.media_changed ≡ max_units
    → Remapped port
        (get_or req.buffer off_unit 0)
        (get_or req.buffer off_slot 0)
        (ioctl_set_unit_map_case req d).driver
unfolding ioctl_set_unit_map_case cache_invalidate_unit unit_to_slot
ioctl_set_unit_map_case-Remapped {W} port req d size hu hs lu lm = rw at after
  where
    unit : ℕ
    unit = get_or req.buffer off_unit 0

    d' : Driver W
    d' = record (cache_invalidate_unit unit d) {
      unit_slot = set d.unit_slot unit (get_or req.buffer off_slot 0);
      media_changed = set d.media_changed unit true;
    }

    at : (ioctl_set_unit_map_case req d).driver ≡ d'
    at = ground arith

    flagged : get_or d'.media_changed unit false ≡ true
    flagged = get_or-set d.media_changed unit true false (omega arith)

    after : Remapped port unit (get_or req.buffer off_slot 0) d'
    after = record {
      slot_is =
          ground
            (arith, get_or-set d.unit_slot unit (get_or req.buffer off_slot 0) 0 (omega arith));
      forgotten = λ lba. cache_find-invalidate_slots unit lba d.cache.slots;
      told = λ check e.
          media_check_cmd-ToldChanged port check d' (omega arith)
            (length-set d.media_changed unit true ∙ lm) (rw e flagged);
    }
