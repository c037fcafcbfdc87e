-- ===== src/Driver/State/Info.antt =====
-- `disk_info_cached` of sys/commands_nio.c returns.
use fujinet_msdos.Base.{
  ℕ, ◌≡◌, refl, inl, inr, false, Option, none, some, [], leb, get_or, set, Bool-cases,
}
use fujinet_msdos.Nio.Port.{Port}
use fujinet_msdos.Nio.Disk.{DiskInfo, Nio, nio_disk_info}
use fujinet_msdos.Nio.Disk.Total.{nio_disk-ne-none}
use fujinet_msdos.Driver.State.{Driver, max_units, unit_to_diskservice_slot, disk_info_cached}

-- The info is had or not; all else of the driver stays as it was.
pub disk_info_cached_returns :
    {W : Type 0} (port : Port W) (unit : ℕ) (d : Driver W)
    → (found : Option DiskInfo) × (d' : Driver W) × (disk_info_cached port unit d
        ≡ some (found, d'))
      × (d' ≡ record d { nio = d'.nio; info_cache = d'.info_cache })
unfolding disk_info_cached
disk_info_cached_returns {W} port unit d = elim (Bool-cases (leb max_units unit)) [
  | inl beyond ↦ (none, d, rw (disk_info_cached, beyond) refl, refl)
  | inr known ↦
      go known (get_or d.info_cache unit none) refl
        (nio_disk_info port (unit_to_diskservice_slot d unit) d.nio) refl
]
  where
    go :
        leb max_units unit ≡ false
        → (held : Option DiskInfo) → get_or d.info_cache unit none ≡ held
        → (r : Option (Option DiskInfo × Nio W))
        → nio_disk_info port (unit_to_diskservice_slot d unit) d.nio ≡ r
        → (found : Option DiskInfo) × (d' : Driver W) × (disk_info_cached port unit d
            ≡ some (found, d'))
          × (d' ≡ record d { nio = d'.nio; info_cache = d'.info_cache })
    go known (some info) h r e = (some info, d, rw (disk_info_cached, known, h) refl, refl)
    go known none h none e =
        absurd ((nio_disk-ne-none port (unit_to_diskservice_slot d unit) 0 0 0 0 [] d.nio).0 e)
    go known none h (some (none, n)) e =
        (none, record d { nio = n }, rw (disk_info_cached, known, h, e) refl, refl)
    go known none h (some (some info, n)) e = (
      some info,
      record d { nio = n; info_cache = set d.info_cache unit (some info) },
      rw (disk_info_cached, known, h, e) refl,
      refl,
    )

-- A unit's slot depends on the unit map alone.
pub unit_to_diskservice_slot_same :
    {W : Type 0} (d d' : Driver W) (unit : ℕ)
    → d'.unit_slot ≡ d.unit_slot
    → unit_to_diskservice_slot d' unit ≡ unit_to_diskservice_slot d unit
unfolding unit_to_diskservice_slot
unit_to_diskservice_slot_same d d' unit e = rw e refl
