-- ===== src/Driver/Input/Truth.antt =====
-- What the read-ahead buffer holds after the attempts at a request, when the peer is truthful.
use fujinet_msdos.Base.{
  ℕ, zero, suc, ◌+◌, ◌*◌, ◌≤◌, ◌<◌, ◌≡◌, refl, ◌∙◌, inl, inr, true, ◌&&◌, some, Bytes, u16, arith,
  ltb, leb, Bool-cases, length, take, drop,
}
use fujinet_msdos.Nio.Port.{Port}
use fujinet_msdos.Nio.Disk.{Nio, ReadDone, nio_disk_read_sectors}
use fujinet_msdos.Nio.Disk.Reads.{nio_disk_read_sectors_within}
use fujinet_msdos.Driver.Cache.{sector_size}
use fujinet_msdos.Driver.State.{Driver, unit_to_diskservice_slot}
use fujinet_msdos.Driver.State.Info.{unit_to_diskservice_slot_same}
use fujinet_msdos.Driver.Input.{
  ReadOutcome, read_ok, downshifted, gave_up, is_damage, downshift, read_attempts,
}

-- Sector number `k` of a block of sectors.
abbrev pub sector_at : ℕ → Bytes → Bytes
sector_at k block = take sector_size (drop (k * sector_size) block)

-- The sectors of each slot of the disk service.
abbrev pub Image : Type 0
Image = ℕ → ℕ → Bytes

-- What is relied on of the disk service at the other end of the port: a request for sectors that
-- succeeds in full brings the sectors of the image.
abbrev pub IsTruthful : {W : Type 0} → Port W → Image → Type 0
IsTruthful {W} port image =
    (slot lba count : ℕ) (buffer : Bytes) (n : Nio W) (r : ReadDone W)
    → count ≤ 16
    → count * sector_size ≤ length buffer
    → nio_disk_read_sectors port slot lba count buffer (u16 (count * sector_size)) 0 n ≡ some r
    → r.ok ≡ true
    → count * sector_size ≤ r.bytes_read
    → (k : ℕ) → k < count
    → sector_at k r.buffer ≡ image slot (lba + k)

-- The read-ahead buffer has room for 16 sectors.
abbrev pub readahead_size : ℕ
readahead_size = 8192

-- The sectors asked for are in the buffer, where the attempts succeeded.
pub record Fetched {W : Type 0} (image : Image) (slot sector fetch : ℕ) (o : ReadOutcome)
    (d d' : Driver W) : Type 0 where
  pub size_is : length d'.readahead_data ≡ readahead_size
  pub slots_are : d'.unit_slot ≡ d.unit_slot
  pub cache_is : d'.cache ≡ d.cache
  pub sectors_are :
      o ≡ read_ok → (k : ℕ) → k < fetch → sector_at k d'.readahead_data ≡ image slot (sector + k)

module _ {W : Type 0} (port : Port W) (image : Image) (truthful : IsTruthful port image) where
  abbrev pub FetchEnd : ℕ → ℕ → ℕ → ℕ → ℕ → Driver W → Type 0
  FetchEnd n unit sector fetch slot d =
      (o : ReadOutcome) × (d' : Driver W) × (read_attempts port n unit sector fetch d
        ≡ some (o, d'))
      × Fetched image slot sector fetch o d d'

  -- Attempts before these do not matter, for they keep the size of the buffer and the unit map.
  earlier_attempt :
      {slot sector fetch : ℕ} {o : ReadOutcome} {d d' : Driver W} (n : Nio W) (content : Bytes)
      → Fetched image slot sector fetch o (record d { nio = n; readahead_data = content }) d'
      → Fetched image slot sector fetch o d d'
  earlier_attempt n content f = record {
    size_is = f.size_is;
    slots_are = f.slots_are;
    cache_is = f.cache_is;
    sectors_are = f.sectors_are;
  }

  pub read_attempts-Fetched :
      (n unit sector fetch slot : ℕ) (d : Driver W)
      → fetch ≤ 16
      → length d.readahead_data ≡ readahead_size
      → unit_to_diskservice_slot d unit ≡ slot
      → FetchEnd n unit sector fetch slot d
  unfolding read_attempts downshift
  read_attempts-Fetched zero unit sector fetch slot d small size at = (
    gave_up,
    d,
    refl,
    record { size_is = size; slots_are = refl; cache_is = refl; sectors_are = λ e. cc },
  )
  read_attempts-Fetched (suc n) unit sector fetch slot d small size at =
      let (r, e, w) =
        nio_disk_read_sectors_within port (unit_to_diskservice_slot d unit) sector fetch
          d.readahead_data (u16 (fetch * sector_size)) 0 d.nio (omega arith) in
      go (read_attempts-Fetched n unit sector fetch slot) r e (w.size_is ∙ size)
    where
      go :
          ((d1 : Driver W)
            → fetch ≤ 16
            → length d1.readahead_data ≡ readahead_size
            → unit_to_diskservice_slot d1 unit ≡ slot
            → FetchEnd n unit sector fetch slot d1)
          → (r : ReadDone W)
          → nio_disk_read_sectors port
              (unit_to_diskservice_slot d unit)
              sector
              fetch
              d.readahead_data
              (u16 (fetch * sector_size))
              0
              d.nio
            ≡ some r
          → length r.buffer ≡ readahead_size
          → FetchEnd (suc n) unit sector fetch slot d
      go rest r e full =
          let d1 : Driver W = record d { nio = r.nio; readahead_data = r.buffer } in
          elim (Bool-cases (r.ok && leb (u16 (fetch * sector_size)) r.bytes_read)) [
            | inl good ↦ (
              read_ok,
              d1,
              rw (read_attempts, e, good),
              record {
                size_is = full;
                slots_are = refl;
                cache_is = refl;
                sectors_are = λ x k lt.
                    truthful slot sector fetch d.readahead_data d.nio r small (omega arith)
                      (rw at at e) (ground arith) (ground arith) k lt;
              },
            )
            | inr bad ↦
                elim (Bool-cases (d.auto_downshift && ltb 1 fetch && is_damage r.nio.last.error)) [
                  | inl good ↦ (
                    downshifted,
                    downshift fetch d1,
                    rw (read_attempts, e, bad, good),
                    record {
                      size_is = full;
                      slots_are = refl;
                      cache_is = refl;
                      sectors_are = λ x. cc;
                    },
                  )
                  | inr hard ↦
                      let (o, d', e', f) =
                        rest d1 small full (unit_to_diskservice_slot_same d d1 unit refl ∙ at) in
                      (
                        o,
                        d',
                        rw (read_attempts, e, bad, hard, e'),
                        earlier_attempt r.nio r.buffer f,
                      )
                ]
          ]
