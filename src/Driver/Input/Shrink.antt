-- ===== src/Driver/Input/Shrink.antt =====
-- The attempts at one request of `Input_cmd`, and what a downshift does to the sizes.
use fujinet_msdos.Base.{
  ℕ, zero, suc, ◌+◌, ◌*◌, ◌≤◌, ◌<◌, ◌≡◌, ◌≢◌, refl, ◌⊎◌, inl, inr, ◌&&◌, some, Bytes, u16, arith,
  ltb, leb, Bool-cases,
}
use fujinet_msdos.Nio.Port.{Port}
use fujinet_msdos.Nio.Disk.{Nio, ReadDone, nio_disk_read_sectors}
use fujinet_msdos.Nio.Disk.Reads.{nio_disk_read_sectors_within}
use fujinet_msdos.Driver.Cache.{sector_size}
use fujinet_msdos.Driver.State.{Driver, unit_to_diskservice_slot}
use fujinet_msdos.Driver.Input.{
  ReadOutcome, read_ok, downshifted, gave_up, is_damage, downshift, read_attempts,
}

-- The sizes of requests are at least 1, and a single-sector request fits them.
pub record HasSizes {W : Type 0} (d : Driver W) : Type 0 where
  pub batch_pos : 1 ≤ d.batch_sectors
  pub readahead_pos : 1 ≤ d.readahead_sectors
  pub batch_within : d.batch_sectors ≤ 16
  pub readahead_within : d.readahead_sectors ≤ 16

-- A downshift after a request of several sectors keeps both sizes positive, raises neither, and lowers
-- one of them.
pub downshift_lem :
    {W : Type 0} (fetch : ℕ) (d : Driver W)
    → HasSizes d
    → 1 < fetch
    → (fetch ≤ d.batch_sectors) ⊎ (fetch ≤ d.readahead_sectors)
    → HasSizes (downshift fetch d)
      × ((downshift fetch d).batch_sectors + (downshift fetch d).readahead_sectors
          < d.batch_sectors + d.readahead_sectors)
unfolding downshift
downshift_lem fetch d v h k = ground arith

-- What the attempts leave: all but the transport as it was, and after a downshift, which takes a
-- request of several sectors, the smaller sizes.
pub data Attempted {W : Type 0} (fetch : ℕ) (d : Driver W) : ReadOutcome → Driver W → Type 0 where
  ended :
      (o : ReadOutcome) (d' : Driver W)
      → d' ≡ record d { nio = d'.nio; readahead_data = d'.readahead_data }
      → o ≢ downshifted
      → Attempted fetch d o d'
  shrunk :
      (d' : Driver W)
      → d' ≡ record (downshift fetch d) { nio = d'.nio; readahead_data = d'.readahead_data }
      → 1 < fetch
      → Attempted fetch d downshifted d'

-- An attempt before these changes the transport only.
Attempted-again :
    {W : Type 0} {fetch : ℕ} {d : Driver W} {o : ReadOutcome} {d' : Driver W} (n : Nio W)
    (content : Bytes)
    → Attempted fetch (record d { nio = n; readahead_data = content }) o d'
    → Attempted fetch d o d'
unfolding downshift
Attempted-again n content (ended o d' e ne) = ended o d' e ne
Attempted-again n content (shrunk d' e h) = shrunk d' e h

module _ {W : Type 0} (port : Port W) where
  abbrev pub AttemptsEnd : ℕ → ℕ → ℕ → ℕ → Driver W → Type 0
  AttemptsEnd n unit sector fetch d =
      (o : ReadOutcome) × (d' : Driver W) × (read_attempts port n unit sector fetch d
        ≡ some (o, d'))
      × Attempted fetch d o d'

  -- The attempts at a request return.
  pub read_attempts_return :
      (n unit sector fetch : ℕ) (d : Driver W) → AttemptsEnd n unit sector fetch d
  unfolding read_attempts downshift
  read_attempts_return zero unit sector fetch d = (gave_up, d, refl, ended gave_up d refl (λ e. cc))
  read_attempts_return (suc n) unit sector fetch d =
      let (r, e, w) =
        nio_disk_read_sectors_within port (unit_to_diskservice_slot d unit) sector fetch
          d.readahead_data (u16 (fetch * sector_size)) 0 d.nio (omega arith) in
      go (read_attempts_return n unit sector fetch) r e
    where
      go :
          ((d1 : Driver W) → AttemptsEnd n unit sector fetch d1)
          → (r : ReadDone W)
          → nio_disk_read_sectors port
              (unit_to_diskservice_slot d unit)
              sector
              fetch
              d.readahead_data
              (u16 (fetch * sector_size))
              0
              d.nio
            ≡ some r
          → AttemptsEnd (suc n) unit sector fetch d
      go rest r e =
          let d1 : Driver W = record d { nio = r.nio; readahead_data = r.buffer } in
          elim (Bool-cases (r.ok && leb (u16 (fetch * sector_size)) r.bytes_read)) [
            | inl good ↦ (read_ok, d1, rw (read_attempts, e, good), ended read_ok d1 refl (λ x. cc))
            | inr bad ↦
                elim (Bool-cases (d.auto_downshift && ltb 1 fetch && is_damage r.nio.last.error)) [
                  | inl good ↦ (
                    downshifted,
                    downshift fetch d1,
                    rw (read_attempts, e, bad, good),
                    shrunk (downshift fetch d1) refl (ground arith),
                  )
                  | inr hard ↦
                      let (o, d', e', a) = rest d1 in
                      (
                        o,
                        d',
                        rw (read_attempts, e, bad, hard, e'),
                        Attempted-again r.nio r.buffer a,
                      )
                ]
          ]
