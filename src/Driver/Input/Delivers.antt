-- ===== src/Driver/Input/Delivers.antt =====
-- A read delivers the sectors of the disk, from the cache or from a truthful peer.
use fujinet_msdos.Base.{
  ℕ, zero, suc, ◌+◌, ◌-◌, ◌*◌, ◌≤◌, ◌<◌, ◌≡◌, refl, sym, ap, ◌∙◌, inl, inr, true, false, Option,
  none, some, Bytes, u16, u32, arith, length, length-take, ltb, leb, Bool-cases, take, drop, blit,
  take_all, take-drop-blit_before, take-drop-blit_within, take-drop-take,
}
use fujinet_msdos.Nio.Port.{Port}
use fujinet_msdos.Driver.Cache.{Cache, sector_size, cache_find, cached_sector}
use fujinet_msdos.Driver.Cache.Coherence.{Disk, Coherent, cache_find-Coherent, cache_store-Coherent}
use fujinet_msdos.Driver.State.{Driver, unit_to_diskservice_slot}
use fujinet_msdos.Driver.State.Info.{unit_to_diskservice_slot_same}
use fujinet_msdos.Driver.Input.{
  ReadOutcome, read_ok, downshifted, gave_up, fill_cache, Progress, Turn, more, stop, finished,
  missing, batch_size, fetch_size, take_cached, take_read, settle, read_turn,
}
use fujinet_msdos.Driver.Input.Total.{IsGoing}
use fujinet_msdos.Driver.Input.Truth.{
  sector_at, Image, IsTruthful, readahead_size, Fetched, read_attempts-Fetched,
}

-- Each sector has its full size.
abbrev pub IsSectored : Disk → Type 0
IsSectored disk = (unit lba : ℕ) → length (disk unit lba) ≡ sector_size

-- What is true of the loop besides `IsGoing`: the cache is coherent, and the sectors that are done are in
-- the buffer.
pub record IsTrue {W : Type 0} (disk : Disk) (unit slot first : ℕ) (p : Progress W) : Type 0 where
  pub coherent : Coherent disk p.driver.cache.slots
  pub readahead_is : length p.driver.readahead_data ≡ readahead_size
  pub slot_is : unit_to_diskservice_slot p.driver unit ≡ slot
  pub delivered : (j : ℕ) → j < p.done → sector_at j p.buffer ≡ disk unit (first + j)

-- Storing the sectors of a block that is as the disk keeps the cache coherent.
fill_cache-Coherent :
    (disk : Disk) (n fill unit sector : ℕ) (content : Bytes) (c : Cache)
    → sector + (fill + n) ≤ 4294967296
    → ((k : ℕ) → k < fill + n → sector_at k content ≡ disk unit (sector + k))
    → Coherent disk c.slots
    → Coherent disk (fill_cache n fill unit sector content c).slots
unfolding fill_cache
fill_cache-Coherent disk zero fill unit sector content c fits rows h = h
fill_cache-Coherent disk (suc n) fill unit sector content c fits rows h =
    let same : u32 (sector + fill) ≡ sector + fill = omega arith in
    fill_cache-Coherent disk n (fill + 1) unit sector content _ (omega arith)
      (λ k lt. rows k (omega arith))
      (cache_store-Coherent disk unit (u32 (sector + fill)) _ c h (
        rw same (
          take-drop-take sector_size (drop (fill * sector_size) content) 0 sector_size (omega arith)
          ∙ rows fill (omega arith))))

abbrev pub TurnIsTrue : {W : Type 0} → Disk → ℕ → ℕ → ℕ → Turn W → Type 0
TurnIsTrue disk unit slot first (more p) = IsTrue disk unit slot first p
TurnIsTrue disk unit slot first (stop e p) = IsTrue disk unit slot first p

-- Attempts that brought no sectors change the transport and the sizes only.
kept :
    {W : Type 0} {disk : Disk} {image : Image} {unit slot first sector fetch : ℕ} {o : ReadOutcome}
    (p : Progress W) (d : Driver W)
    → IsTrue disk unit slot first p
    → Fetched image slot sector fetch o p.driver d
    → IsTrue disk unit slot first (record p { driver = d })
kept {disk = disk} {unit = unit} p d v f = record {
  coherent = rw f.cache_is v.coherent;
  readahead_is = f.size_is;
  slot_is = unit_to_diskservice_slot_same p.driver d unit f.slots_are ∙ v.slot_is;
  delivered = v.delivered;
}

-- Sectors copied behind those that are in the buffer already.
blit_delivered :
    (done n : ℕ) (buffer src : Bytes) (wanted : ℕ → Bytes)
    → ((j : ℕ) → j < done → sector_at j buffer ≡ wanted j)
    → ((k : ℕ) → k < n → sector_at k src ≡ wanted (done + k))
    → length src ≡ n * sector_size
    → (done + n) * sector_size ≤ length buffer
    → done < 128
    → (j : ℕ) → j < done + n
    → sector_at j (blit buffer (u16 (done * sector_size)) src) ≡ wanted j
blit_delivered done n buffer src wanted old new len fits small j h =
    let off : u16 (done * sector_size) ≡ done * sector_size = omega arith in
    elim (Bool-cases (ltb j done)) [
      | inl before ↦ rw off (
          take-drop-blit_before buffer (done * sector_size) src (j * sector_size) sector_size
            (ground arith)
          ∙ old j (ground arith))
      | inr behind ↦
          let k = j - done in
          let at : done + k ≡ j = ground arith in
          rw off (
            take-drop-blit_within buffer (done * sector_size) src (j * sector_size)
              (k * sector_size) sector_size (omega arith) (omega arith) (omega arith)
            ∙ new k (omega arith)
            ∙ ap wanted at)
    ]

module _ {W : Type 0} (disk : Disk) (image : Image) (unit slot count first size sector_max : ℕ)
    (sectored : IsSectored disk) (shown : (lba : ℕ) → image slot lba ≡ disk unit lba)
    (room : count * sector_size ≤ size) (narrow : count ≤ 128) where
  take_cached-IsTrue :
      (p : Progress W) (i : ℕ)
      → IsGoing count first size p
      → IsTrue disk unit slot first p
      → p.done < count
      → cache_find unit p.sector p.driver.cache.slots ≡ some i
      → IsTrue disk unit slot first (take_cached i p)
  unfolding take_cached
  take_cached-IsTrue p i g t lt found =
      let content = cached_sector p.driver.cache.slots i in
      let hit : content ≡ disk unit p.sector =
        cache_find-Coherent disk unit p.sector p.driver.cache.slots t.coherent found in
      let full : length content ≡ sector_size = rw hit (sectored unit p.sector) in
      let s = g.sector_is in
      let b = g.size_is in
      record {
        coherent = t.coherent;
        readahead_is = t.readahead_is;
        slot_is = t.slot_is;
        delivered =
            blit_delivered p.done 1 p.buffer content (λ j. disk unit (first + j)) t.delivered
              (λ k h. only k h hit full s) (omega arith) (omega arith) (omega arith);
      }
    where
      only :
          (k : ℕ)
          → k < 1
          → cached_sector p.driver.cache.slots i ≡ disk unit p.sector
          → length (cached_sector p.driver.cache.slots i) ≡ sector_size
          → p.sector ≡ first + p.done
          → sector_at k (cached_sector p.driver.cache.slots i) ≡ disk unit (first + (p.done + k))
      only zero h hit full s =
          let at : first + (p.done + 0) ≡ p.sector = omega arith in
          rw at (take_all sector_size (cached_sector p.driver.cache.slots i) (sym full) ∙ hit)
      only (suc k) h hit full s = absurd (omega arith)

  -- The sizes of a round.
  sizes_lem :
      (p : Progress W)
      → IsGoing count first size p
      → p.done < count
      → p.sector < sector_max
      → (p.done + batch_size count sector_max p ≤ count)
        × (batch_size count sector_max p ≤ fetch_size (batch_size count sector_max p) sector_max p)
        × (fetch_size (batch_size count sector_max p) sector_max p ≤ 16)
        × (p.sector + fetch_size (batch_size count sector_max p) sector_max p ≤ sector_max)
  unfolding batch_size fetch_size
  sizes_lem p g h k = let s = g.sizes in let b = s.batch_within in ground arith

  settle-IsTrue :
      (p : Progress W) (batch fetch : ℕ) (o : ReadOutcome) (d : Driver W)
      → IsGoing count first size p
      → IsTrue disk unit slot first p
      → p.done < count
      → p.done + batch ≤ count
      → batch ≤ fetch
      → fetch ≤ 16
      → p.sector + fetch ≤ 4294967296
      → Fetched image slot p.sector fetch o p.driver d
      → TurnIsTrue disk unit slot first (settle unit batch fetch p d o)
  unfolding settle take_read
  settle-IsTrue p batch fetch read_ok d g v lt within less small fits f =
      let s = g.sector_is in
      let b = g.size_is in
      let full = f.size_is in
      record {
        coherent =
            fill_cache-Coherent disk fetch 0 unit p.sector d.readahead_data d.cache (omega arith)
              (λ k h. f.sectors_are refl k (omega arith) ∙ shown (p.sector + k))
              (rw f.cache_is v.coherent);
        readahead_is = f.size_is;
        slot_is = unit_to_diskservice_slot_same p.driver _ unit f.slots_are ∙ v.slot_is;
        delivered =
            blit_delivered p.done batch p.buffer (take (u16 (batch * sector_size)) d.readahead_data)
              (λ j. disk unit (first + j)) v.delivered
              (λ k h.
                let at : p.sector + k ≡ first + (p.done + k) = omega arith in
                take-drop-take (u16 (batch * sector_size)) d.readahead_data (k * sector_size)
                  sector_size (omega arith)
                ∙ f.sectors_are refl k (omega arith)
                ∙ shown (p.sector + k)
                ∙ ap (disk unit) at)
              (omega (arith, length-take (u16 (batch * sector_size)) d.readahead_data))
              (omega arith) (omega arith);
      }
  settle-IsTrue p batch fetch downshifted d g v lt within less small fits f = kept p d v f
  settle-IsTrue p batch fetch gave_up d g v lt within less small fits f = kept p d v f

  pub read_turn-IsTrue :
      (port : Port W) (p : Progress W)
      → IsTruthful port image
      → sector_max ≤ 4294967296
      → IsGoing count first size p
      → IsTrue disk unit slot first p
      → (t : Turn W) × (read_turn port unit count sector_max p ≡ some t)
        × TurnIsTrue disk unit slot first t
  unfolding read_turn
  read_turn-IsTrue port p truthful wide g v = elim (Bool-cases (ltb p.done count)) [
    | inr over ↦ (stop finished p, rw (read_turn, over) refl, v)
    | inl going ↦ elim (Bool-cases (leb sector_max p.sector)) [
      | inl off ↦ (stop missing p, rw (read_turn, going, off) refl, v)
      | inr on ↦
          go going on (sizes_lem p g (ground arith) (ground arith))
            (cache_find unit p.sector p.driver.cache.slots) refl
    ]
  ]
    where
      batch : ℕ
      batch = batch_size count sector_max p

      fetch : ℕ
      fetch = fetch_size batch sector_max p

      go :
          ltb p.done count ≡ true
          → leb sector_max p.sector ≡ false
          → (p.done + batch ≤ count)
            × (batch ≤ fetch)
            × (fetch ≤ 16)
            × (p.sector + fetch ≤ sector_max)
          → (hit : Option ℕ) → cache_find unit p.sector p.driver.cache.slots ≡ hit
          → (t : Turn W) × (read_turn port unit count sector_max p ≡ some t)
            × TurnIsTrue disk unit slot first t
      go going on (within, less, small, fits) (some i) eh = (
        more (take_cached i p),
        rw (read_turn, going, on, eh) refl,
        take_cached-IsTrue p i g v (ground arith) eh,
      )
      go going on (within, less, small, fits) none eh =
          let (o, d, e, f) =
            read_attempts-Fetched port image truthful (p.driver.io_retries + 1) unit p.sector fetch
              slot p.driver small v.readahead_is v.slot_is in
          (
            settle unit batch fetch p d o,
            rw (read_turn, going, on, eh, e) refl,
            settle-IsTrue p batch fetch o d g v (ground arith) within less small (omega arith) f,
          )
