-- ===== src/Driver/Input/Total.antt =====
-- The loop of `Input_cmd` ends: a round reads a sector at least, or lowers the size of the requests.
use fujinet_msdos.Base.{
  ℕ, zero, suc, ◌+◌, ◌-◌, ◌≤◌, ◌<◌, ◌≡◌, refl, ◌∙◌, ◌⊎◌, inl, inr, true, false, Option, none, some,
  arith, Bytes, length, length-blit, ltb, leb, Bool-cases,
}
use fujinet_msdos.Nio.Port.{Port}
use fujinet_msdos.Driver.Cache.{Cache, cache_find}
use fujinet_msdos.Driver.State.{Driver}
use fujinet_msdos.Driver.Cache.Shape.{IsCache, Cache-IsCache}
use fujinet_msdos.Driver.Input.{
  fill_cache, downshift, ReadOutcome, read_ok, downshifted, gave_up, Progress, Turn, more, stop,
  LoopEnd, finished, missing, batch_size, fetch_size, take_cached, take_read, settle, read_turn,
  read_loop,
}
use fujinet_msdos.Driver.Input.Shrink.{
  HasSizes, downshift_lem, Attempted, ended, shrunk, AttemptsEnd, read_attempts_return,
}

-- The loop invariant, for a request that started with `first` and a buffer of `size` bytes.
pub record IsGoing {W : Type 0} (count first size : ℕ) (p : Progress W) : Type 0 where
  pub done_within : p.done ≤ count
  pub sector_is : p.sector ≡ first + p.done
  pub size_is : length p.buffer ≡ size
  pub sizes : HasSizes p.driver
  pub cache : IsCache p.driver.cache

fill_cache-IsCache :
    (n fill unit sector : ℕ) (content : Bytes) (c : Cache)
    → IsCache c
    → IsCache (fill_cache n fill unit sector content c)
unfolding fill_cache
fill_cache-IsCache zero fill unit sector content c v = v
fill_cache-IsCache (suc n) fill unit sector content c v =
    fill_cache-IsCache n (fill + 1) unit sector content _ (Cache-IsCache unit _ _ none v).0

-- What bounds the number of rounds left.
abbrev pub rounds : {W : Type 0} → ℕ → Progress W → ℕ
rounds count p = count - p.done + (p.driver.batch_sectors + p.driver.readahead_sectors)

pub data Turned {W : Type 0} (count first size : ℕ) (p : Progress W) : Turn W → Type 0 where
  stopped :
      (e : LoopEnd) (p' : Progress W)
      → IsGoing count first size p'
      → Turned count first size p (stop e p')
  moved :
      (p' : Progress W)
      → IsGoing count first size p'
      → rounds count p' < rounds count p
      → Turned count first size p (more p')

module _ {W : Type 0} (port : Port W) (unit count sector_max first size : ℕ) where
  batch_size_lem :
      (p : Progress W)
      → IsGoing count first size p
      → p.done < count
      → p.sector < sector_max
      → (1 ≤ batch_size count sector_max p)
        × (p.done + batch_size count sector_max p ≤ count)
        × ((fetch_size (batch_size count sector_max p) sector_max p ≤ p.driver.batch_sectors)
            ⊎ (fetch_size (batch_size count sector_max p) sector_max p
                ≤ p.driver.readahead_sectors))
  unfolding batch_size fetch_size
  batch_size_lem p g h k = let s = g.sizes in let b = s.batch_pos in ground arith

  take_cached_lem :
      (p : Progress W) (i : ℕ)
      → IsGoing count first size p
      → p.done < count
      → Turned count first size p (more (take_cached i p))
  unfolding take_cached
  take_cached_lem p i g h =
      moved (take_cached i p)
        (record {
          done_within = omega arith;
          sector_is = let s = g.sector_is in omega arith;
          size_is = length-blit _ _ _ ∙ g.size_is;
          sizes = g.sizes;
          cache = g.cache;
        })
        (omega arith)

  -- What the attempts of a round make of it.
  asked_lem :
      (p : Progress W) (batch fetch : ℕ) (o : ReadOutcome) (d : Driver W)
      → IsGoing count first size p
      → 1 ≤ batch
      → p.done + batch ≤ count
      → (fetch ≤ p.driver.batch_sectors) ⊎ (fetch ≤ p.driver.readahead_sectors)
      → Attempted fetch p.driver o d
      → Turned count first size p (settle unit batch fetch p d o)
  unfolding take_read settle downshift
  asked_lem p batch fetch read_ok d g b k f (ended o d' e ne) =
      moved (take_read unit batch fetch p d)
        (record {
          done_within = k;
          sector_is = let s = g.sector_is in omega arith;
          size_is = length-blit _ _ _ ∙ g.size_is;
          sizes = rw e (record {
            batch_pos = g.sizes.batch_pos;
            readahead_pos = g.sizes.readahead_pos;
            batch_within = g.sizes.batch_within;
            readahead_within = g.sizes.readahead_within;
          });
          cache = rw e (fill_cache-IsCache fetch 0 unit p.sector _ p.driver.cache g.cache);
        })
        (rw e (omega arith))
  asked_lem p batch fetch gave_up d g b k f (ended o d' e ne) =
      stopped finished (record p { driver = d })
        (record {
          done_within = g.done_within;
          sector_is = g.sector_is;
          size_is = g.size_is;
          sizes = rw e (record {
            batch_pos = g.sizes.batch_pos;
            readahead_pos = g.sizes.readahead_pos;
            batch_within = g.sizes.batch_within;
            readahead_within = g.sizes.readahead_within;
          });
          cache = rw e g.cache;
        })
  asked_lem p batch fetch downshifted d g b k f (ended o d' e ne) = absurd (ne refl)
  asked_lem p batch fetch downshifted d g b k f (shrunk d' e h) =
      let (s, less) = downshift_lem fetch p.driver g.sizes h f in
      moved (record p { driver = d })
        (record {
          done_within = g.done_within;
          sector_is = g.sector_is;
          size_is = g.size_is;
          sizes = rw e (record {
            batch_pos = s.batch_pos;
            readahead_pos = s.readahead_pos;
            batch_within = s.batch_within;
            readahead_within = s.readahead_within;
          });
          cache = rw e g.cache;
        })
        (rw e (omega arith))

  -- A round returns, keeps the invariant and lowers the bound unless it is the last.
  pub read_turn_lem :
      (p : Progress W)
      → IsGoing count first size p
      → (t : Turn W) × (read_turn port unit count sector_max p ≡ some t)
        × Turned count first size p t
  unfolding read_turn
  read_turn_lem p g = elim (Bool-cases (ltb p.done count)) [
    | inr over ↦ (stop finished p, rw (read_turn, over) refl, stopped finished p g)
    | inl going ↦ elim (Bool-cases (leb sector_max p.sector)) [
      | inl off ↦ (stop missing p, rw (read_turn, going, off) refl, stopped missing p g)
      | inr on ↦
          go going on
            (read_attempts_return port (p.driver.io_retries + 1) unit p.sector
              (fetch_size (batch_size count sector_max p) sector_max p) p.driver)
            (cache_find unit p.sector p.driver.cache.slots) refl
    ]
  ]
    where
      go :
          ltb p.done count ≡ true
          → leb sector_max p.sector ≡ false
          → AttemptsEnd port
              (p.driver.io_retries + 1)
              unit
              p.sector
              (fetch_size (batch_size count sector_max p) sector_max p)
              p.driver
          → (hit : Option ℕ) → cache_find unit p.sector p.driver.cache.slots ≡ hit
          → (t : Turn W) × (read_turn port unit count sector_max p ≡ some t)
            × Turned count first size p t
      go going on a (some i) eh = (
        more (take_cached i p),
        rw (read_turn, going, on, eh) refl,
        take_cached_lem p i g (ground arith),
      )
      go going on (o, d, e, a) none eh =
          let (pos, within, fits) = batch_size_lem p g (ground arith) (ground arith) in
          (
            settle unit (batch_size count sector_max p)
                (fetch_size (batch_size count sector_max p) sector_max p) p d o,
            rw (read_turn, going, on, eh, e) refl,
            asked_lem p _ _ o d g pos within fits a,
          )

  pub read_loop_returns :
      (fuel : ℕ) (p : Progress W)
      → IsGoing count first size p
      → rounds count p < fuel
      → (e : LoopEnd) × (p' : Progress W) × (read_loop port unit count sector_max fuel p
          ≡ some (e, p'))
        × IsGoing count first size p'
  unfolding read_loop
  read_loop_returns zero p g h = ground arith
  read_loop_returns (suc fuel) p g h =
      let (t, e, v) = read_turn_lem p g in go (read_loop_returns fuel) t e v
    where
      go :
          ((p' : Progress W)
            → IsGoing count first size p'
            → rounds count p' < fuel
            → (e : LoopEnd) × (q : Progress W) × (read_loop port unit count sector_max fuel p'
                ≡ some (e, q))
              × IsGoing count first size q)
          → (t : Turn W) → read_turn port unit count sector_max p ≡ some t
          → Turned count first size p t
          → (e : LoopEnd) × (q : Progress W) × (read_loop port unit count sector_max (suc fuel) p
              ≡ some (e, q))
            × IsGoing count first size q
      go rest t e (stopped end p' g') = (end, p', rw (read_loop, e) refl, g')
      go rest t e (moved p' g' less) =
          let (end, q, e', g'') = rest p' g' (omega arith) in
          (end, q, rw (read_loop, e, e') refl, g'')
