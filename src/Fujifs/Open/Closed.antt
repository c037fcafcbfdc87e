-- ===== src/Fujifs/Open/Closed.antt =====
-- What `fujifs_close` leaves of the device.
use fujinet_msdos.Base.{ℕ, ◌≡◌, refl, not, if_rule}
use fujinet_msdos.Fujifs.{FujiBus, Fuji, netdev, set_open, is_connected}
use fujinet_msdos.Fujifs.Open.{fujifs_close}

module _ {W A : Type 0} (bus : FujiBus W) (x : ℕ) (seen : W → A) where
  -- A close keeps what its request keeps.
  pub fujifs_close-kept :
      ((w : W) → seen (bus.none_call w (netdev x) b'C').1 ≡ seen w)
      → (s : Fuji W) → seen (fujifs_close bus x s).1.world ≡ seen s.world
  unfolding fujifs_close set_open
  fujifs_close-kept keeps s =
      if_rule (λ (r : ℕ × Fuji W). seen r.1.world ≡ seen s.world) (not (is_connected s x)) _ _
        (λ off. refl) (λ on. keeps s.world)
