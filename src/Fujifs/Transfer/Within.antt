-- ===== src/Fujifs/Transfer/Within.antt =====
-- What the transfers return.
use fujinet_msdos.Base.{ℕ, ◌≤◌, ◌≡◌, ◌⊎◌, Bytes, arith}
use fujinet_msdos.Fujifs.{FujiBus, Fuji}
use fujinet_msdos.Fujifs.Transfer.{fujifs_read, fujifs_write}

module _ {W : Type 0} (bus : FujiBus W) where
  -- Whatever the devices do, a read of a network file returns no more than the count it is asked
  -- for, and a write returns 65535 or no more than the count it is given.
  pub fujifs_transfer_within :
      (x : ℕ) (buffer : Bytes) (count : ℕ) (s : Fuji W)
      → ((fujifs_read bus x buffer count s).0 ≤ count)
        × (((fujifs_write bus x buffer count s).0 ≡ 65535)
            ⊎ ((fujifs_write bus x buffer count s).0 ≤ count))
  unfolding fujifs_read fujifs_write
  fujifs_transfer_within x buffer count s = (ground arith, ground arith)
