-- ===== src/Redirector/State/Told.antt =====
-- Calls that fail tell DOS why.
use fujinet_msdos.Base.{ℕ, ◌≡◌, ◌≢◌, ◌<◌, true, false, arith, u16}
use fujinet_msdos.Redirector.State.{Redir, fail, succeed}

-- AX is a word, and an error number that is not 0 where the carry flag is set.
pub record IsTold {W : Type 0} (s : Redir W) : Type 0 where
  pub word : s.r.ax < 65536
  pub error : s.r.carry ≡ true → s.r.ax ≢ 0

module _ {W : Type 0} where
  pub fail-IsTold : (err : ℕ) (s : Redir W) → u16 err ≢ 0 → IsTold (fail err s)
  unfolding fail
  fail-IsTold err s h = record { word = omega arith; error = λ c. h }

  pub succeed-IsTold : (s : Redir W) → IsTold (succeed s)
  unfolding succeed
  succeed-IsTold s = record { word = omega arith; error = λ c. cc }

  -- A call that does not fail, with a word in AX.
  pub done-IsTold : (s : Redir W) → s.r.carry ≡ false → s.r.ax < 65536 → IsTold s
  done-IsTold s c h = record { word = h; error = λ d. cc }

  -- What leaves the registers as they were.
  pub kept-IsTold : {s s' : Redir W} → s'.r ≡ s.r → IsTold s → IsTold s'
  kept-IsTold e v = record { word = rw e v.word; error = rw e v.error }
