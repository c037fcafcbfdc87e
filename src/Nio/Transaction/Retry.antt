-- ===== src/Nio/Transaction/Retry.antt =====
-- How often `nio_transaction_call` tries: the chain of failed attempts in front of the last one.
use native.Mathlib.Numerals.{add-one}
use fujinet_msdos.Base.{
  List, Bool-cases, ◌==◌, if◌then◌else◌, ◌≤◌, ℕ, zero, suc, ◌+◌, ◌<◌, ◌≡◌, refl, sym, ◌∙◌, ◌⊎◌, inl,
  inr, Bool, true, false, Option, none, some, arith,
}
use fujinet_msdos.Nio.Protocol.{Header, header_size}
use fujinet_msdos.Nio.Codes.{
  device_network, NioError, uart, timed_out, short_frame, length_mismatch, bad_checksum,
}
use fujinet_msdos.Nio.Port.{Port, Memory, Request, Diag}
use fujinet_msdos.Nio.Transaction.Views.{stuck, final, retried, attempts-Attempt}
use fujinet_msdos.Nio.Transaction.{
  max_attempts, all_set, request_header, nio_transaction_call, nio_transaction_once, attempts,
  wants_retry, nio_should_retry_error, diag_reset,
}

-- The failures that are worth another attempt: those of the line, not those of the peer's answer.
pub data IsLineFault : NioError → Type 0 where
  on_uart : IsLineFault uart
  on_timeout : IsLineFault timed_out
  on_short : IsLineFault short_frame
  on_length : IsLineFault length_mismatch
  on_checksum : IsLineFault bad_checksum

-- The transaction has a `diag`, and its error is a fault of the line.
abbrev pub Faulted : Option Diag → Type 0
Faulted none = ⊥
Faulted (some d) = IsLineFault d.error

wants_retry-Faulted : (d : Option Diag) → wants_retry d ≡ true → Faulted d
unfolding wants_retry
wants_retry-Faulted none h = cc
wants_retry-Faulted (some d) h = go d.error h
  where
    go : (e : NioError) → nio_should_retry_error e ≡ true → IsLineFault e
    go uart h = on_uart
    go timed_out h = on_timeout
    go short_frame h = on_short
    go length_mismatch h = on_length
    go bad_checksum h = on_checksum
    go _ h = cc

wants_retry-not_Faulted : (d : Option Diag) → wants_retry d ≡ false → ¬ Faulted d
unfolding wants_retry
wants_retry-not_Faulted none h f = f
wants_retry-not_Faulted (some d) h f = go f h
  where
    go : {e : NioError} → IsLineFault e → nio_should_retry_error e ≡ false → ⊥
    go on_uart h = cc
    go on_timeout h = cc
    go on_short h = cc
    go on_length h = cc
    go on_checksum h = cc

module _ {W : Type 0} (port : Port W) (q : Request) (fuel timeout : ℕ) (tx : Header) where
  abbrev try_once : Memory W → Option (Bool × Memory W)
  try_once m = nio_transaction_once port q fuel timeout tx (record m { diag = diag_reset m.diag })

  -- `k` attempts in a row have failed by a fault of the line.
  pub data Faults : Memory W → ℕ → Memory W → Type 0 where
    start : {m : Memory W} → Faults m zero m
    fault :
        {m a b : Memory W} {k : ℕ}
        → try_once m ≡ some (false, a)
        → Faulted a.diag
        → Faults a k b
        → Faults m (suc k) b

  -- The last attempt came after `k` faults of the line: it succeeded, or failed in another way, or was
  -- the last that the limit `n` allows.
  pub record Tried (n : ℕ) (m : Memory W) (ok : Bool) (m' : Memory W) : Type 0 where
    pub faults : ℕ
    pub before : Memory W
    pub earlier : Faults m faults before
    pub in_limit : faults < n
    pub last : try_once before ≡ some (ok, m')
    pub ends : (ok ≡ true) ⊎ (¬ Faulted m'.diag) ⊎ (faults + 1 ≡ n)

  Tried-fault :
      {n : ℕ} {m a : Memory W} {ok : Bool} {m' : Memory W}
      → try_once m ≡ some (false, a)
      → Faulted a.diag
      → Tried n a ok m'
      → Tried (suc n) m ok m'
  Tried-fault e f t = record {
    faults = suc t.faults;
    before = t.before;
    earlier = fault e f t.earlier;
    in_limit = omega (arith, t.in_limit);
    last = t.last;
    ends = elim (t.ends) [
      | inl a ↦ inl a
      | inr (inl b) ↦ inr (inl b)
      | inr (inr c) ↦ inr (inr (omega arith))
    ];
  }

  Tried-final :
      (n : ℕ) {m : Memory W} {ok : Bool} {m' : Memory W}
      → try_once m ≡ some (ok, m')
      → (ok ≡ true) ⊎ (¬ Faulted m'.diag) ⊎ (1 ≡ suc n)
      → Tried (suc n) m ok m'
  Tried-final n {m} e ends = record {
    faults = 0;
    before = m;
    earlier = start;
    in_limit = omega arith;
    last = e;
    ends = elim ends [
      | inl a ↦ inl a
      | inr (inl b) ↦ inr (inl b)
      | inr (inr c) ↦ inr (inr (omega arith))
    ];
  }

  -- Of at most `suc n` attempts, all but the last have failed by a fault of the line.
  pub attempts-Tried :
      (n : ℕ) (m : Memory W) {ok : Bool} {m' : Memory W}
      → attempts port q (suc n) fuel timeout tx m ≡ some (ok, m')
      → Tried (suc n) m ok m'
  attempts-Tried zero m {ok} {m'} e =
      elim (attempts-Attempt port q zero fuel timeout tx m) as (λ _. Tried 1 m ok m') [
        | stuck _ is ↦ cc
        | final s over is ↦ Tried-final zero (s ∙ sym is ∙ e) (inr (inr refl))
        | retried s again is ↦ Tried-final zero (s ∙ unfold attempts in sym is ∙ e) (inr (inr refl))
      ]
  attempts-Tried (suc n) m {ok} {m'} e =
      elim (attempts-Attempt port q (suc n) fuel timeout tx m)
        as (λ _. Tried (suc (suc n)) m ok m') [
          | stuck _ is ↦ cc
          | final {ok = ok'} {m' = b} s over is ↦
              Tried-final (suc n) (s ∙ sym is ∙ e) (over_ends (sym is ∙ e) over)
          | retried {m' = a} s again is ↦
              Tried-fault s (wants_retry-Faulted a.diag again) (attempts-Tried n a (sym is ∙ e))
        ]
    where
      over_ends :
          {ok' : Bool} {b : Memory W}
          → ◌≡◌ {A = Option (Bool × Memory W)} (some (ok', b)) (some (ok, m'))
          → (ok' ≡ true) ⊎ (wants_retry b.diag ≡ false)
          → (ok ≡ true) ⊎ (¬ Faulted m'.diag) ⊎ (1 ≡ suc (suc n))
      over_ends same (inl a) = inl (ground arith)
      over_ends same (inr b) = inr (inl (wants_retry-not_Faulted m'.diag (ground arith)))

-- On a bound port with room for a header, with 8-bit retries, a call that returns has made a run
-- of attempts: each one before the last failed by a fault of the line (on a UART: a timeout, a
-- short frame, a wrong length or a wrong checksum), and the last one succeeded, or failed
-- otherwise, or was number retries + 1; at 255 retries the 8-bit count wraps and there is one
-- attempt.
pub nio_transaction_call-Tried :
    {W : Type 0} (port : Port W) (pointers : List Bool) (tx_capacity : ℕ) (q : Request)
    (retries network_timeout default_timeout fuel : ℕ) (m : Memory W) {ok : Bool} {m' : Memory W}
    → all_set pointers ≡ true
    → header_size ≤ tx_capacity
    → retries < 256
    → nio_transaction_call port pointers tx_capacity q retries network_timeout default_timeout fuel
        m
      ≡ some (ok, m')
    → Tried port q fuel
        (if q.device == device_network then network_timeout else default_timeout)
        (request_header q)
        (if retries == 255 then 1 else retries + 1)
        m
        ok
        m'
unfolding nio_transaction_call max_attempts
nio_transaction_call-Tried port pointers tx_capacity q retries network_timeout default_timeout fuel
      m {ok} {m'} set room small e =
    elim (Bool-cases (retries == 255)) [
      | inl full ↦ rw full (attempts-Tried port q fuel _ _ 0 m (ground arith))
      | inr more ↦ rw (more, add-one) (attempts-Tried port q fuel _ _ retries m (ground arith))
    ]
