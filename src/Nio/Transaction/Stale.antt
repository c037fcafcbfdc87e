-- ===== src/Nio/Transaction/Stale.antt =====
-- The loop over stale responses: it ends below 255, and at 255 the 8-bit counter never passes the limit.
use fujinet_msdos.Base.{
  ℕ, zero, suc, ◌+◌, ◌≤◌, ◌<◌, ◌≡◌, ◌≢◌, refl, sym, ◌∙◌, inl, inr, Bool, not, ◌||◌, none, List, u8,
  arith, ltb, Bool-cases,
}
use fujinet_msdos.Nio.Protocol.{Header, ProtoCode, header_size}
use fujinet_msdos.Nio.Port.{Port, Memory, Request}
use fujinet_msdos.Nio.Transaction.Views.{stuck, final, retried, attempts-Attempt}
use fujinet_msdos.Nio.Transaction.{
  receive, read_response, nio_transaction_once, attempts, nio_transaction_call, all_set,
}

module _ {W : Type 0} (port : Port W) (q : Request) where
  read_response-ne-none :
      (fuel timeout stale_count : ℕ) (m : Memory W)
      → q.max_stale_responses < 255
      → stale_count ≤ q.max_stale_responses
      → q.max_stale_responses < fuel + stale_count
      → read_response port q fuel timeout stale_count m ≢ none
  unfolding read_response
  read_response-ne-none zero timeout stale_count m small h f = absurd (omega arith)
  read_response-ne-none (suc fuel) timeout stale_count m small h f = ground (
    arith,
    read_response-ne-none fuel timeout (suc stale_count) (receive port q timeout m).memory,
  )

  once-ne-none :
      (fuel timeout : ℕ) (tx : Header) (m : Memory W)
      → q.max_stale_responses < 255
      → q.max_stale_responses < fuel
      → nio_transaction_once port q fuel timeout tx m ≢ none
  unfolding nio_transaction_once
  once-ne-none fuel timeout tx m small f =
      read_response-ne-none fuel timeout 0 _ small (omega arith) (omega arith)

  attempts-ne-none :
      (n fuel timeout : ℕ) (tx : Header) (m : Memory W)
      → q.max_stale_responses < 255
      → q.max_stale_responses < fuel
      → attempts port q n fuel timeout tx m ≢ none
  attempts-ne-none zero fuel timeout tx m small f e = unfold attempts in cc
  attempts-ne-none (suc n) fuel timeout tx m small f e =
      elim (attempts-Attempt port q n fuel timeout tx m) as (λ _. ⊥) [
        | stuck s _ ↦ once-ne-none fuel timeout tx _ small f s
        | final _ _ is ↦ cc
        | retried {m'} _ _ is ↦ attempts-ne-none n fuel timeout tx m' small f (sym is ∙ e)
      ]

  -- A peer that answers every read with a frame for another device or command.
  abbrev pub IsBabbling : ℕ → Type 0
  IsBabbling timeout = (m : Memory W) → (receive port q timeout m).code ≡ ProtoCode.device_command

  -- With a limit of 255 stale responses, against a port whose every frame is for another device
  -- or command, the 8-bit counter never passes the limit, and the read loop uses up whatever fuel
  -- it is given.
  pub read_response_forever :
      (fuel timeout stale_count : ℕ) (m : Memory W)
      → q.max_stale_responses ≡ 255
      → IsBabbling timeout
      → read_response port q fuel timeout stale_count m ≡ none
  unfolding read_response
  read_response_forever zero timeout stale_count m limit babbling = refl
  read_response_forever (suc fuel) timeout stale_count m limit babbling = ground (
    arith,
    babbling m,
    read_response_forever fuel timeout (u8 (stale_count + 1)) (receive port q timeout m).memory,
  )

-- With a limit on stale responses below 255, and fuel beyond it, a call returns, whatever the
-- port does.
pub nio_transaction_call-ne-none :
    {W : Type 0} (port : Port W) (pointers : List Bool) (tx_capacity : ℕ) (q : Request)
    (retries network_timeout default_timeout fuel : ℕ) (m : Memory W)
    → q.max_stale_responses < 255
    → q.max_stale_responses < fuel
    → nio_transaction_call port pointers tx_capacity q retries network_timeout default_timeout fuel
        m
      ≢ none
unfolding nio_transaction_call
nio_transaction_call-ne-none port pointers tx_capacity q retries network_timeout default_timeout
      fuel m small f =
    elim (Bool-cases (not (all_set pointers) || ltb tx_capacity header_size)) [
      | inl bad ↦ rw bad (λ e. cc)
      | inr good ↦ rw good (attempts-ne-none port q _ _ _ _ m small f)
    ]
