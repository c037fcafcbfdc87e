-- ===== src/Nio/Transaction/Views.antt =====
-- The two loops of sys/nio_transaction.c seen one round at a time: what a round of `read_response`
-- and an attempt can come to.
use fujinet_msdos.Base.{
  ℕ, suc, ◌+◌, ◌≡◌, refl, ◌⊎◌, inl, inr, Bool, true, false, Option, none, some, u8, arith, leb,
  Bool-cases,
}
use fujinet_msdos.Nio.Protocol.{Header, ProtoCode}
use fujinet_msdos.Nio.Codes.{NioError, device_command, from_proto}
use fujinet_msdos.Nio.Port.{Port, Memory, Request}
use fujinet_msdos.Nio.Transaction.{
  receive, give_up, accept, read_response, nio_transaction_once, attempts, wants_retry,
  nio_port_error, diag_reset,
}

module _ {W : Type 0} (port : Port W) (q : Request) where
  -- One round of `read_response` that ends the call or goes on.
  pub data Round (fuel timeout stale_count : ℕ) (m : Memory W) (ok : Bool) (m' : Memory W)
      : Type 0 where
    accepted :
        ok ≡ true
        → (receive port q timeout m).code ≡ ProtoCode.ok
        → m' ≡ accept port q (receive port q timeout m)
        → Round fuel timeout stale_count m ok m'
    refused :
        (error : NioError)
        → ok ≡ false
        → m' ≡ give_up port q (receive port q timeout m) error
        → Round fuel timeout stale_count m ok m'
    skipped :
        read_response port q fuel timeout (u8 (stale_count + 1)) (receive port q timeout m).memory
          ≡ some (ok, m')
        → Round fuel timeout stale_count m ok m'

  pub read_response-Round :
      (fuel timeout stale_count : ℕ) (m : Memory W) {ok : Bool} {m' : Memory W}
      → read_response port q (suc fuel) timeout stale_count m ≡ some (ok, m')
      → Round fuel timeout stale_count m ok m'
  unfolding read_response
  read_response-Round fuel timeout stale_count m {ok} {m'} e =
      go (receive port q timeout m).code refl
    where
      go :
          (c : ProtoCode)
          → (receive port q timeout m).code ≡ c
          → Round fuel timeout stale_count m ok m'
      go ProtoCode.ok h = accepted (ground arith) h (ground arith)
      go ProtoCode.device_command h =
          elim (Bool-cases (leb (u8 (stale_count + 1)) q.max_stale_responses)) [
            | inl more ↦ skipped (ground arith)
            | inr enough ↦ refused device_command (ground arith) (ground arith)
          ]
      go c h =
          refused (nio_port_error port (receive port q timeout m).memory.line.world (from_proto c))
            (ground arith) (ground arith)

  -- What the first of `suc n` attempts comes to, and the result of them all.
  pub data Attempt (n fuel timeout : ℕ) (tx : Header) (m : Memory W) (r : Option (Bool × Memory W))
      : Type 0 where
    stuck :
        nio_transaction_once port q fuel timeout tx (record m { diag = diag_reset m.diag }) ≡ none
        → r ≡ none
        → Attempt n fuel timeout tx m r
    final :
        {ok : Bool} {m' : Memory W}
        → nio_transaction_once port q fuel timeout tx (record m { diag = diag_reset m.diag })
          ≡ some (ok, m')
        → (ok ≡ true) ⊎ (wants_retry m'.diag ≡ false)
        → r ≡ some (ok, m')
        → Attempt n fuel timeout tx m r
    retried :
        {m' : Memory W}
        → nio_transaction_once port q fuel timeout tx (record m { diag = diag_reset m.diag })
          ≡ some (false, m')
        → wants_retry m'.diag ≡ true
        → r ≡ attempts port q n fuel timeout tx m'
        → Attempt n fuel timeout tx m r

  pub attempts-Attempt :
      (n fuel timeout : ℕ) (tx : Header) (m : Memory W)
      → Attempt n fuel timeout tx m (attempts port q (suc n) fuel timeout tx m)
  unfolding attempts
  attempts-Attempt n fuel timeout tx m = go _ refl
    where
      go :
          (r : Option (Bool × Memory W))
          → nio_transaction_once port q fuel timeout tx (record m { diag = diag_reset m.diag }) ≡ r
          → Attempt n fuel timeout tx m (attempts port q (suc n) fuel timeout tx m)
      go none e = stuck e (ground arith)
      go (some (true, m')) e = final e (inl refl) (ground arith)
      go (some (false, m')) e = elim (Bool-cases (wants_retry m'.diag)) [
        | inl again ↦ retried e again (ground arith)
        | inr done ↦ final e (inr done) (ground arith)
      ]
