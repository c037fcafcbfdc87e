-- ===== src/Nio/Transaction/Sound.antt =====
-- What `nio_transaction_call` has done when it returns true, and when it returns false.
use fujinet_msdos.Base.{
  ℕ, zero, suc, ◌≡◌, refl, inl, inr, Bool, true, false, not, ◌||◌, Option, none, some, List, Bytes,
  arith, take, drop, blit, Bool-cases, ltb,
}
use fujinet_msdos.Nio.Protocol.{Header, ProtoCode, Parsed, validate_response, header_size}
use fujinet_msdos.Nio.Port.{Line, Port, Reply, null, own, rx, Memory, Request}
use fujinet_msdos.Nio.Transaction.Views.{
  accepted, refused, skipped, read_response-Round, stuck, final, retried, attempts-Attempt,
}
use fujinet_msdos.Nio.Transaction.{
  diag_reset, receive, give_up, accept, deliver, read_response, nio_transaction_once, attempts,
  nio_transaction_call, all_set,
}

-- The reply after `src` was delivered to it.
abbrev pub replied : Reply → Bytes → Reply
replied null src = null
replied (own b) src = own (blit b 0 src)
replied rx src = rx

-- The port has brought a response that passes validation for the request, its status and length are what the
-- caller is told, and its data is in the reply.
pub record Answered {W : Type 0} (port : Port W) (q : Request) (reply : Reply) (after : Memory W)
    : Type 0 where
  pub before : Line W
  pub timeout : ℕ
  pub line : Line W
  pub rx_len : ℕ
  pub parsed : Parsed
  pub heard :
      port.getbuf_slip_dual before q.rx_capacity timeout ≡ record { line = line; rx_len = rx_len }
  pub valid :
      validate_response line.rx_header line.rx_payload rx_len q.device q.command q.reply_capacity
      ≡ (ProtoCode.ok, parsed)
  pub response_is :
      after.response ≡ record { status = parsed.status; payload_length = parsed.payload_length }
  pub reply_is :
      after.reply
      ≡ replied reply (take parsed.payload_length (drop parsed.payload_offset line.rx_payload))

module _ {W : Type 0} (port : Port W) (q : Request) where
  accept-Answered :
      (timeout : ℕ) (m : Memory W)
      → (receive port q timeout m).code ≡ ProtoCode.ok
      → Answered port q m.reply (accept port q (receive port q timeout m))
  unfolding receive accept deliver
  accept-Answered timeout m e = record {
    before = m.line;
    timeout = timeout;
    heard = refl;
    line = (receive port q timeout m).memory.line;
    rx_len = (receive port q timeout m).rx_len;
    parsed = (receive port q timeout m).parsed;
    valid = ground arith;
    response_is = refl;
    reply_is = ground arith;
  }

  read_response_sound :
      (fuel timeout stale_count : ℕ) (m : Memory W) {m' : Memory W}
      → read_response port q fuel timeout stale_count m ≡ some (true, m')
      → Answered port q m.reply m'
  unfolding receive
  read_response_sound zero timeout stale_count m e = unfold read_response in cc
  read_response_sound (suc fuel) timeout stale_count m {m'} e =
      elim (read_response-Round port q fuel timeout stale_count m e)
        as (λ _. Answered port q m.reply m') [
          | accepted _ h is ↦ rw is (accept-Answered timeout m h)
          | refused _ h _ ↦ cc
          | skipped e' ↦ read_response_sound fuel timeout _ _ e'
        ]

  read_response_failed :
      (fuel timeout stale_count : ℕ) (m : Memory W) {m' : Memory W}
      → read_response port q fuel timeout stale_count m ≡ some (false, m')
      → m'.reply ≡ m.reply
  unfolding receive
  read_response_failed zero timeout stale_count m e = unfold read_response in cc
  read_response_failed (suc fuel) timeout stale_count m {m'} e =
      elim (read_response-Round port q fuel timeout stale_count m e) as (λ _. m'.reply ≡ m.reply) [
        | accepted h _ _ ↦ cc
        | refused _ _ is ↦ rw is (unfold give_up in refl)
        | skipped e' ↦ read_response_failed fuel timeout _ _ e'
      ]

  -- What a finished call says: true with an accepted response, or false with the reply untouched.
  abbrev Served : Reply → Option (Bool × Memory W) → Type 0
  Served reply none = Unit
  Served reply (some (true, m')) = Answered port q reply m'
  Served reply (some (false, m')) = m'.reply ≡ reply

  once-Served :
      (fuel timeout : ℕ) (tx : Header) (m : Memory W)
      → Served m.reply (nio_transaction_once port q fuel timeout tx m)
  unfolding nio_transaction_once
  once-Served fuel timeout tx m = go _ refl
    where
      go :
          (r : Option (Bool × Memory W))
          → nio_transaction_once port q fuel timeout tx m ≡ r
          → Served m.reply r
      go none h = tt
      go (some (true, m')) h = read_response_sound fuel timeout 0 _ h
      go (some (false, m')) h = read_response_failed fuel timeout 0 _ h

  -- A failed attempt in front of another leaves the reply as it was.
  attempts-Served :
      (n fuel timeout : ℕ) (tx : Header) (m : Memory W)
      → Served m.reply (attempts port q n fuel timeout tx m)
  attempts-Served zero fuel timeout tx m = unfold attempts in refl
  attempts-Served (suc n) fuel timeout tx m =
      elim (attempts-Attempt port q n fuel timeout tx m)
        as (λ _. Served m.reply (attempts port q (suc n) fuel timeout tx m)) [
          | stuck _ is ↦ rw is tt
          | final e _ is ↦
              rw is (rw e at (once-Served fuel timeout tx (record m { diag = diag_reset m.diag })))
          | retried {m'} e _ is ↦
              let kept : m'.reply ≡ m.reply =
                rw e at (once-Served fuel timeout tx (record m { diag = diag_reset m.diag })) in
              rw (is, ← kept) (attempts-Served n fuel timeout tx m')
        ]

module _ {W : Type 0} (port : Port W) (pointers : List Bool) (tx_capacity : ℕ) (q : Request) where
  module _ (retries network_timeout default_timeout fuel : ℕ) (m : Memory W) where
    call-Served : Served port q m.reply (
        nio_transaction_call port pointers tx_capacity q retries network_timeout default_timeout
          fuel m)
    unfolding nio_transaction_call
    call-Served = elim (Bool-cases (not (all_set pointers) || ltb tx_capacity header_size)) [
      | inl bad ↦ rw bad refl
      | inr good ↦ rw good (attempts-Served port q _ _ _ _ m)
    ]

    -- A call that returns true, whatever the port does, has received from the port a frame that
    -- passes validation for its device and command; the response holds that frame's status and
    -- data length, and the reply holds its data.
    pub nio_transaction_call_sound :
        {m' : Memory W}
        → nio_transaction_call port pointers tx_capacity q retries network_timeout default_timeout
            fuel m
          ≡ some (true, m')
        → Answered port q m.reply m'
    nio_transaction_call_sound e = rw e at call-Served

    -- A call that returns false leaves the reply buffer as it was.
    pub nio_transaction_call_failed :
        {m' : Memory W}
        → nio_transaction_call port pointers tx_capacity q retries network_timeout default_timeout
            fuel m
          ≡ some (false, m')
        → m'.reply ≡ m.reply
    nio_transaction_call_failed e = rw e at call-Served
