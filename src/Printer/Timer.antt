-- ===== src/Printer/Timer.antt =====
-- The timer empties the buffer of the printer driver.
use fujinet_msdos.Base.{
  ℕ, zero, suc, ◌+◌, ◌≤◌, ◌<◌, ◌≡◌, ◌≢◌, ◌⊎◌, inl, inr, refl, some, Bytes, arith, u16, ◌==◌, take,
  Bool-cases, if_rule,
}
use fujinet_msdos.FujiF5.{FujiBus}
use fujinet_msdos.Printer.{
  Printer, printer_device, auto_flush_ticks, age, is_due, is_idle, flush_prn_buf, timer_tick,
}

-- The bus answers a write of the driver with a result other than 0, as interrupt F5 does.
abbrev pub Answers : {W : Type 0} → FujiBus W → Type 0
Answers {W} bus =
    (w : W) (content : Bytes) → (bus.write_call w printer_device b'W' 0 0 0 content).0 ≢ 0

-- The counters are 16-bit words.
pub record HasWords {W : Type 0} (p : Printer W) : Type 0 where
  pub timer_lt : p.timer_counter < 65536
  pub activity_lt : p.last_activity < 65536

module _ {W : Type 0} (bus : FujiBus W) where
  -- So many ticks while DOS is idle, and no other entry in between.
  pub idle_ticks : ℕ → Printer W → Printer W
  idle_ticks zero p = p
  idle_ticks (suc n) p = idle_ticks n (timer_tick bus (some 0) p)

  module _ (answers : Answers bus) where
    flush_prn_buf_empties : (p : Printer W) → (flush_prn_buf bus p).1.prn_buf_len ≡ 0
    unfolding flush_prn_buf
    flush_prn_buf_empties p = ground (arith, answers p.world (take p.prn_buf_len p.prn_buf))

    -- Either the buffer is empty after a tick, or the tick was too early.
    record Early (p q : Printer W) : Type 0 where
      timer_is : q.timer_counter ≡ u16 (p.timer_counter + 1)
      activity_is : q.last_activity ≡ p.last_activity
      age_lt : age q < auto_flush_ticks

    abbrev Ticked : Printer W → Printer W → Type 0
    Ticked p q = (q.prn_buf_len ≡ 0) ⊎ Early p q

    timer_tick-Ticked : (p : Printer W) → Ticked p (timer_tick bus (some 0) p)
    unfolding timer_tick is_idle
    timer_tick-Ticked p =
        let p1 = record p { timer_counter = u16 (p.timer_counter + 1) } in
        if_rule (Ticked p) (is_due p1) _ p1 (λ late. inl (flush_prn_buf_empties p1))
          (λ soon. elim (Bool-cases (p.prn_buf_len == 0)) [
            | inl nothing ↦ inl (ground arith)
            | inr something ↦ inr (record {
              timer_is = refl;
              activity_is = refl;
              age_lt = unfold is_due in ground arith;
            })
          ])

    timer_tick_empty :
        (p : Printer W) → p.prn_buf_len ≡ 0 → (timer_tick bus (some 0) p).prn_buf_len ≡ 0
    unfolding timer_tick is_due
    timer_tick_empty p e = ground arith

    idle_ticks_empty :
        (n : ℕ) (p : Printer W) → p.prn_buf_len ≡ 0 → (idle_ticks n p).prn_buf_len ≡ 0
    unfolding idle_ticks
    idle_ticks_empty zero p e = e
    idle_ticks_empty (suc n) p e =
        idle_ticks_empty n (timer_tick bus (some 0) p) (timer_tick_empty p e)

    idle_ticks_young :
        (n : ℕ) (p : Printer W)
        → HasWords p
        → age p < auto_flush_ticks
        → auto_flush_ticks ≤ age p + n
        → (idle_ticks n p).prn_buf_len ≡ 0
    unfolding idle_ticks
    idle_ticks_young zero p words young enough = absurd (omega arith)
    idle_ticks_young (suc n) p words young enough = elim (timer_tick-Ticked p) [
      | inl empty ↦ idle_ticks_empty n (timer_tick bus (some 0) p) empty
      | inr early ↦
          let q = timer_tick bus (some 0) p in
          let same = early.timer_is in
          let words' : HasWords q = record { timer_lt = omega arith; activity_lt = omega arith } in
          idle_ticks_young n q words' early.age_lt (omega arith)
    ]

    -- On a bus that answers, 91 ticks of the timer or more, with DOS idle and no other entry in
    -- between, leave the buffer empty, whatever the two counters of 16 bits are at the start.
    pub idle_ticks_flush :
        (n : ℕ) (p : Printer W) → HasWords p → 91 ≤ n → (idle_ticks n p).prn_buf_len ≡ 0
    unfolding idle_ticks
    idle_ticks_flush zero p words enough = absurd (omega arith)
    idle_ticks_flush (suc n) p words enough = elim (timer_tick-Ticked p) [
      | inl empty ↦ idle_ticks_empty n (timer_tick bus (some 0) p) empty
      | inr early ↦
          let words' : HasWords (timer_tick bus (some 0) p) = record {
            timer_lt = omega arith;
            activity_lt = omega arith;
          } in
          idle_ticks_young n (timer_tick bus (some 0) p) words' early.age_lt (omega arith)
    ]
