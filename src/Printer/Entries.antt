-- ===== src/Printer/Entries.antt =====
-- What the entries of the printer driver do to the stream of characters, in whatever order they run.
use mathlib.Core.List.{append-nil, append_assoc}
use fujinet_msdos.Base.{
  ℕ, ◌+◌, ◌≤◌, ◌≡◌, refl, sym, ap, ◌∙◌, true, false, ◌&&◌, Option, List, [], ◌∷◌, ◌++◌, u16, Bytes,
  inl, inr, arith, ltb, ◌==◌, if◌then◌else◌, get_or, Bool-cases, if_rule, bit_or,
}
use fujinet_msdos.FujiF5.{FujiBus}
use fujinet_msdos.Driver.State.{SysReq, failed, unknown_cmd}
use fujinet_msdos.Driver.Dispatch.{
  command_of, done_bit, max_command, Command, init, output, output_flush, output_status, dev_open,
  dev_close,
}
use fujinet_msdos.Printer.{
  Printer, flush_prn_buf, is_due, is_idle, prn_buf_add, timer_tick, idle_flush, printer_output_cmd,
  printer_flush_cmd, int17, install_timer_handler, printer_command, printer_interrupt,
}
use fujinet_msdos.Printer.Stream.{
  IsPrinter, Carries, stream, flush_prn_buf-Flushed, prn_buf_add-Added,
}

-- The entries of the driver: a request of DOS, interrupt 17h with AH and AL, a tick of the timer with
-- the flag of DOS, and the idle interrupt.
pub data Event : Type 0 where
  request : SysReq → Event
  bios : ℕ → ℕ → Event
  tick : Option ℕ → Event
  idle : Event

-- What the driver accepts of a request, by its command and its final status.
pub accepted : Command → ℕ → SysReq → Bytes
accepted output status req = if status == done_bit then get_or req.buffer 0 0 ∷ [] else []
accepted _ status req = []

accepted_unknown :
    (k : Command) (req : SysReq) → accepted k (bit_or (failed unknown_cmd) done_bit) req ≡ []
unfolding accepted
accepted_unknown output req = refl
accepted_unknown _ req = refl

module _ {W : Type 0} (bus : FujiBus W) (version : ℕ) where
  -- An entry of the driver: the characters that it accepts, and the driver after it.
  pub enter : Event → Printer W → Bytes × Printer W
  enter (request req) p =
      let (req', p') = printer_interrupt bus version req p in
      (accepted (command_of req.command) req'.status req, p')
  enter (bios ah al) p =
      (if (ah == 0) && (prn_buf_add bus al p).0 then al ∷ [] else [], (int17 bus ah al p).1)
  enter (tick indos) p = ([], timer_tick bus indos p)
  enter idle p = ([], idle_flush bus p)

  pub enter_all : List Event → Printer W → Bytes × Printer W
  enter_all [] p = ([], p)
  enter_all (e ∷ es) p = let (c, p1) = enter e p in let (cs, p2) = enter_all es p1 in (c ++ cs, p2)

module _ {W : Type 0} (bus : FujiBus W) (sent : W → Bytes) (carries : Carries bus sent) where
  -- What an entry accepts, and the driver after it.
  pub record Kept (p : Printer W) (r : Bytes × Printer W) : Type 0 where
    pub stream_is : stream sent r.1 ≡ stream sent p ++ r.0
    pub is_printer : IsPrinter r.1
    pub buffering_is : r.1.buffering_enabled ≡ true

  nothing-Kept : (p : Printer W) → IsPrinter p → p.buffering_enabled ≡ true → Kept p ([], p)
  nothing-Kept p v on = record { stream_is = sym (append-nil _); is_printer = v; buffering_is = on }

  flushed-Kept :
      (p : Printer W)
      → IsPrinter p
      → p.buffering_enabled ≡ true
      → Kept p ([], (flush_prn_buf bus p).1)
  flushed-Kept p v on =
      let f = flush_prn_buf-Flushed bus sent carries p v in
      record {
        stream_is = f.same_stream ∙ sym (append-nil _);
        is_printer = f.is_printer;
        buffering_is = f.buffering_is ∙ on;
      }

  added-Kept :
      (c : ℕ) (p : Printer W)
      → IsPrinter p
      → p.buffering_enabled ≡ true
      → Kept p (if (prn_buf_add bus c p).0 then c ∷ [] else [], (prn_buf_add bus c p).1)
  added-Kept c p v on =
      let a = prn_buf_add-Added bus sent carries c p v in
      record {
        stream_is = a.stream_is on;
        is_printer = a.is_printer;
        buffering_is = a.buffering_is ∙ on;
      }

  output-Kept :
      (req : SysReq) (p : Printer W)
      → IsPrinter p
      → p.buffering_enabled ≡ true
      → Kept p (
        if bit_or (printer_output_cmd bus req p).0 done_bit == done_bit
            then get_or req.buffer 0 0 ∷ []
            else [],
        (printer_output_cmd bus req p).1,
      )
  unfolding printer_output_cmd
  output-Kept req p v on =
      let c = get_or req.buffer 0 0 in
      let k = added-Kept c p v on in
      elim (Bool-cases (prn_buf_add bus c p).0) [
        | inl good ↦ rw (printer_output_cmd, good) (rw good at k)
        | inr bad ↦ rw (printer_output_cmd, bad) (rw bad at k)
      ]

  timer_tick-Kept :
      (indos : Option ℕ) (p : Printer W)
      → IsPrinter p
      → p.buffering_enabled ≡ true
      → Kept p ([], timer_tick bus indos p)
  unfolding timer_tick
  timer_tick-Kept indos p v on =
      let p1 = record p { timer_counter = u16 (p.timer_counter + 1) } in
      let f = flushed-Kept p1 (record { size_is = v.size_is; within = v.within }) on in
      let same = nothing-Kept p v on in
      let flushed = (flush_prn_buf bus p1).1 in
      let sent_now = record flushed { last_activity = flushed.timer_counter } in
      let later = record p1 { flush_pending = true } in
      if_rule (λ q. Kept p ([], q)) (is_due p1) (if is_idle indos then sent_now else later) p1
        (λ late.
          if_rule (λ q. Kept p ([], q)) (is_idle indos) sent_now later
            (λ idle. record {
              stream_is = f.stream_is;
              is_printer = record { size_is = f.is_printer.size_is; within = f.is_printer.within };
              buffering_is = f.buffering_is;
            })
            (λ busy. record {
              stream_is = same.stream_is;
              is_printer = record { size_is = v.size_is; within = v.within };
              buffering_is = on;
            }))
        (λ soon. record {
          stream_is = same.stream_is;
          is_printer = record { size_is = v.size_is; within = v.within };
          buffering_is = on;
        })

  command-Kept :
      (k : Command) (version : ℕ) (req : SysReq) (p : Printer W)
      → 3 ≤ version
      → IsPrinter p
      → p.buffering_enabled ≡ true
      → Kept p (
        accepted k (bit_or (printer_command bus version k req p).0 done_bit) req,
        (printer_command bus version k req p).1,
      )
  unfolding accepted printer_command printer_flush_cmd install_timer_handler
  command-Kept init version req p new v on = record {
    stream_is = sym (append-nil _);
    is_printer = record { size_is = v.size_is; within = v.within };
    buffering_is = ground arith;
  }
  command-Kept output version req p new v on = output-Kept req p v on
  command-Kept output_flush version req p new v on = flushed-Kept p v on
  command-Kept dev_close version req p new v on = flushed-Kept p v on
  command-Kept output_status version req p new v on = nothing-Kept p v on
  command-Kept dev_open version req p new v on = nothing-Kept p v on
  command-Kept _ version req p new v on = nothing-Kept p v on

  bios-Kept :
      (ah al : ℕ) (p : Printer W)
      → IsPrinter p
      → p.buffering_enabled ≡ true
      → Kept p (enter bus 0 (bios ah al) p)
  unfolding enter int17
  bios-Kept ah al p v on = elim (Bool-cases (ah == 0)) [
    | inl prints ↦ rw (enter, int17, prints) (added-Kept al p v on)
    | inr asks ↦ rw (enter, int17, asks) (nothing-Kept p v on)
  ]

  enter-Kept :
      (version : ℕ) (e : Event) (p : Printer W)
      → 3 ≤ version
      → IsPrinter p
      → p.buffering_enabled ≡ true
      → Kept p (enter bus version e p)
  unfolding enter printer_interrupt idle_flush
  enter-Kept version (request req) p new v on = elim (Bool-cases (ltb max_command req.command)) [
    | inl beyond ↦ rw (beyond, accepted_unknown (command_of req.command) req) (nothing-Kept p v on)
    | inr within ↦ rw within (command-Kept (command_of req.command) version req p new v on)
  ]
  enter-Kept version (bios ah al) p new v on = bios-Kept ah al p v on
  enter-Kept version (tick indos) p new v on = timer_tick-Kept indos p v on
  enter-Kept version idle p new v on =
      let f =
        flushed-Kept (record p { flush_pending = false })
          (record { size_is = v.size_is; within = v.within }) on in
      record { stream_is = f.stream_is; is_printer = f.is_printer; buffering_is = f.buffering_is }

  -- A sequence of entries, over a bus with such a `sent`.
  pub enter_all-Kept :
      (version : ℕ) (es : List Event) (p : Printer W)
      → 3 ≤ version
      → IsPrinter p
      → p.buffering_enabled ≡ true
      → Kept p (enter_all bus version es p)
  unfolding enter_all
  enter_all-Kept version [] p new v on = nothing-Kept p v on
  enter_all-Kept version (e ∷ es) p new v on =
      let k = enter-Kept version e p new v on in
      let rest =
        enter_all-Kept version es (enter bus version e p).1 new k.is_printer k.buffering_is in
      record {
        stream_is =
            rest.stream_is
            ∙ ap (λ t. t ++ (enter_all bus version es (enter bus version e p).1).0) k.stream_is
            ∙ append_assoc (stream sent p) (enter bus version e p).0 _;
        is_printer = rest.is_printer;
        buffering_is = rest.buffering_is;
      }
