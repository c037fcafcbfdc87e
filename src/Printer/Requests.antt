-- ===== src/Printer/Requests.antt =====
-- The requests that the printer driver makes: the run of its entries over a bus with a log.
use fujinet_msdos.Base.{
  ℕ, ◌≤◌, ◌≡◌, ◌≢◌, refl, sym, ap, ◌∙◌, true, false, List, [], ◌∷◌, ◌++◌, Bytes, arith, ◌==◌,
  if◌then◌else◌, take, Bool-cases, inl, inr,
}
use mathlib.Core.List.{append-nil, append_assoc}
use fujinet_msdos.FujiF5.{FujiBus}
use fujinet_msdos.Printer.{Printer, printer_device}
use fujinet_msdos.Printer.Stream.{IsPrinter, Carries}
use fujinet_msdos.Printer.Entries.{Event, enter_all, enter_all-Kept}

-- A request to the printer: its content and what it was answered with.
pub record PrintRequest : Type 0 where
  pub content : Bytes
  pub reply : ℕ

-- A bus that also keeps a log of the requests that write.
pub logged : {W : Type 0} → FujiBus W → FujiBus (List PrintRequest × W)
logged bus = record {
  none_call = λ (log, w) device command.
      let (reply, w') = bus.none_call w device command in (reply, (log, w'));
  read_call = λ (log, w) device command fields aux12 aux34 size buffer.
      let (reply, content, w') = bus.read_call w device command fields aux12 aux34 size buffer in
      (reply, content, (log, w'));
  write_call = λ (log, w) device command fields aux12 aux34 content.
      let (reply, w') = bus.write_call w device command fields aux12 aux34 content in
      (reply, (log ++ record { content = content; reply = reply } ∷ [], w'));
}

-- What those requests carried, one after the other, that were not answered with 0.
pub carried : List PrintRequest → Bytes
carried [] = []
carried (r ∷ log) = let rest = carried log in if r.reply == 0 then rest else r.content ++ rest

carried-append :
    (log : List PrintRequest) (r : PrintRequest)
    → carried (log ++ r ∷ []) ≡ carried log ++ carried (r ∷ [])
unfolding carried
carried-append [] r = refl
carried-append (x ∷ log) r = elim (Bool-cases (x.reply == 0)) [
  | inl undone ↦ rw (carried, undone) (carried-append log r)
  | inr done ↦
      rw (carried, done)
        (ap (λ t. x.content ++ t) (carried-append log r)
          ∙ sym (append_assoc x.content (carried log) (carried (r ∷ []))))
]

carried_done : (r : PrintRequest) → r.reply ≢ 0 → carried (r ∷ []) ≡ r.content
unfolding carried
carried_done r h =
    let done : (r.reply == 0) ≡ false = ground arith in rw (carried, done) (append-nil r.content)

carried_undone : (r : PrintRequest) → r.reply ≡ 0 → carried (r ∷ []) ≡ []
unfolding carried
carried_undone r h = rw (carried, h) refl

logged-Carries : {W : Type 0} (bus : FujiBus W) → Carries (logged bus) (λ s. carried s.0)
unfolding logged
logged-Carries bus = record {
  done = λ (log, w) content h.
      let reply = (bus.write_call w printer_device b'W' 0 0 0 content).0 in
      carried-append log (record { content = content; reply = reply })
      ∙ ap (λ t. carried log ++ t) (carried_done (record { content = content; reply = reply }) h);
  undone = λ (log, w) content h.
      let reply = (bus.write_call w printer_device b'W' 0 0 0 content).0 in
      carried-append log (record { content = content; reply = reply })
      ∙ ap (λ t. carried log ++ t) (carried_undone (record { content = content; reply = reply }) h)
      ∙ append-nil (carried log);
}

-- The driver in front of an empty log.
pub unlogged : {W : Type 0} → Printer W → Printer (List PrintRequest × W)
unlogged p = record {
  world = ([], p.world);
  prn_buf = p.prn_buf;
  prn_buf_len = p.prn_buf_len;
  timer_counter = p.timer_counter;
  last_activity = p.last_activity;
  flush_pending = p.flush_pending;
  buffering_enabled = p.buffering_enabled;
}

-- After the entries: what the requests carried, and behind it what waits.
pub record Logged {W : Type 0} (bus : FujiBus W) (version : ℕ) (es : List Event) (p : Printer W)
    : Type 0 where
  pub all_there :
      carried (enter_all (logged bus) version es (unlogged p)).1.world.0
        ++ take
            (enter_all (logged bus) version es (unlogged p)).1.prn_buf_len
            (enter_all (logged bus) version es (unlogged p)).1.prn_buf
      ≡ take p.prn_buf_len p.prn_buf ++ (enter_all (logged bus) version es (unlogged p)).0
  pub is_printer : IsPrinter (enter_all (logged bus) version es (unlogged p)).1

-- In whatever order the entries of a buffering printer driver run, under DOS 3 or later, over any
-- bus with a log of the requests that write: the contents of the requests that were not answered
-- with 0 - those answered with C, E or N alike, which the driver takes for done - and behind them
-- what waits in the buffer are what waited before and, behind that, the characters that the
-- entries accepted, in their order, none of them lost, doubled or moved on the way to a request;
-- the buffer keeps its size and holds no more than that.
pub enter_all-Logged :
    {W : Type 0} (bus : FujiBus W) (version : ℕ) (es : List Event) (p : Printer W)
    → 3 ≤ version
    → IsPrinter p
    → p.buffering_enabled ≡ true
    → Logged bus version es p
unfolding unlogged carried
enter_all-Logged bus version es p new v on =
    let k =
      enter_all-Kept (logged bus) (λ s. carried s.0) (logged-Carries bus) version es (unlogged p)
        new (record { size_is = v.size_is; within = v.within }) on in
    record { all_there = k.stream_is; is_printer = k.is_printer }
