-- ===== src/Printer/Refusal.antt =====
-- The printer driver on interrupt F5, whose results are `C` and `E`.
use fujinet_msdos.Base.{ℕ, ◌<◌, ◌≡◌, ◌≢◌, Bool, true, false, arith, take, get_or}
use fujinet_msdos.Nio.Port.{Port}
use fujinet_msdos.FujiF5.{f5_reply, intf5}
use fujinet_msdos.Driver.State.{SysReq, op_complete}
use fujinet_msdos.Printer.{
  Printer, prn_buf_flush, flush_prn_buf, append_char, put_char, prn_buf_add, printer_output_cmd,
}
use fujinet_msdos.Printer.Timer.{Answers}

module _ {W : Type 0} (port : Port W) where
  f5_reply_ne : (b : Bool) → f5_reply b ≢ 0
  f5_reply_ne true = omega arith
  f5_reply_ne false = omega arith

  pub intf5-Answers : Answers (intf5 port)
  unfolding intf5
  intf5-Answers w content = f5_reply_ne _

  abbrev Emptied : Bool × Printer W → Type 0
  Emptied r = (r.0 ≡ true) × (r.1.prn_buf_len ≡ 0)

  flush_prn_buf-Emptied : (p : Printer W) → Emptied (flush_prn_buf (intf5 port) p)
  unfolding flush_prn_buf
  flush_prn_buf-Emptied p = ground (arith, intf5-Answers p.world (take p.prn_buf_len p.prn_buf))

  abbrev Accepted : Bool × Printer W → Type 0
  Accepted r = (r.0 ≡ true) × (r.1.prn_buf_len < prn_buf_flush)

  put_char-Accepted : (c : ℕ) (p : Printer W) → Accepted (put_char (intf5 port) c p)
  unfolding put_char append_char
  put_char-Accepted c p =
      let p1 = append_char c p in
      let p2 = record p1 { last_activity = p1.timer_counter; flush_pending = false } in
      ground (arith, flush_prn_buf-Emptied p1, flush_prn_buf-Emptied p2)

  prn_buf_add-Accepted : (c : ℕ) (p : Printer W) → Accepted (prn_buf_add (intf5 port) c p)
  unfolding prn_buf_add
  prn_buf_add-Accepted c p = ground (
    arith,
    flush_prn_buf-Emptied p,
    put_char-Accepted c p,
    put_char-Accepted c (flush_prn_buf (intf5 port) p).1,
  )

  -- Over interrupt F5 of the older driver, whatever the port does, the output command never
  -- refuses a character and leaves fewer than 250 in the buffer, and a flush empties the buffer.
  pub printer_output_cmd-intf5 :
      (req : SysReq) (p : Printer W)
      → ((printer_output_cmd (intf5 port) req p).0 ≡ op_complete)
        × ((printer_output_cmd (intf5 port) req p).1.prn_buf_len < prn_buf_flush)
        × ((flush_prn_buf (intf5 port) p).1.prn_buf_len ≡ 0)
  unfolding printer_output_cmd
  printer_output_cmd-intf5 req p =
      ground (arith, prn_buf_add-Accepted (get_or req.buffer 0 0) p, flush_prn_buf-Emptied p)
