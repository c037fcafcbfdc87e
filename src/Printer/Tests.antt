-- ===== src/Printer/Tests.antt =====
-- The printer driver at concrete inputs: a bus that records what it is given, and the older driver.
use fujinet_msdos.Base.{
  ℕ, ◌≡◌, ◌<◌, refl, true, false, none, some, List, [], ◌∷◌, ◌++◌, Bytes, arith, replicate,
}
use fujinet_msdos.Nio.Sample.{peer_port, fresh}
use fujinet_msdos.FujiF5.{FujiBus, intf5}
use fujinet_msdos.Driver.State.{SysReq, op_complete}
use fujinet_msdos.Printer.{
  Printer, flush_prn_buf, append_char, clear_buffer, put_char, prn_buf_add, idle_flush,
  printer_output_cmd,
}
use fujinet_msdos.Printer.Entries.{Event, request, bios, tick, idle}
use fujinet_msdos.Printer.Requests.{Logged, enter_all-Logged}
use fujinet_msdos.Printer.Timer.{idle_ticks, idle_ticks_flush}
use fujinet_msdos.Printer.Refusal.{printer_output_cmd-intf5}

abbrev recorder : FujiBus Bytes
recorder = record {
  none_call = λ w device command. (b'C', w);
  read_call = λ w device command fields aux12 aux34 size buffer. (b'C', buffer, w);
  write_call = λ w device command fields aux12 aux34 content. (b'C', w ++ content);
}

-- `H` waits in the buffer, and the timer is about to wrap.
abbrev waiting : {W : Type 0} → W → Printer W
waiting w = record {
  world = w;
  prn_buf = b'H' ∷ replicate 254 0;
  prn_buf_len = 1;
  timer_counter = 65535;
  last_activity = 65530;
  flush_pending = false;
  buffering_enabled = true;
}

abbrev print_char : ℕ → SysReq
print_char c = record {
  length = 22;
  unit = 0;
  command = 8;
  status = 0;
  buffer = c ∷ [];
  count = 1;
  start_sector = 0;
  start_sector_32 = 0;
  return_info = 0;
  bpb = none;
  unit_code = 0;
}

abbrev entries : List Event
entries = request (print_char b'i') ∷ tick (some 0) ∷ bios 0 b'!' ∷ idle ∷ []

idle_flush_test :
    (idle_flush recorder (printer_output_cmd recorder (print_char b'i') (waiting [])).1).world
    ≡ b'H' ∷ b'i' ∷ []
unfolding idle_flush printer_output_cmd prn_buf_add put_char append_char flush_prn_buf clear_buffer
idle_flush_test = refl

enter_all-Logged_example : Logged (intf5 peer_port) 3 entries (waiting (fresh []).line.world)
enter_all-Logged_example =
    enter_all-Logged (intf5 peer_port) 3 entries (waiting (fresh []).line.world) (omega arith)
      (record { size_is = refl; within = omega arith }) refl

idle_ticks_flush_example : (idle_ticks recorder 100 (waiting [])).prn_buf_len ≡ 0
idle_ticks_flush_example =
    idle_ticks_flush recorder (λ w content. omega arith) 100 (waiting [])
      (record { timer_lt = omega arith; activity_lt = omega arith }) (omega arith)

printer_output_cmd-intf5_example :
    ((printer_output_cmd (intf5 peer_port) (print_char b'i') (waiting (fresh []).line.world)).0
      ≡ op_complete)
    × ((printer_output_cmd
          (intf5 peer_port)
          (print_char b'i')
          (waiting (fresh []).line.world)).1.prn_buf_len
        < 250)
    × ((flush_prn_buf (intf5 peer_port) (waiting (fresh []).line.world)).1.prn_buf_len ≡ 0)
printer_output_cmd-intf5_example =
    printer_output_cmd-intf5 peer_port (print_char b'i') (waiting (fresh []).line.world)
