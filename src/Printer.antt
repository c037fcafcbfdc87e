-- ===== src/Printer.antt =====
-- printer/commands.c: the printer driver, which gathers characters and sends them in one request. The
-- commands, interrupt 17h, the timer and the idle interrupt of DOS are its entries; each of them runs as a
-- whole here, one after the other.
pub mod Stream
pub mod Entries
pub mod Requests
pub mod Timer
pub mod Refusal
mod Tests
use fujinet_msdos.Base.{
  ℕ, ◌+◌, ◌-◌, ◌*◌, ◌≤◌, ◌≡◌, Bool, true, false, not, ◌&&◌, Option, none, some, List, [], ◌∷◌,
  Bytes, u16, ltb, leb, ◌==◌, if◌then◌else◌, bit_or, get_or, set, take, replicate,
}
use fujinet_msdos.FujiF5.{FujiBus}
use fujinet_msdos.Driver.State.{SysReq, failed, op_complete, not_ready, unknown_cmd}
use fujinet_msdos.Driver.Dispatch.{
  Command, init, output, output_status, output_flush, dev_open, dev_close, command_of, done_bit,
  max_command,
}

abbrev pub prn_buf_size : ℕ
prn_buf_size = 255

abbrev pub prn_buf_flush : ℕ
prn_buf_flush = 250

-- 18 ticks a second for 5 seconds.
abbrev pub auto_flush_ticks : ℕ
auto_flush_ticks = 18 * 5

-- FUJI_DEVICEID_PRINTER.
abbrev pub printer_device : ℕ
printer_device = 0x40

-- The file-scope variables.
pub record Printer (W : Type 0) : Type 0 where
  pub world : W
  pub prn_buf : Bytes
  pub prn_buf_len : ℕ
  pub timer_counter : ℕ
  pub last_activity : ℕ
  pub flush_pending : Bool
  pub buffering_enabled : Bool

-- The interrupts are installed; without DOS 3 there is no buffering.
pub install_timer_handler : {W : Type 0} → ℕ → Printer W → Printer W
install_timer_handler version p = record p {
  buffering_enabled = leb 3 version;
  timer_counter = 0;
  last_activity = 0;
  flush_pending = false;
}

-- The character behind those that are in the buffer.
pub append_char : {W : Type 0} → ℕ → Printer W → Printer W
append_char c p = record p {
  prn_buf = set p.prn_buf p.prn_buf_len c;
  prn_buf_len = p.prn_buf_len + 1;
}

-- The ticks since the last character.
abbrev pub age : {W : Type 0} → Printer W → ℕ
age p = u16 (p.timer_counter + 65536 - p.last_activity)

-- Characters have waited for long enough.
pub is_due : {W : Type 0} → Printer W → Bool
is_due p = ltb 0 p.prn_buf_len && leb auto_flush_ticks (age p)

-- What the flag of DOS says, where its address is known.
pub is_idle : Option ℕ → Bool
is_idle none = false
is_idle (some flag) = flag == 0

-- `prn_buf` after `memset`.
pub clear_buffer : Bytes
clear_buffer = replicate prn_buf_size 0

module _ {W : Type 0} (bus : FujiBus W) where
  -- The result of the request counts as success unless it is 0.
  pub flush_prn_buf : Printer W → Bool × Printer W
  flush_prn_buf p =
      let (reply, w) =
        bus.write_call p.world printer_device b'W' 0 0 0 (take p.prn_buf_len p.prn_buf) in
      let emptied = record p { world = w; prn_buf_len = 0; prn_buf = clear_buffer } in
      if p.prn_buf_len == 0
      then (true, p)
      else if reply == 0
      then (false, record p { world = w })
      else (true, emptied)

  -- With room in the buffer.
  pub put_char : ℕ → Printer W → Bool × Printer W
  put_char c p =
      let p1 = append_char c p in
      let p2 = record p1 { last_activity = p1.timer_counter; flush_pending = false } in
      if not p1.buffering_enabled
      then flush_prn_buf p1
      else if leb prn_buf_flush p2.prn_buf_len
      then (true, (flush_prn_buf p2).1)
      else (true, p2)

  pub prn_buf_add : ℕ → Printer W → Bool × Printer W
  prn_buf_add c p =
      let (ok, p1) = flush_prn_buf p in
      if leb prn_buf_size p.prn_buf_len
      then (if ok then put_char c p1 else (false, p1))
      else put_char c p

  -- The timer interrupt.
  pub timer_tick : Option ℕ → Printer W → Printer W
  timer_tick indos p =
      let p1 = record p { timer_counter = u16 (p.timer_counter + 1) } in
      let flushed = (flush_prn_buf p1).1 in
      if is_due p1
      then (if is_idle indos
          then record flushed { last_activity = flushed.timer_counter }
          else record p1 { flush_pending = true })
      else p1

  -- The idle interrupt of DOS.
  pub idle_flush : Printer W → Printer W
  idle_flush p = (flush_prn_buf (record p { flush_pending = false })).1

  pub printer_output_cmd : SysReq → Printer W → ℕ × Printer W
  printer_output_cmd req p =
      let (ok, p1) = prn_buf_add (get_or req.buffer 0 0) p in
      (if ok then op_complete else failed not_ready, p1)

  -- Output_flush_cmd and Dev_close_cmd.
  pub printer_flush_cmd : Printer W → ℕ × Printer W
  printer_flush_cmd p = (op_complete, (flush_prn_buf p).1)

  -- Interrupt 17h, by the function in AH; the result of `prn_buf_add` is not looked at.
  pub int17 : ℕ → ℕ → Printer W → ℕ × Printer W
  int17 ah al p =
      if ah == 0 then (0x9000, (prn_buf_add al p).1) else (if leb ah 2 then 0x9000 else 0, p)

  -- The commands of the table. What Init_cmd does to the driver is `install_timer_handler`; the version
  -- is that of DOS.
  pub printer_command : ℕ → Command → SysReq → Printer W → ℕ × Printer W
  printer_command version init req p = (op_complete, install_timer_handler version p)
  printer_command version output req p = printer_output_cmd req p
  printer_command version output_status req p = (op_complete, p)
  printer_command version output_flush req p = printer_flush_cmd p
  printer_command version dev_open req p = (op_complete, p)
  printer_command version dev_close req p = printer_flush_cmd p
  printer_command version _ req p = (unknown_cmd, p)

  -- `Interrupt`: the request with its status, and the driver.
  pub printer_interrupt : ℕ → SysReq → Printer W → SysReq × Printer W
  unfolding command_of
  printer_interrupt version req p =
      let (status, p1) = printer_command version (command_of req.command) req p in
      if ltb max_command req.command
      then (record req { status = bit_or (failed unknown_cmd) done_bit }, p)
      else (record req { status = bit_or status done_bit }, p1)
