-- ===== src/FujiF5.antt =====
-- The requests of the programs to the devices: `fujiF5` of include/fuji_firmware.h, a software interrupt,
-- and the function of the older driver that answers it, `intf5` of sys/intf5.c.
use fujinet_msdos.Base.{ℕ, ◌/◌, ◌%◌, Bool, Option, none, some, Bytes, if◌then◌else◌, length}
use fujinet_msdos.Nio.Port.{Port}
use fujinet_msdos.Fujicom.{BusCall, content_of, fuji_bus_call}

-- The three directions of a request, over a world `W`: device, command, the kind of the fields, the
-- two fields, and the data. A read is given the length of its buffer and what is in it, and gives what
-- is in it afterwards.
pub record FujiBus (W : Type 0) : Type 0 where
  pub none_call : W → ℕ → ℕ → ℕ × W
  pub read_call : W → ℕ → ℕ → ℕ → ℕ → ℕ → ℕ → Bytes → ℕ × Bytes × W
  pub write_call : W → ℕ → ℕ → ℕ → ℕ → ℕ → Bytes → ℕ × W

-- The registers of a request as the arguments of `fuji_bus_call`.
pub f5_call : ℕ → ℕ → ℕ → ℕ → ℕ → Option Bytes → ℕ → BusCall
f5_call device command fields aux12 aux34 content size = record {
  device = device;
  fuji_cmd = command;
  fields = fields;
  aux1 = aux12 % 256;
  aux2 = aux12 / 256 % 256;
  aux3 = aux34 % 256;
  aux4 = aux34 / 256 % 256;
  data_in = content;
  data_length = size;
}

-- `success ? 'C' : 'E'`.
abbrev pub f5_reply : Bool → ℕ
f5_reply success = if success then b'C' else b'E'

-- `intf5` of the older driver.
unfoldable pub intf5 : {W : Type 0} → Port W → FujiBus W
intf5 port = record {
  none_call = λ w device command.
      let done = fuji_bus_call port (f5_call device command 0 0 0 none 0) none 0 w in
      (f5_reply done.ok, done.world);
  read_call = λ w device command fields aux12 aux34 size buffer.
      let done =
        fuji_bus_call port (f5_call device command fields aux12 aux34 none 0) (some buffer) size
          w in
      (f5_reply done.ok, content_of done.reply, done.world);
  write_call = λ w device command fields aux12 aux34 content.
      let call = f5_call device command fields aux12 aux34 (some content) (length content) in
      let done = fuji_bus_call port call none 0 w in (f5_reply done.ok, done.world);
}
