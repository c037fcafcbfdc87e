-- ===== src/Init/Command.antt =====
-- `Init_cmd` of sys/init.c. What `port_init` does to the hardware, `check_uart`, which looks for the chip and
-- prints what it is, `find_drive_letter`, which prints, `setf5`, which patches a vector, and the messages are
-- not modelled; none of them has a loop or changes the driver's state. The linker's `driver_end`, the C library's functions over the
-- environment, and `strtoul` and `atoi` with their 16 bits, are parameters.
use fujinet_msdos.Base.{
  ℕ, ◌+◌, ◌-◌, ◌*◌, ◌<◌, ◌≡◌, inl, inr, refl, ap, sym, ◌∙◌, zero, suc, arith, Bool, not, Option,
  none, some, List, [], ◌∷◌, Bytes, u16, get_or, replicate, if◌then◌else◌, Option-cases,
}
use fujinet_msdos.Base.Words.{get_u16le}
use fujinet_msdos.Nio.Port.{Port}
use fujinet_msdos.Nio.Disk.{Nio, DiskInfo, nio_disk_info}
use fujinet_msdos.Nio.Disk.Total.{nio_disk-ne-none}
use fujinet_msdos.Fujicom.{BusCall, content_of, fuji_bus_call}
use fujinet_msdos.Driver.State.{Driver, max_units, op_complete, sector_max_of}
use fujinet_msdos.Driver.Config.{Environment, nio_driver_config_init}
use fujinet_msdos.Driver.Config.Bounds.{nio_driver_config_init-IsConfigured}
use fujinet_msdos.Driver.Input.Shrink.{HasSizes}
use fujinet_msdos.Init.Port.{Numerals, PortSetting, fujicom_init, fujicom_init-Speed}
use fujinet_msdos.Init.{ConfigEnv, parse_config, used, environ_of}

-- What DOS finds in the request: the number of units and the end of the driver in its segment, 0 for the
-- null pointer; and the environment, what `port_init` was called with, and the driver.
pub record InitReply (W : Type 0) : Type 0 where
  pub status : ℕ
  pub num_units : ℕ
  pub end_ptr : ℕ
  pub env : ConfigEnv
  pub serial : PortSetting
  pub driver : Driver W

-- The ends of `Init_cmd`: a return, or the processor's exception in `fujicom_init`.
pub data InitEnd (W : Type 0) : Type 0 where
  divide_error : InitEnd W
  returned : InitReply W → InitEnd W

-- ERROR_BIT.
abbrev pub error_bit : ℕ
error_bit = 0x8000

-- The packed BPB of a floppy disk of 360 KB: sector size, cluster size, reserved sectors, FATs, entries of the
-- root, sectors, media descriptor, sectors of a FAT and of a track, heads, hidden and 32-bit sectors.
abbrev pub floppy_bpb : Bytes
floppy_bpb =
    0 ∷ 2 ∷ 2 ∷ 1 ∷ 0 ∷ 2 ∷ 0x70 ∷ 0 ∷ 0xD0 ∷ 2 ∷ 0xFD ∷ 2 ∷ 0 ∷ 9 ∷ 0 ∷ 2 ∷ 0 ∷ 0 ∷ 0 ∷ 0 ∷ 0 ∷ 0
    ∷ 0 ∷ 0 ∷ 0 ∷ []

-- What the answer of the disk service to `probe_fujinet_nio` leads to.
pub after_probe :
    {W : Type 0} → ConfigEnv → PortSetting → ℕ → Driver W → Option DiskInfo → InitReply W
after_probe env serial driver_end d none = record {
  status = error_bit;
  num_units = 0;
  end_ptr = 0;
  env = env;
  serial = serial;
  driver = d;
}
after_probe env serial driver_end d (some info) = record {
  status = op_complete;
  num_units = max_units;
  end_ptr = u16 (driver_end + 65536 - used env);
  env = env;
  serial = serial;
  driver = record d { bpb_table = replicate max_units floppy_bpb };
}

module _ {W : Type 0} (port : Port W) where
  -- `none` is out of fuel. The byte in front of the value of `FUJI_PORT` is `front`.
  pub init_cmd :
      (List Bytes → Environment) → Numerals → ℕ → ℕ → Bytes → Driver W → Option (InitEnd W)
  init_cmd libc numerals front driver_end config_sys d =
      let env = parse_config config_sys in
      let variables = libc (environ_of env) in
      let d1 = nio_driver_config_init variables d in
      elim (fujicom_init numerals front (variables.getenv "FUJI_BPS")
        (variables.getenv "FUJI_PORT")) [
          | none ↦ some divide_error
          | some serial ↦ elim (nio_disk_info port 1 d1.nio) [
            | none ↦ none
            | some (info, n) ↦
                some (returned (after_probe env serial driver_end (record d1 { nio = n }) info))
          ]
        ]

  -- A call of DOS with AH, CX and DX.
  pub data DosCall : Type 0 where
    dos_call : ℕ → ℕ → ℕ → DosCall

  -- `get_set_time` of the older driver, with what stands on the stack where the time is read to: whether it
  -- failed, the calls of DOS that set the date and the time, and the world.
  pub get_set_time : Bool → Bytes → W → Bool × List DosCall × W
  get_set_time set_flag cur_time w =
      let call : BusCall = record {
        device = 0x45;
        fuji_cmd = 0x9A;
        fields = 0;
        aux1 = 0;
        aux2 = 0;
        aux3 = 0;
        aux4 = 0;
        data_in = none;
        data_length = 0;
      } in
      let got = fuji_bus_call port call (some cur_time) 6 w in
      let tm = content_of got.reply in
      let set_date = dos_call 0x2B (get_or tm 2 0 + 2000) (get_or tm 1 0 * 256 + get_or tm 0 0) in
      let set_time = dos_call 0x2D (get_or tm 3 0 * 256 + get_or tm 4 0) (get_or tm 5 0 * 256) in
      (
        not got.ok,
        if not got.ok then [] else if set_flag then set_date ∷ set_time ∷ [] else [],
        got.world,
      )

-- The two outcomes.
pub data Ready {W : Type 0} (r : InitReply W) : Type 0 where
  given_up : r.status ≡ error_bit → r.num_units ≡ 0 → r.end_ptr ≡ 0 → Ready r
  ready :
      r.status ≡ op_complete
      → r.num_units ≡ max_units
      → ((unit : ℕ) → unit < max_units → sector_max_of (get_or r.driver.bpb_table unit []) ≡ 720)
      → HasSizes r.driver
      → Ready r

get_or-replicate : (n i : ℕ) (a d : Bytes) → i < n → get_or (replicate n a) i d ≡ a
get_or-replicate zero i a d h = absurd (omega arith)
get_or-replicate (suc n) zero a d h = refl
get_or-replicate (suc n) (suc i) a d h = get_or-replicate n i a d (omega arith)

floppy_sectors : sector_max_of floppy_bpb ≡ 720
unfolding sector_max_of get_u16le
floppy_sectors = refl

after_probe-serial :
    {W : Type 0} (env : ConfigEnv) (serial : PortSetting) (driver_end : ℕ) (d : Driver W)
    (info : Option DiskInfo)
    → (after_probe env serial driver_end d info).serial ≡ serial
unfolding after_probe
after_probe-serial env serial driver_end d none = refl
after_probe-serial env serial driver_end d (some info) = refl

after_probe-Ready :
    {W : Type 0} (env : ConfigEnv) (serial : PortSetting) (driver_end : ℕ) (d : Driver W)
    (info : Option DiskInfo)
    → HasSizes d
    → Ready (after_probe env serial driver_end d info)
unfolding after_probe
after_probe-Ready env serial driver_end d none v = given_up refl refl refl
after_probe-Ready env serial driver_end d (some info) v =
    ready refl refl
      (λ unit h.
        ap sector_max_of (get_or-replicate max_units unit floppy_bpb [] h) ∙ floppy_sectors)
      (record {
        batch_pos = v.batch_pos;
        readahead_pos = v.readahead_pos;
        batch_within = v.batch_within;
        readahead_within = v.readahead_within;
      })

-- The speed that the environment asks for is 0, or no number.
pub NoSpeed : Environment → Numerals → Type 0
NoSpeed variables numerals =
    (text : Bytes) × (variables.getenv "FUJI_BPS" ≡ some text) × (numerals.strtoul text 10 ≡ 0)

-- An exception where there is no speed; or else a return in one of the two ways, with a port that is set up
-- as the environment says.
pub data Initialised {W : Type 0} (variables : Environment) (numerals : Numerals) (front : ℕ)
    (i : InitEnd W) : Type 0 where
  no_speed : NoSpeed variables numerals → i ≡ divide_error → Initialised variables numerals front i
  speed :
      (NoSpeed variables numerals → ⊥)
      → (r : InitReply W) → i ≡ returned r
      → fujicom_init numerals front (variables.getenv "FUJI_BPS") (variables.getenv "FUJI_PORT")
        ≡ some r.serial
      → Ready r
      → Initialised variables numerals front i

-- The initialisation, whatever the line in CONFIG.SYS, the environment and the peer are: where
-- FUJI_BPS is set to 0 or to no number, it ends in a division by zero; otherwise it returns, with
-- the port set up as fujicom_init says, and in one of two ways: with an error, no units and a
-- null pointer for the end of the driver; or complete, with 8 units, each of a medium of 720
-- sectors, and with request sizes of 1 to 16 sectors.
pub init_cmd-Initialised :
    {W : Type 0} (port : Port W) (libc : List Bytes → Environment) (numerals : Numerals)
    (front driver_end : ℕ) (config_sys : Bytes) (d : Driver W)
    → (i : InitEnd W) × (init_cmd port libc numerals front driver_end config_sys d ≡ some i)
      × Initialised (libc (environ_of (parse_config config_sys))) numerals front i
unfolding init_cmd NoSpeed
init_cmd-Initialised {W} port libc numerals front driver_end config_sys d =
    let env = parse_config config_sys in
    let variables = libc (environ_of env) in
    let d1 = nio_driver_config_init variables d in
    let v = nio_driver_config_init-IsConfigured variables d in
    let sizes : (n : Nio W) → HasSizes (record d1 { nio = n }) = λ n. record {
      batch_pos = v.batch_pos;
      readahead_pos = v.readahead_pos;
      batch_within = v.batch_within;
      readahead_within = v.readahead_within;
    } in
    elim (fujicom_init-Speed numerals front (variables.getenv "FUJI_BPS")
      (variables.getenv "FUJI_PORT")) [
        | inl (zero_speed, stuck) ↦
            (divide_error, rw (init_cmd, stuck) refl, no_speed zero_speed refl)
        | inr (some_speed, serial, set) ↦ elim (Option-cases (nio_disk_info port 1 d1.nio)) [
          | inl stuck ↦ absurd ((nio_disk-ne-none port 1 0 0 0 0 [] d1.nio).0 stuck)
          | inr ((info, n), e) ↦ (
            returned (after_probe env serial driver_end (record d1 { nio = n }) info),
            rw (init_cmd, set, e) refl,
            speed some_speed (after_probe env serial driver_end (record d1 { nio = n }) info) refl
                (set
                  ∙ ap some
                      (sym (after_probe-serial env serial driver_end (record d1 { nio = n }) info)))
                (after_probe-Ready env serial driver_end (record d1 { nio = n }) info (sizes n)),
          )
        ]
      ]
