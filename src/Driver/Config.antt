-- ===== src/Driver/Config.antt =====
-- `nio_driver_config_init` of sys/commands_nio.c: the environment variables, clamped. `getenv` and
-- `(unsigned) atoi` are the C library's, and are parameters.
pub mod Bounds
use Prim.Native.String.{String}
use fujinet_msdos.Base.{
  ℕ, Bool, true, false, ◌||◌, Option, none, some, Bytes, u8, u16, ltb, ◌==◌, if◌then◌else◌, get_or,
}
use fujinet_msdos.Driver.State.{Driver}

abbrev pub max_batch_sectors : ℕ
max_batch_sectors = 16

-- The two functions of the C library that the configuration calls.
pub record Environment : Type 0 where
  pub getenv : String → Option Bytes
  pub atoi : Bytes → ℕ

module _ (env : Environment) where
  open env use {getenv, atoi}

  pub parse_sector_count : String → ℕ → ℕ
  parse_sector_count name default_value = elim (getenv name) [
    | none ↦ default_value
    | some value ↦
        let count = if ltb (atoi value) 1 then 1 else atoi value in
        u8 (if ltb max_batch_sectors count then max_batch_sectors else count)
  ]

  pub parse_retry_count : String → ℕ → ℕ
  parse_retry_count name default_value = elim (getenv name) [
    | none ↦ default_value
    | some value ↦ u8 (if ltb max_batch_sectors (atoi value) then max_batch_sectors else atoi value)
  ]

  pub parse_flag : String → Bool → Bool
  parse_flag name default_value = elim (getenv name) [
    | none ↦ default_value
    | some value ↦
        let c = get_or value 0 0 in if c == b'0' || (c == b'n') || (c == b'N') then false else true
  ]

  pub parse_timeout_ms : String → ℕ → ℕ
  parse_timeout_ms name default_value = elim (getenv name) [
    | none ↦ default_value
    | some value ↦
        let timeout = if ltb (atoi value) 250 then 250 else atoi value in
        u16 (if ltb 60000 timeout then 60000 else timeout)
  ]

  pub nio_driver_config_init : {W : Type 0} → Driver W → Driver W
  unfolding parse_sector_count parse_retry_count parse_flag parse_timeout_ms
  nio_driver_config_init d = record d {
    batch_sectors = parse_sector_count "FUJI_BATCH_SECTORS" 16;
    readahead_sectors = parse_sector_count "FUJI_READAHEAD_SECTORS" 16;
    io_retries = parse_retry_count "FUJI_IO_RETRIES" 2;
    debug_io = parse_flag "FUJI_DEBUG_IO" false;
    auto_downshift = parse_flag "FUJI_AUTO_DOWNSHIFT" true;
    nio = record (d.nio) {
      transport_retries = parse_retry_count "FUJI_NIO_RETRIES" 2;
      network_timeout_ms = parse_timeout_ms "FUJI_NET_TIMEOUT_MS" 15000;
    };
  }
