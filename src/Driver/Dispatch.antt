-- ===== src/Driver/Dispatch.antt =====
-- `Interrupt` of sys/dispatch.c over the commands of sys/commands_nio.c. `init_cmd`, which parses the
-- command line and probes the port, is a parameter; so is what `MAXCOMMAND` leaves to it.
pub mod Total
pub mod Unknown
use fujinet_msdos.Base.{◌>>=◌, ℕ, Option, none, some, ltb, ◌==◌, if◌then◌else◌, bit_or}
use fujinet_msdos.Nio.Port.{Port}
use fujinet_msdos.Driver.State.{Driver, SysReq, Reply, failed, unknown_cmd, general_fail}
use fujinet_msdos.Driver.Media.{media_check_cmd, build_bpb_cmd}
use fujinet_msdos.Driver.Ioctl.{handle_ioctl_buffer}
use fujinet_msdos.Driver.Input.{input_cmd}
use fujinet_msdos.Driver.Output.{output_cmd}

-- DONE_BIT and MAXCOMMAND.
abbrev pub done_bit : ℕ
done_bit = 0x0100

abbrev pub max_command : ℕ
max_command = 24

-- The commands that do nothing but answer a status; some clear a field of the request. First
-- Input_no_wait_cmd and Input_status_cmd.
pub input_no_wait_cmd : {W : Type 0} → SysReq → Driver W → Reply W
input_no_wait_cmd req d = record { status = unknown_cmd; req = req; driver = d }

pub input_flush_cmd : {W : Type 0} → SysReq → Driver W → Reply W
input_flush_cmd req d = record { status = failed general_fail; req = req; driver = d }

pub output_verify_cmd : {W : Type 0} → SysReq → Driver W → Reply W
output_verify_cmd req d = record {
  status = failed general_fail;
  req = record req { count = 0 };
  driver = d;
}

-- Get_l_d_map_cmd and Set_l_d_map_cmd.
pub get_l_d_map_cmd : {W : Type 0} → SysReq → Driver W → Reply W
get_l_d_map_cmd req d = record {
  status = failed general_fail;
  req = record req { unit_code = 0 };
  driver = d;
}

-- Output_status_cmd and Output_flush_cmd.
pub output_status_cmd : {W : Type 0} → SysReq → Driver W → Reply W
output_status_cmd req d = record { status = unknown_cmd; req = req; driver = d }

pub dev_open_cmd : {W : Type 0} → SysReq → Driver W → Reply W
dev_open_cmd req d = record { status = failed general_fail; req = req; driver = d }

-- Dev_close_cmd, Remove_media_cmd and Ioctl_cmd.
pub dev_close_cmd : {W : Type 0} → SysReq → Driver W → Reply W
dev_close_cmd req d = record { status = unknown_cmd; req = req; driver = d }

pub unknown_command : {W : Type 0} → SysReq → Driver W → Reply W
unknown_command req d = record { status = unknown_cmd; req = req; driver = d }

pub data Command : Type 0 where
  init media_check build_bpb ioctl_input input input_no_wait input_status input_flush : Command
  output output_verify output_status output_flush ioctl_output dev_open dev_close : Command
  remove_media unknown ioctl get_l_d_map set_l_d_map : Command

-- `dispatchTable`, at the index of the command code.
unfoldable pub command_of : ℕ → Command
command_of c =
    if c == 0
    then init
    else if c == 1
    then media_check
    else if c == 2
    then build_bpb
    else if c == 3
    then ioctl_input
    else if c == 4
    then input
    else if c == 5
    then input_no_wait
    else if c == 6
    then input_status
    else if c == 7
    then input_flush
    else if c == 8
    then output
    else if c == 9
    then output_verify
    else if c == 10
    then output_status
    else if c == 11
    then output_flush
    else if c == 12
    then ioctl_output
    else if c == 13
    then dev_open
    else if c == 14
    then dev_close
    else if c == 15
    then remove_media
    else if c == 19
    then ioctl
    else if c == 23
    then get_l_d_map
    else if c == 24
    then set_l_d_map
    else unknown

module _ {W : Type 0} (port : Port W) (fuel : ℕ)
    (init_cmd : SysReq → Driver W → Option (Reply W)) where
  pub run_command : Command → SysReq → Driver W → Option (Reply W)
  run_command init req d = init_cmd req d
  run_command media_check req d = media_check_cmd port req d
  run_command build_bpb req d = build_bpb_cmd port req d
  run_command ioctl_input req d = handle_ioctl_buffer port req d
  run_command input req d = input_cmd port fuel req d
  run_command input_flush req d = some (input_flush_cmd req d)
  run_command output req d = output_cmd port fuel req d
  run_command output_verify req d = some (output_verify_cmd req d)
  run_command ioctl_output req d = handle_ioctl_buffer port req d
  run_command dev_open req d = some (dev_open_cmd req d)
  run_command get_l_d_map req d = some (get_l_d_map_cmd req d)
  run_command set_l_d_map req d = some (get_l_d_map_cmd req d)
  run_command input_no_wait req d = some (input_no_wait_cmd req d)
  run_command input_status req d = some (input_no_wait_cmd req d)
  run_command output_status req d = some (output_status_cmd req d)
  run_command output_flush req d = some (output_status_cmd req d)
  run_command dev_close req d = some (dev_close_cmd req d)
  run_command remove_media req d = some (dev_close_cmd req d)
  run_command ioctl req d = some (dev_close_cmd req d)
  run_command unknown req d = some (unknown_command req d)

  -- The request as DOS finds it, and the driver.
  pub interrupt : SysReq → Driver W → Option (SysReq × Driver W)
  unfolding run_command command_of
  interrupt req d =
      let called : Option (SysReq × Driver W) = (do
        r ← run_command (command_of req.command) req d
        some (record (r.req) { status = bit_or r.status done_bit }, r.driver)) in
      if ltb max_command req.command
      then some (record req { status = bit_or (failed unknown_cmd) done_bit }, d)
      else called
