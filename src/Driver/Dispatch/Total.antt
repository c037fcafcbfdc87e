-- ===== src/Driver/Dispatch/Total.antt =====
-- Every command returns to DOS.
use fujinet_msdos.Base.{ℕ, ◌+◌, ◌<◌, ◌≢◌, Option, none, arith}
use fujinet_msdos.Nio.Port.{Port}
use fujinet_msdos.Driver.Cache.Shape.{IsCache}
use fujinet_msdos.Driver.State.{Driver, SysReq, Reply}
use fujinet_msdos.Driver.Media.Total.{media_check_cmd-ne-none, build_bpb_cmd-ne-none}
use fujinet_msdos.Driver.Ioctl.Total.{handle_ioctl_buffer-ne-none}
use fujinet_msdos.Driver.Input.Shrink.{HasSizes}
use fujinet_msdos.Driver.Input.Served.{input_cmd-Served}
use fujinet_msdos.Driver.Output.Total.{output_cmd-Wrote}
use fujinet_msdos.Driver.Dispatch.{
  Command, init, media_check, build_bpb, ioctl_input, input, output, ioctl_output, run_command,
  command_of, interrupt,
}

module _ {W : Type 0} (port : Port W) (fuel : ℕ)
    (init_cmd : SysReq → Driver W → Option (Reply W)) where
  run_command-ne-none :
      (c : Command) (req : SysReq) (d : Driver W)
      → init_cmd req d ≢ none
      → HasSizes d
      → IsCache d.cache
      → req.count + (d.batch_sectors + d.readahead_sectors) < fuel
      → run_command port fuel init_cmd c req d ≢ none
  unfolding run_command
  run_command-ne-none init req d i v vc h e = i e
  run_command-ne-none media_check req d i v vc h e = media_check_cmd-ne-none port req d e
  run_command-ne-none build_bpb req d i v vc h e = build_bpb_cmd-ne-none port req d e
  run_command-ne-none ioctl_input req d i v vc h e = handle_ioctl_buffer-ne-none port req d e
  run_command-ne-none ioctl_output req d i v vc h e = handle_ioctl_buffer-ne-none port req d e
  run_command-ne-none input req d i v vc h e =
      let (r, k, _) = input_cmd-Served port fuel req d v vc h in cc
  run_command-ne-none output req d i v vc h e =
      let (r, k, _) = output_cmd-Wrote port fuel req d v.batch_pos (omega arith) in cc
  run_command-ne-none _ req d i v vc h e = cc

  -- `Interrupt` returns from every command, whatever the peer sends, when the initialisation
  -- command returns, both request sizes are 1 to 16, the cache has 56 slots with the next place
  -- among them, and the fuel exceeds the count plus the two sizes.
  pub interrupt-ne-none :
      (req : SysReq) (d : Driver W)
      → init_cmd req d ≢ none
      → HasSizes d
      → IsCache d.cache
      → req.count + (d.batch_sectors + d.readahead_sectors) < fuel
      → interrupt port fuel init_cmd req d ≢ none
  unfolding interrupt
  interrupt-ne-none req d i v vc h e =
      let k = run_command-ne-none (command_of req.command) req d i v vc h in ground arith
