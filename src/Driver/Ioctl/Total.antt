-- ===== src/Driver/Ioctl/Total.antt =====
-- `handle_ioctl_buffer` returns.
use fujinet_msdos.Base.{◌≢◌, none, arith}
use fujinet_msdos.Nio.Port.{Port}
use fujinet_msdos.Driver.State.{Driver, SysReq}
use fujinet_msdos.Driver.Control.Total.{nio_handle_control_call-ne-none}
use fujinet_msdos.Driver.Ioctl.{ioctl_nio_call_case, handle_ioctl_buffer}

pub handle_ioctl_buffer-ne-none :
    {W : Type 0} (port : Port W) (req : SysReq) (d : Driver W)
    → handle_ioctl_buffer port req d ≢ none
unfolding handle_ioctl_buffer ioctl_nio_call_case
handle_ioctl_buffer-ne-none port req d h =
    let k = nio_handle_control_call-ne-none port req.buffer req.unit d in ground arith
