-- ===== src/Driver/Control/Total.antt =====
-- `nio_handle_control_call` returns.
use fujinet_msdos.Base.{ℕ, ◌≢◌, none, Bytes, arith, get_or, take, drop}
use fujinet_msdos.Base.Words.{get_u16le}
use fujinet_msdos.Nio.Port.{Port, own}
use fujinet_msdos.Nio.Disk.{no_response}
use fujinet_msdos.Nio.Disk.Total.{nio_call_returns}
use fujinet_msdos.Driver.State.{Driver}
use fujinet_msdos.Driver.Control.{
  nio_handle_control_call, off_data, max_data, off_response_len, off_request_len,
}

pub nio_handle_control_call-ne-none :
    {W : Type 0} (port : Port W) (call : Bytes) (unit : ℕ) (d : Driver W)
    → nio_handle_control_call port call unit d ≢ none
unfolding nio_handle_control_call
nio_handle_control_call-ne-none port call unit d h =
    let (r, e, c) =
      nio_call_returns port (get_or call 7 0) (get_or call 8 0)
        (take (get_u16le call off_request_len) (drop off_data call))
        (own (take max_data (drop off_data call))) (get_u16le call off_response_len) no_response
        d.nio in
    ground arith
