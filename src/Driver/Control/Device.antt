-- ===== src/Driver/Control/Device.antt =====
-- The field `device` of a control block after the call.
use fujinet_msdos.Base.{
  ℕ, ◌≤◌, ◌≡◌, refl, Option, none, some, [], ◌∷◌, ◌++◌, Bytes, arith, get_or, length, length-blit,
  blit, get_or-blit, take, drop,
}
use fujinet_msdos.Base.Words.{get_u16le, put_u16le}
use fujinet_msdos.Nio.Codes.{status_ok}
use fujinet_msdos.Nio.Port.{Port, own}
use fujinet_msdos.Nio.Disk.{Done, nio_call, no_response}
use fujinet_msdos.Driver.State.{Driver, max_units, op_complete}
use fujinet_msdos.Driver.Control.{
  Controlled, signature, ioctl_version, fill_query, write_diag, control_state, finish_control,
  nio_handle_control_call, off_status, off_data, off_request_len, off_response_len, max_data,
}

fill_query_device :
    (unit : ℕ) (query : Bytes) → 8 ≤ length query → get_or (fill_query unit query) 7 0 ≡ max_units
unfolding fill_query
fill_query_device unit query h =
    get_or-blit query 1 (signature ++ unit ∷ ioctl_version ∷ max_units ∷ []) 7 6 0 (omega arith)
      (omega arith) h

finish_control_device :
    {W : Type 0} (call : Bytes) (unit : ℕ) (d : Driver W) (r : Done W)
    → 8 ≤ length call
    → get_or (finish_control call unit d r).call 7 0 ≡ max_units
unfolding finish_control write_diag
finish_control_device call unit d r h = fill_query_device unit _ (grind (arith, length-blit))

control_state_device :
    {W : Type 0} (call : Bytes) (unit : ℕ) (d : Driver W)
    → 8 ≤ length call
    → (control_state call unit d).status ≡ op_complete
    → get_or (control_state call unit d).call 7 0 ≡ max_units
unfolding control_state
control_state_device call unit d h e =
    let stored = blit (blit call off_status (status_ok ∷ [])) off_response_len (put_u16le 0) in
    ground (
      arith,
      fill_query_device unit stored (
          rw
            (
              length-blit (blit call off_status (status_ok ∷ [])) off_response_len (put_u16le 0),
              length-blit call off_status (status_ok ∷ []),
            )
            h),
    )

-- After a control call that completes, on a block of at least 8 bytes, the field that named the
-- device holds 8, the number of units, whatever device was called.
pub nio_handle_control_call_device :
    {W : Type 0} (port : Port W) (call : Bytes) (unit : ℕ) (d : Driver W) (c : Controlled W)
    → 8 ≤ length call
    → nio_handle_control_call port call unit d ≡ some c
    → c.status ≡ op_complete
    → get_or c.call 7 0 ≡ max_units
unfolding nio_handle_control_call
nio_handle_control_call_device {W} port call unit d c h e k = go _ refl
  where
    go :
        (r : Option (Done W))
        → nio_call port
            (get_or call 7 0)
            (get_or call 8 0)
            (take (get_u16le call off_request_len) (drop off_data call))
            (own (take max_data (drop off_data call)))
            (get_u16le call off_response_len)
            no_response
            d.nio
          ≡ r
        → get_or c.call 7 0 ≡ max_units
    go none eq = ground (arith, control_state_device call unit d h)
    go (some r) eq =
        ground (arith, control_state_device call unit d h, finish_control_device call unit d r h)
