-- ===== src/Driver/Control/Accepted.antt =====
-- The two ways in which `nio_handle_control_call` ends.
use fujinet_msdos.Base.{
  ℕ, ◌+◌, ◌≤◌, ◌<◌, ◌≡◌, [], ◌∷◌, arith, length, length-blit, get_or-blit, inl, inr, refl, ◌&&◌,
  ◌||◌, some, Bytes, ltb, ◌==◌, get_or, take, drop, if_rule, Bool-cases,
}
use fujinet_msdos.Base.Words.{get_u16le}
use fujinet_msdos.Nio.Port.{Port, own}
use fujinet_msdos.Nio.Disk.{Done, no_response}
use fujinet_msdos.Nio.Disk.Total.{nio_call_returns}
use fujinet_msdos.Driver.State.{Driver, failed, op_complete, bad_req_len}
use fujinet_msdos.Driver.Control.{
  Controlled, nio_handle_control_call, control_state, finish_control, off_data, max_data,
  fill_query, write_diag, off_response_len, off_request_len, cmd_set_state,
}

-- What a control block has to keep to: request and response of at most 512 bytes each; and for the
-- request to device 0 with command 2 that sets the state, a request that holds the two lengths and the two
-- texts, of at most 255 and 127 bytes.
pub record IsControl (call : Bytes) : Type 0 where
  pub request_fits : get_u16le call 10 ≤ 512
  pub response_fits : get_u16le call 12 ≤ 512
  pub state_fits :
      get_or call 7 0 ≡ 0
      → get_or call 8 0 ≡ 2
      → (get_u16le call 14 ≤ 255)
        × (get_u16le call 16 ≤ 127)
        × (4 + get_u16le call 14 + get_u16le call 16 ≤ get_u16le call 10)

-- The block says `FUJI`, its unit, version 1 and 8 units.
pub Told : ℕ → Bytes → Type 0
Told unit after =
    (i : ℕ)
    → i < 7
    → get_or after (1 + i) 0 ≡ get_or (b'F' ∷ b'U' ∷ b'J' ∷ b'I' ∷ unit ∷ 1 ∷ 8 ∷ []) i 0

-- Complete, or refused with the block and the driver as they were.
pub data Accepted {W : Type 0} (call : Bytes) (unit : ℕ) (d : Driver W) (c : Controlled W)
    : Type 0 where
  complete :
      IsControl call
      → c.status ≡ op_complete
      → (8 ≤ length call → Told unit c.call)
      → Accepted call unit d c
  refused :
      (IsControl call → ⊥)
      → c.status ≡ failed bad_req_len
      → c.call ≡ call
      → c.driver ≡ d
      → Accepted call unit d c

fill_query-Told : (unit : ℕ) (query : Bytes) → 8 ≤ length query → Told unit (fill_query unit query)
unfolding Told fill_query
fill_query-Told unit query h i small =
    get_or-blit query 1 (b'F' ∷ b'U' ∷ b'J' ∷ b'I' ∷ unit ∷ 1 ∷ 8 ∷ []) (1 + i) i 0 (omega arith)
      small (omega arith)

control_state-Accepted :
    {W : Type 0} (call : Bytes) (unit : ℕ) (d : Driver W)
    → get_or call 7 0 ≡ 0
    → get_or call 8 0 ≡ 2
    → get_u16le call 10 ≤ 512
    → get_u16le call 12 ≤ 512
    → Accepted call unit d (control_state call unit d)
unfolding control_state
control_state-Accepted call unit d device command request response =
    if_rule (Accepted call unit d) _ _ _
      (λ bad.
        refused (λ v. let (uri, path, all) = v.state_fits device command in ground arith) refl refl
          refl)
      (λ good.
        complete
          (record {
            request_fits = request;
            response_fits = response;
            state_fits = λ x y. (ground arith, ground arith, ground arith);
          })
          refl (λ h. fill_query-Told unit _ (grind (arith, length-blit))))

finish_control-Told :
    {W : Type 0} (call : Bytes) (unit : ℕ) (d : Driver W) (r : Done W)
    → 8 ≤ length call
    → Told unit (finish_control call unit d r).call
unfolding finish_control write_diag
finish_control-Told call unit d r h = fill_query-Told unit _ (grind (arith, length-blit))

pub nio_handle_control_call-Accepted :
    {W : Type 0} (port : Port W) (call : Bytes) (unit : ℕ) (d : Driver W)
    → (c : Controlled W) × (nio_handle_control_call port call unit d ≡ some c)
      × Accepted call unit d c
unfolding nio_handle_control_call finish_control
nio_handle_control_call-Accepted {W} port call unit d =
    let (r, e, _) =
      nio_call_returns port (get_or call 7 0) (get_or call 8 0)
        (take (get_u16le call off_request_len) (drop off_data call))
        (own (take max_data (drop off_data call))) (get_u16le call off_response_len) no_response
        d.nio in
    let over : Controlled W = record { status = failed bad_req_len; call = call; driver = d } in
    elim (Bool-cases (
      ltb max_data (get_u16le call off_request_len)
      || ltb max_data (get_u16le call off_response_len))) [
        | inl long ↦ (
          over,
          rw (nio_handle_control_call, long) refl,
          refused (λ v. ground (arith, v.request_fits, v.response_fits)) refl refl refl,
        )
        | inr short ↦
            elim (Bool-cases ((get_or call 7 0 == 0) && (get_or call 8 0 == cmd_set_state))) [
              | inl state ↦ (
                control_state call unit d,
                rw (nio_handle_control_call, short, state) refl,
                control_state-Accepted call unit d (ground arith) (ground arith) (ground arith)
                    (ground arith),
              )
              | inr served ↦ (
                finish_control call unit d r,
                rw (nio_handle_control_call, short, served, e) refl,
                complete
                    (record {
                      request_fits = ground arith;
                      response_fits = ground arith;
                      state_fits = λ x y. absurd (ground arith);
                    })
                    refl (λ h. finish_control-Told call unit d r h),
              )
            ]
      ]
