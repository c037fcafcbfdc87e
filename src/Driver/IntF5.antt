-- ===== src/Driver/IntF5.antt =====
-- intf5 of sys/intf5_nio.c: interrupt F5 of the NIO driver, with `fuji_ioctl_nio_call` at the pointer.
use fujinet_msdos.Base.{
  ℕ, ◌%◌, ◌>>=◌, ◌≡◌, ◌≤◌, length, not, ◌||◌, Option, none, some, Bytes, ltb, leb, ◌==◌,
  if◌then◌else◌,
}
use fujinet_msdos.Nio.Port.{Port}
use fujinet_msdos.Driver.State.{Driver}
use fujinet_msdos.Driver.Control.{Controlled, nio_handle_control_call}
use fujinet_msdos.Driver.Control.Accepted.{IsControl, Told, Accepted}
use fujinet_msdos.Driver.Ioctl.{nio_call_size}

-- FUJIF5_NIO_CALL_REQUEST.
abbrev pub nio_call_request : ℕ
nio_call_request = 0xF502

-- The register AX, the block behind the pointer where that is not null, and the driver.
pub record F5Answer (W : Type 0) : Type 0 where
  pub ax : ℕ
  pub call : Option Bytes
  pub driver : Driver W

pub f5_answer : {W : Type 0} → Controlled W → F5Answer W
f5_answer c = record {
  ax = if leb 32768 (c.status % 65536) then b'E' else b'C';
  call = some c.call;
  driver = c.driver;
}

-- `none` is out of fuel.
pub intf5_nio : {W : Type 0} → Port W → ℕ → Option Bytes → ℕ → Driver W → Option (F5Answer W)
intf5_nio port devcom ptr size d =
    let back : F5Answer _ = record { ax = b'E'; call = ptr; driver = d } in
    elim ptr [
      | none ↦ some back
      | some call ↦
          let answered = (do c ← nio_handle_control_call port call 0 d; some (f5_answer c)) in
          if not (devcom == nio_call_request) || ltb size nio_call_size then some back else answered
    ]

-- What interrupt F5 has to be called with: AX, a pointer to a block that keeps to the rules, and its size.
pub record IsRequest (devcom : ℕ) (ptr : Option Bytes) (size : ℕ) : Type 0 where
  pub call : Bytes
  pub there : ptr ≡ some call
  pub devcom_is : devcom ≡ 0xF502
  pub whole : 534 ≤ size
  pub control : IsControl call

-- C for such a call, and the block says what the driver is; or E, with the block and the driver as they
-- were.
pub data Answers {W : Type 0} (devcom : ℕ) (ptr : Option Bytes) (size : ℕ) (d : Driver W)
    (r : F5Answer W) : Type 0 where
  accepted :
      (v : IsRequest devcom ptr size)
      → r.ax ≡ b'C'
      → (after : Bytes) → r.call ≡ some after
      → (8 ≤ length v.call → Told 0 after)
      → Answers devcom ptr size d r
  kept :
      (IsRequest devcom ptr size → ⊥)
      → r.ax ≡ b'E'
      → r.call ≡ ptr
      → r.driver ≡ d
      → Answers devcom ptr size d r
