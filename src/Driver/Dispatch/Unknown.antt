-- ===== src/Driver/Dispatch/Unknown.antt =====
-- The status that DOS sees for a command that the driver does not have.
use fujinet_msdos.Base.{ℕ, ◌≤◌, ◌≡◌, Option, some, arith, bit_and}
use fujinet_msdos.Nio.Port.{Port}
use fujinet_msdos.Driver.State.{Driver, SysReq, Reply}
use fujinet_msdos.Driver.Dispatch.{unknown, run_command, command_of, interrupt, unknown_command}

-- A command of the table that the driver does not have leaves the driver as it was, and the
-- status that DOS sees has no error bit.
pub interrupt-unknown :
    {W : Type 0} (port : Port W) (fuel : ℕ) (init_cmd : SysReq → Driver W → Option (Reply W))
    (req : SysReq) (d : Driver W)
    → command_of req.command ≡ unknown
    → req.command ≤ 24
    → (req' : SysReq) × (interrupt port fuel init_cmd req d ≡ some (req', d))
      × (bit_and req'.status 0x8000 ≡ 0)
unfolding interrupt run_command unknown_command
interrupt-unknown port fuel init_cmd req d e h =
    (record req { status = 0x0103 }, ground (arith, e), omega arith)
