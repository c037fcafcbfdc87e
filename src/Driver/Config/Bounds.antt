-- ===== src/Driver/Config/Bounds.antt =====
-- The configuration stays in range, whatever the environment says.
use fujinet_msdos.Base.{◌≤◌, arith}
use fujinet_msdos.Driver.State.{Driver}
use fujinet_msdos.Driver.Config.{Environment, max_batch_sectors, nio_driver_config_init}

pub record IsConfigured {W : Type 0} (d : Driver W) : Type 0 where
  pub batch_pos : 1 ≤ d.batch_sectors
  pub batch_within : d.batch_sectors ≤ max_batch_sectors
  pub readahead_pos : 1 ≤ d.readahead_sectors
  pub readahead_within : d.readahead_sectors ≤ max_batch_sectors
  pub retries_within : d.io_retries ≤ max_batch_sectors
  pub transport_within : d.nio.transport_retries ≤ max_batch_sectors
  pub timeout_from : 250 ≤ d.nio.network_timeout_ms
  pub timeout_to : d.nio.network_timeout_ms ≤ 60000

-- After the initialisation from any environment the batch and read-ahead sizes are 1 to 16
-- sectors, the retry counts at most 16, and the network timeout 250 to 60000 milliseconds.
pub nio_driver_config_init-IsConfigured :
    {W : Type 0} (env : Environment) (d : Driver W) → IsConfigured (nio_driver_config_init env d)
unfolding nio_driver_config_init
nio_driver_config_init-IsConfigured env d = record {
  batch_pos = ground arith;
  batch_within = ground arith;
  readahead_pos = ground arith;
  readahead_within = ground arith;
  retries_within = ground arith;
  transport_within = ground arith;
  timeout_from = ground arith;
  timeout_to = ground arith;
}
