-- ===== src/Driver/Media/Changed.antt =====
-- `Media_check_cmd` on a unit whose medium was replaced.
use fujinet_msdos.Base.{
  ◌<◌, ◌≡◌, refl, true, false, some, arith, length, set, get_or, get_or-set, none,
}
use fujinet_msdos.Nio.Port.{Port}
use fujinet_msdos.Driver.State.{Driver, SysReq, Reply, max_units, op_complete}
use fujinet_msdos.Driver.Media.{media_check_cmd, media_is_changed}

-- A reply that tells DOS of the new medium, after which the flag is clear, and which sent nothing.
pub record ToldChanged {W : Type 0} (req : SysReq) (d : Driver W) (r : Reply W) : Type 0 where
  pub status_is : r.status ≡ op_complete
  pub info_is : r.req.return_info ≡ media_is_changed
  pub cleared : get_or r.driver.media_changed req.unit false ≡ false
  pub nio_is : r.driver.nio ≡ d.nio

pub media_check_cmd-ToldChanged :
    {W : Type 0} (port : Port W) (req : SysReq) (d : Driver W)
    → req.unit < max_units
    → length d.media_changed ≡ max_units
    → get_or d.media_changed req.unit false ≡ true
    → (r : Reply W) × (media_check_cmd port req d ≡ some r) × ToldChanged req d r
unfolding media_check_cmd
media_check_cmd-ToldChanged port req d h size k = (
  record {
    status = op_complete;
    req = record req { return_info = media_is_changed };
    driver = record d {
      media_changed = set d.media_changed req.unit false;
      info_cache = set d.info_cache req.unit none;
    };
  },
  ground arith,
  record {
    status_is = refl;
    info_is = refl;
    cleared = get_or-set d.media_changed req.unit false false (omega arith);
    nio_is = refl;
  },
)
