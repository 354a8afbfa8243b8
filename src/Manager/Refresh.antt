-- ===== src/Manager/Refresh.antt =====
-- What the gauge update behind each change leaves alone.
use kotakpasir.Base.{◌≡◌, String, arith}
use kotakpasir.Runtime.{Runtime}
use kotakpasir.Sandbox.{Store}
use kotakpasir.Sandbox.Contract.{Contract}
use kotakpasir.Manager.{Manager, refresh_active}

module _ {R : Runtime} {S : Store} where
  pub refresh_rest :
      (m : Manager R S)
      → ((refresh_active m).policy ≡ m.policy)
        × ((refresh_active m).started ≡ m.started)
        × ((refresh_active m).log_cap ≡ m.log_cap)
        × ((refresh_active m).logs ≡ m.logs)
        × ((refresh_active m).world ≡ m.world)
        × ((refresh_active m).pools ≡ m.pools)
  unfolding refresh_active
  refresh_rest m = ground arith

module _ {R : Runtime} {S : Store} (C : Contract S) where
  pub refresh_db :
      (m : Manager R S) (other : String)
      → C.IsGood m.db
      → C.IsGood (refresh_active m).db
        × (C.contents (refresh_active m).db other ≡ C.contents m.db other)
  unfolding refresh_active
  refresh_db m other g = ground (arith, C.list_law other m.db g)
