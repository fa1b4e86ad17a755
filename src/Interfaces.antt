-- ===== src/Interfaces.antt =====
-- ipfscluster.go: the interfaces between the components, as records of operations.
use ipfs_cluster.Common.{ℕ, String, Bool, List, Option}
use ipfs_cluster.Common.Dict.{Dict}
use ipfs_cluster.Common.Result.{Error, Result}
use ipfs_cluster.Api.Status.{IpfsPinStatus}
use ipfs_cluster.Api.Types.{CidArg, CidArgSerial}

-- `State`: the shared state of the cluster.
pub record StateOps (Cid S : Type 0) : Type 0 where
  pub add : CidArg Cid → S → Result S
  pub rm : Cid → S → Result S
  pub list : S → List (CidArg Cid)
  pub has : S → Cid → Bool
  pub get : S → Cid → CidArg Cid

-- The calls by which the pin tracker reaches the IPFS connector of its own peer (`rpcClient.Call`
-- with an empty destination), and the clock. `W` is the state of all that lies outside the tracker.
pub record IpfsRpc (W : Type 0) : Type 0 where
  pub ipfs_pin : CidArgSerial → W → Option Error × W
  pub ipfs_unpin : CidArgSerial → W → Option Error × W
  pub ipfs_pin_ls_cid : CidArgSerial → W → Result IpfsPinStatus × W
  pub ipfs_pin_ls : String → W → Result (Dict IpfsPinStatus) × W
  pub now : W → ℕ
