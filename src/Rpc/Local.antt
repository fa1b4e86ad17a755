-- ===== src/Rpc/Local.antt =====
-- rpc_api.go: the methods of the IPFS connector, as the pin tracker calls them.
use ipfs_cluster.Common.{ℕ, String, Option, none, some}
use ipfs_cluster.Common.Dict.{Dict}
use ipfs_cluster.Common.Result.{Error, Result, ok, err}
use ipfs_cluster.External.{Codecs}
use ipfs_cluster.Interfaces.{IpfsRpc}
use ipfs_cluster.Api.Status.{IpfsPinStatus}
use ipfs_cluster.Api.Types.{CidArgSerial, to_cid_arg}
use ipfs_cluster.Ipfs.{HttpOps, IpfsHttpConnector}
use ipfs_cluster.Ipfs.Requests

-- `*out = b; return err`: the caller reads the value if there is no error
abbrev pub reply {ℓ} : {A : Type ℓ} → A × Option Error → Result A
reply (b, none) = ok b
reply (b, some e) = err e

module _ {Cid Addr W : Type 0} (x : Codecs Cid Addr) (h : HttpOps W)
    (ipfs : IpfsHttpConnector) where
  unfoldable pub ipfs_pin : CidArgSerial → W → Option Error × W
  ipfs_pin arg w = Requests.pin x h ipfs (to_cid_arg x arg).cid w

  unfoldable pub ipfs_unpin : CidArgSerial → W → Option Error × W
  ipfs_unpin arg w = Requests.unpin x h ipfs (to_cid_arg x arg).cid w

  unfoldable pub ipfs_pin_ls_cid : CidArgSerial → W → Result IpfsPinStatus × W
  ipfs_pin_ls_cid arg w =
      let (res, w') = Requests.pin_ls_cid x h ipfs (to_cid_arg x arg).cid w in (reply res, w')

  unfoldable pub ipfs_pin_ls : String → W → Result (Dict IpfsPinStatus) × W
  ipfs_pin_ls type_filter w = Requests.pin_ls x h ipfs type_filter w

  -- the connector, as the calls that the tracker makes
  unfoldable pub connector_rpc : (W → ℕ) → IpfsRpc W
  unfolding ipfs_pin ipfs_unpin ipfs_pin_ls_cid ipfs_pin_ls
  connector_rpc now = record {
    ipfs_pin = ipfs_pin;
    ipfs_unpin = ipfs_unpin;
    ipfs_pin_ls_cid = ipfs_pin_ls_cid;
    ipfs_pin_ls = ipfs_pin_ls;
    now = now;
  }
