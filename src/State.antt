-- ===== src/State.antt =====
-- state/mapstate/map_state.go: the shared state, a map from CID texts to serial pin arguments.
pub mod Laws
pub mod Contents
use ipfs_cluster.Common.{ℕ, String, Bool, false, Option, none, some, List, [], map}
use ipfs_cluster.Common.Dict
use ipfs_cluster.Common.Dict.{Dict, insert, delete, lookup, has, values}
use ipfs_cluster.Common.Result.{ok}
use ipfs_cluster.External.{Codecs}
use ipfs_cluster.Interfaces.{StateOps}
use ipfs_cluster.Api.Types.{CidArg, CidArgSerial, cid_arg_to_serial, to_cid_arg}

-- The lock of `MapState` is not modelled: each method runs whole.
pub record MapState : Type 0 where
  pub pin_map : Dict CidArgSerial
  pub version : ℕ

unfoldable pub new_map_state : MapState
new_map_state = record { pin_map = []; version = 0 }

module _ {Cid Addr : Type 0} (x : Codecs Cid Addr) where
  open x use {nil_cid, cid_string}

  -- `api.CidArg{}`
  abbrev pub no_cid_arg : CidArg Cid
  no_cid_arg = record { cid = nil_cid; allocations = []; everywhere = false }

  -- `Add` and `Rm` return no error.
  unfoldable pub add : CidArg Cid → MapState → MapState
  add c st = record st { pin_map = insert (cid_string c.cid) (cid_arg_to_serial x c) st.pin_map }

  unfoldable pub rm : Cid → MapState → MapState
  rm c st = record st { pin_map = delete (cid_string c) st.pin_map }

  unfoldable pub get : MapState → Cid → CidArg Cid
  get st c = elim (lookup (cid_string c) st.pin_map) [
    | none ↦ no_cid_arg
    | some cargs ↦ to_cid_arg x cargs
  ]

  unfoldable pub has_cid : MapState → Cid → Bool
  has_cid st c = has (cid_string c) st.pin_map

  unfoldable pub list : MapState → List (CidArg Cid)
  list st = map (to_cid_arg x) (values st.pin_map)

  -- `MapState` as the interface `State`.
  unfoldable pub map_state_ops : StateOps Cid MapState
  unfolding add rm get has_cid list
  map_state_ops = record {
    add = λ c st. ok (add c st);
    rm = λ c st. ok (rm c st);
    list = list;
    has = has_cid;
    get = get;
  }
