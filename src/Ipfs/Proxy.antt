-- ===== src/Ipfs/Proxy.antt =====
-- ipfs_http_connector.go: the handlers of the proxy.
use ipfs_cluster.Common.{
  ℕ, String, false, Option, none, some, List, [], ◌∷◌, ◌<>◌, ◌==◌, if◌then◌else◌,
}
use ipfs_cluster.Common.Dict.{Dict, lookup, insert}
use ipfs_cluster.Common.Result.{Error, Result, ok, err}
use ipfs_cluster.External.{Codecs}
use ipfs_cluster.Api.Types.{CidArgSerial}
use ipfs_cluster.Ipfs.{IpfsHttpConnector}

-- What the handlers read of a request: the path, the query and the rest, which is passed on.
pub record Request : Type 0 where
  pub method : String
  pub path : String
  pub query : Dict (List String)
  pub payload : String

-- The JSON values that the handlers write, the text of `http.Error`, and a body that is passed on.
pub data Body : Type 0 where
  ipfs_error : String → Body
  pin_op_resp : List String → Body
  pin_ls_resp : Dict String → Body
  plain : String → Body
  forwarded : String → Body

pub record Response : Type 0 where
  pub code : ℕ
  pub headers : List (String × String)
  pub body : Body

-- The calls to the own peer (`Pin`, `Unpin` and `PinList`), and the request of `defaultHandler`,
-- which can fail to be made or to be answered, with a status code, headers and a body.
pub record ProxyOps (W : Type 0) : Type 0 where
  pub call_op : String → CidArgSerial → W → Option Error × W
  pub pin_list : W → Result (List CidArgSerial) × W
  pub new_request : Request → IpfsHttpConnector → Result Request
  pub send : Request → W → Result (ℕ × List (String × String) × String) × W

abbrev pub respond : ℕ → Body → Response
respond code body = record { code = code; headers = []; body = body }

-- `ipfsErrorResponder`
abbrev pub ipfs_error_responder : String → Response
ipfs_error_responder msg = respond 500 (ipfs_error msg)

-- the loop of `pinLsHandler`
unfoldable pub keys_of : List CidArgSerial → Dict String → Dict String
keys_of [] out = out
keys_of (pin ∷ pins) out = keys_of pins (insert pin.cid "recursive" out)

-- the part of `pinLsHandler` that follows the call
unfoldable pub select_keys : Dict String → Option (List String) → Response
select_keys keys none = respond 200 (pin_ls_resp keys)
select_keys keys (some []) = ipfs_error_responder "Error: bad argument"
select_keys keys (some (arg ∷ _)) = elim (lookup arg keys) [
  | none ↦ ipfs_error_responder ("Error: path '" <> arg <> "' is not pinned")
  | some type ↦ respond 200 (pin_ls_resp ((arg, type) ∷ []))
]

-- `r.URL.Query()["arg"]` of a missing key is the nil slice
abbrev pub args_of : Option (List String) → List String
args_of none = []
args_of (some args) = args

module _ {Cid Addr W : Type 0} (x : Codecs Cid Addr) (o : ProxyOps W)
    (ipfs : IpfsHttpConnector) where
  open o use {call_op, pin_list, new_request, send}

  -- `pinOpHandler`, for the first argument
  unfoldable pub pin_op : String → String → W → Response × W
  pin_op op arg w = elim (x.cid_decode arg) [
    | err e ↦ (ipfs_error_responder ("Error parsing CID: " <> e), w)
    | ok c ↦
        let (e, w') = call_op op (record { cid = arg; allocations = []; everywhere = false }) w in
        (
          elim e [ some m ↦ ipfs_error_responder m | none ↦ respond 200 (pin_op_resp (arg ∷ [])) ],
          w',
        )
  ]

  abbrev pub pin_op_args : String → List String → W → Response × W
  pin_op_args op [] w = (ipfs_error_responder "Error: bad argument", w)
  pin_op_args op (arg ∷ _) w = pin_op op arg w

  unfoldable pub pin_op_handler : String → Request → W → Response × W
  unfolding pin_op
  pin_op_handler op r w = pin_op_args op (args_of (lookup "arg" r.query)) w

  unfoldable pub pin_ls_handler : Request → W → Response × W
  unfolding keys_of select_keys
  pin_ls_handler r w =
      let (res, w') = pin_list w in
      (
        elim res [
          | err e ↦ ipfs_error_responder e
          | ok pins ↦ select_keys (keys_of pins []) (lookup "arg" r.query)
        ],
        w',
      )

  -- the status code of the answer is not written, so that the response has the default one, 200
  unfoldable pub default_handler : Request → W → Response × W
  default_handler r w = elim (new_request r ipfs) [
    | err e ↦ (respond 500 (plain "error forwarding request"), w)
    | ok proxy_req ↦
        let (res, w') = send proxy_req w in
        (
          elim res [
            | err e ↦ respond 500 (plain "error forwaring request")
            | ok (code, headers, body) ↦ record {
              code = 200;
              headers = headers;
              body = forwarded body;
            }
          ],
          w',
        )
  ]

  unfoldable pub handle : Request → W → Response × W
  unfolding pin_op_handler pin_ls_handler default_handler
  handle r w =
      if r.path == "/api/v0/pin/add"
      then pin_op_handler "Pin" r w
      else if r.path == "/api/v0/pin/rm"
      then pin_op_handler "Unpin" r w
      else if r.path == "/api/v0/pin/ls"
      then pin_ls_handler r w
      else default_handler r w
