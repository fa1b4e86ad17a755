-- ===== src/Ipfs.antt =====
-- ipfs_http_connector.go: the requests to the IPFS daemon.
pub mod Requests
pub mod Proxy
pub mod Listing
pub mod Daemon
pub mod Tracked
pub mod Coherence
pub mod CoherentRuns
pub mod Drained
pub mod Committed
pub mod Restraint
use ipfs_cluster.Common.{
  ℕ, String, Bool, true, false, Option, none, some, List, eqb, ◌<>◌, if◌then◌else◌,
}
use ipfs_cluster.Common.Int.{ℤ}
use ipfs_cluster.Common.Dict.{Dict}
use ipfs_cluster.Common.Result.{Error, Result, ok, err, ◌>>=◌}
use ipfs_cluster.External.{Codecs}

-- What packages net/http, encoding/json and fmt give. The answer to a request has a status code,
-- and a body that can be read or not. A JSON text is read as the message of an `ipfsError`, as the
-- types of the keys of an `ipfsPinLsResp`, or as the fields of an `ipfsIDResp`.
pub record HttpOps (W : Type 0) : Type 0 where
  pub http_get : String → W → Result (ℕ × Result String) × W
  pub unmarshal_error : String → Result String
  pub unmarshal_pin_ls : String → Result (Dict String)
  pub unmarshal_id : String → Result (String × List String)
  pub show_int : ℤ → String
  pub show_status : ℕ → String

-- The fields that the methods read or write. The map of the custom handlers is in `handle`.
pub record IpfsHttpConnector : Type 0 where
  pub dest_host : String
  pub dest_port : ℤ
  pub listen_addr : String
  pub listen_port : ℤ
  pub shutdown : Bool

-- The protocols of a multiaddress, `strconv.Atoi`, and `net.Listen`.
pub record ListenOps (Addr : Type 0) : Type 0 where
  pub value_for_ip4 : Addr → Result String
  pub value_for_tcp : Addr → Result String
  pub atoi : String → Result ℤ
  pub listen : String → Result (Unit {0})
  pub show_port : ℤ → String

-- The host and the port of a multiaddress.
unfoldable pub host_port : {Addr : Type 0} → ListenOps Addr → Addr → Result (String × ℤ)
host_port o addr = do
  host ← o.value_for_ip4 addr
  port_str ← o.value_for_tcp addr
  port ← o.atoi port_str
  ok (host, port)

-- `NewIPFSHTTPConnector`, from the addresses of the node and of the proxy
unfoldable pub new_ipfs_http_connector :
    {Addr : Type 0} → ListenOps Addr → Addr → Addr → Result IpfsHttpConnector
unfolding host_port
new_ipfs_http_connector o node_addr proxy_addr = do
  (dest_host, dest_port) ← host_port o node_addr
  (listen_addr, listen_port) ← host_port o proxy_addr
  l ← o.listen (listen_addr <> ":" <> o.show_port listen_port)
  ok (record {
    dest_host = dest_host;
    dest_port = dest_port;
    listen_addr = listen_addr;
    listen_port = listen_port;
    shutdown = false;
  })

unfoldable pub shutdown_ipfs : IpfsHttpConnector → IpfsHttpConnector
shutdown_ipfs ipfs = if ipfs.shutdown then ipfs else record ipfs { shutdown = true }

-- What `get` returns: no body and an error; a body and an error; or a body.
pub data Got : Type 0 where
  no_body : Error → Got
  refused : String → Error → Got
  fetched : String → Got

module _ {W : Type 0} (h : HttpOps W) (ipfs : IpfsHttpConnector) where
  open h use {http_get, unmarshal_error, show_int, show_status}

  -- `apiURL`
  unfoldable pub api_url : String
  api_url = "http://" <> ipfs.dest_host <> ":" <> show_int ipfs.dest_port <> "/api/v0"

  -- the message for an answer that is not `StatusOK`
  abbrev pub unsuccessful : String → ℕ → String → Result String → Error
  unsuccessful path code body (ok message) =
      "IPFS unsuccessful: " <> show_status code <> ": " <> message
  unsuccessful path code body (err e) =
      "IPFS-get '" <> path <> "' unsuccessful: " <> show_status code <> ": " <> body

  -- `get` after the request
  abbrev pub answer_of : String → Result (ℕ × Result String) → Got
  answer_of path (err e) = no_body e
  answer_of path (ok (code, err e)) = no_body e
  answer_of path (ok (code, ok body)) =
      if eqb code 200
      then fetched body
      else refused body (unsuccessful path code body (unmarshal_error body))

  unfoldable pub get : String → W → Got × W
  unfolding api_url
  get path w = let (resp, w') = http_get (api_url <> "/" <> path) w in (answer_of path resp, w')
