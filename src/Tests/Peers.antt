-- ===== src/Tests/Peers.antt =====
-- Peers, their addresses and the configuration on concrete inputs.
use ipfs_cluster.Common.{
  subst, false, not, ◌&&◌, ap, ℕ, ◌+◌, String, ◌≡◌, ◌↔◌, refl, true, Option, none, some, List, [],
  ◌∷◌, Memᴰ, ◌==◌, if◌then◌else◌,
}
use ipfs_cluster.Common.Int.{pos, negsuc}
use ipfs_cluster.Common.Dict.{lookup, has, insert, lookup-insert_self}
use ipfs_cluster.Common.Result.{Error, Result, ok, err, value_or}
use ipfs_cluster.Api.Types.{CidArgSerial, PinInfoSerial, GlobalPinInfo, to_pin_info}
use ipfs_cluster.Api.Ids.{ClusterId}
use ipfs_cluster.PeerManager.{PeerManager, add_from_multiaddrs}
use ipfs_cluster.PeerManager.Addresses.{
  all_split, good_prefix, last_addr, lookup-add_from_multiaddrs,
}
use ipfs_cluster.Config.{KeyCodecs, Config, JsonConfig, to_json_config, to_config, parse_peers}
use ipfs_cluster.Config.RoundTrip.{CanSave, IsUsable, normalised, to_config-IsUsable}
use ipfs_cluster.Config.Files.{
  Files, load_config, saved_text, save, new_default_config, JsonReads, load_config-save,
}
use ipfs_cluster.Service.{init_config}
use ipfs_cluster.Service.Init.{fresh, load_config-init_config}
use ipfs_cluster.Cluster.Global.{
  unreachable, full_map, merge_replies, merge_pins, mark_errors, mark_one,
}
use ipfs_cluster.Cluster.Global.Merged.{is_reported, has-full_map, lookup-full_map}
use ipfs_cluster.Tests.World.{codecs}

abbrev manager : PeerManager String
manager = record { self = "A"; cluster_addr = "/a"; peermap = ("A", "/a") ∷ ("B", "/b") ∷ [] }

abbrev count : String → String → ℕ → ℕ
count p a n = n + 1

lookup-add_from_multiaddrs_example :
    let (e, pm', ps') = add_from_multiaddrs codecs count ("/b" ∷ "none" ∷ []) manager 0 in
    ((e ≡ none) ↔ (all_split codecs count ("/b" ∷ "none" ∷ []) ≡ true))
    × ((k : String)
        → lookup k pm'.peermap
          ≡ last_addr codecs count k
              (good_prefix codecs count ("/b" ∷ "none" ∷ []))
              (lookup k manager.peermap))
lookup-add_from_multiaddrs_example =
    lookup-add_from_multiaddrs codecs count ("/b" ∷ "none" ∷ []) manager 0

-- keys are their own bytes
abbrev key_codecs : KeyCodecs String String String
key_codecs = record {
  pretty = λ p. p;
  key_bytes = λ k. ok k;
  unmarshal_private_key = λ b. ok b;
  encode_to_string = λ b. b;
  decode_string = λ s. ok s;
  string_panic = λ a. if a == "" then some "nil" else none;
}

abbrev pub config : Config String String
config = record {
  id = "A";
  private_key = "secret";
  cluster_peers = "/b" ∷ [];
  bootstrap = [];
  leave_on_shutdown = true;
  cluster_addr = "/a";
  api_addr = "/api";
  ipfs_proxy_addr = "/proxy";
  ipfs_node_addr = "/node";
  consensus_data_folder = "data";
  state_sync_seconds = pos 0;
  replication_factor = pos 0;
  path = "service.json";
}

abbrev config-CanSave : CanSave codecs key_codecs config
config-CanSave = record {
  own_id = refl;
  bytes = "secret";
  key_written = refl;
  bytes_read = refl;
  key_read = refl;
  peers = ((refl, refl), tt);
  boot = tt;
  cluster = (refl, refl);
  api = (refl, refl);
  proxy = (refl, refl);
  node = (refl, refl);
}

abbrev found : Option String → Result String
found none = err "no file"
found (some t) = ok t

-- files are an association list, and the one JSON text stands for `config`
abbrev disk : Files String (List (String × String))
disk = record {
  read_file = λ p w. found (lookup p w);
  write_file = λ p t w. (none, insert p t w);
  exists = λ p w. has p w;
  make_folder_of = λ p w. w;
  marshal_indent = λ j. ok "config";
  unmarshal = λ s. to_json_config codecs key_codecs config;
  generate = λ w. (ok ("secret", "A"), w);
}

load_config-save_example :
    load_config codecs key_codecs disk "service.json" (save codecs key_codecs disk "" config []).1
    ≡ ok (record (normalised config) { path = "service.json" })
unfolding save saved_text
load_config-save_example =
    load_config-save codecs key_codecs disk "" config [] config-CanSave
      (λ p t w _. ap found (lookup-insert_self p t w)) (λ j h. ("config", refl, h)) refl

abbrev made : String × String → Config String String
made = fresh codecs key_codecs disk "data"

-- the disk of a new peer, whose configuration is the one that the JSON text stands for
abbrev new_disk : Files String (List (String × String))
new_disk = record disk { unmarshal = λ s. to_json_config codecs key_codecs (made ("secret", "A")) }

abbrev made-CanSave : CanSave codecs key_codecs (made ("secret", "A"))
made-CanSave = record {
  own_id = refl;
  bytes = "secret";
  key_written = refl;
  bytes_read = refl;
  key_read = refl;
  peers = tt;
  boot = tt;
  cluster = (refl, refl);
  api = (refl, refl);
  proxy = (refl, refl);
  node = (refl, refl);
}

generated-CanSave :
    (g : String × String)
    → ok ("secret", "A") ≡ ok g
    → CanSave codecs key_codecs (made g) × JsonReads codecs key_codecs new_disk (made g)
generated-CanSave g e =
    subst (λ g. CanSave codecs key_codecs (made g) × JsonReads codecs key_codecs new_disk (made g))
      (ap (value_or ("", "")) e) (made-CanSave, λ j h. ("config", refl, h))

load_config-init_config_example :
    ((new_disk.exists "service.json" [] && not false) ≡ false)
    × (g : String × String) × (ok ("secret", "A") ≡ ok g)
    × (load_config codecs key_codecs new_disk "service.json"
          (init_config codecs key_codecs new_disk false "service.json" "data" []).1
        ≡ ok (record (made g) { path = "service.json" }))
unfolding init_config new_default_config save saved_text lookup
load_config-init_config_example =
    load_config-init_config codecs key_codecs new_disk false "service.json" "data" []
      (λ p t w _. ap found (lookup-insert_self p t w)) generated-CanSave refl

abbrev json : JsonConfig
json = record {
  id = "A";
  private_key = "secret";
  cluster_peers = "/b" ∷ [];
  bootstrap = [];
  leave_on_shutdown = true;
  cluster_listen_multiaddress = "/a";
  api_listen_multiaddress = "/api";
  ipfs_proxy_listen_multiaddress = "/proxy";
  ipfs_node_multiaddress = "/node";
  consensus_data_folder = "data";
  state_sync_seconds = negsuc 4;
  replication_factor = pos 0;
}

abbrev read : Config String String
read = record config { state_sync_seconds = pos 60; replication_factor = negsuc 0; path = "" }

to_config-IsUsable_example : IsUsable codecs key_codecs read
unfolding to_config parse_peers
to_config-IsUsable_example = to_config-IsUsable codecs key_codecs json read refl

abbrev own : ClusterId String
own = record {
  id = "A";
  addresses = "/a" ∷ [];
  cluster_peers = "/b" ∷ [];
  version = "0.0.9";
  commit = "";
  rpc_protocol_version = "/ipfscluster/0.0.9/rpc";
  error = "";
  ipfs = record { id = "I"; addresses = []; error = "" };
}

-- "A" has "x" pinned, "B" does not answer
abbrev pin_on_a : PinInfoSerial
pin_on_a = record { cid = "x"; peer = "A"; status = "pinned"; ts = "early"; error = "" }

abbrev no_reply : PinInfoSerial
no_reply = record { cid = ""; peer = ""; status = ""; ts = ""; error = "" }

abbrev ask_one : CidArgSerial → String → PinInfoSerial × Option Error
ask_one arg p = if p == "A" then (pin_on_a, none) else (no_reply, some "no route")

abbrev ask_all : String → List PinInfoSerial × Option Error
ask_all p = if p == "A" then (pin_on_a ∷ [], none) else ([], some "no route")

has-full_map_example :
    has "x" (full_map codecs 6 ask_all ("A" ∷ "B" ∷ []))
    ≡ is_reported codecs 6 ask_all ("A" ∷ "B" ∷ []) "x"
has-full_map_example = has-full_map codecs 6 ask_all ("A" ∷ "B" ∷ []) "x"

abbrev merged : GlobalPinInfo String
merged = record {
  cid = "x";
  peer_map =
      ("A", to_pin_info codecs pin_on_a) ∷ ("B", unreachable codecs 6 "x" "B" "no route") ∷ [];
}

lookup-full_map_example :
    lookup "B" merged.peer_map ≡ some (unreachable codecs 6 "x" "B" "no route")
unfolding full_map merge_replies merge_pins mark_errors mark_one lookup insert to_pin_info
lookup-full_map_example =
    lookup-full_map codecs 6 ask_all ("A" ∷ "B" ∷ []) "x" merged "B" "no route" refl
      (Memᴰ.tail (Memᴰ.head refl)) refl
