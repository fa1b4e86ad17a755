-- ===== src/Tests/Connector.antt =====
-- The connector and the tracker over a concrete daemon.
use ipfs_cluster.Common.{String, All, ◌≡◌, ◌≢◌, refl, Bool, true, false, none, List, [], ◌∷◌, ◌==◌}
use ipfs_cluster.Common.Dict.{lookup}
use ipfs_cluster.Tracker.{MapPinTracker, new_map_pin_tracker}
use ipfs_cluster.Tracker.Runs.{Call, run}
use ipfs_cluster.Rpc.Local.{connector_rpc}
use ipfs_cluster.Ipfs.{get, api_url}
use ipfs_cluster.Ipfs.Requests
use ipfs_cluster.Ipfs.Daemon.{pin-holds}
use ipfs_cluster.Tracker.Draining.{pin_rounds}
use ipfs_cluster.Ipfs.Drained.{IsSettled, run-IsSettled}
use ipfs_cluster.Api.Types.{CidArg}
use ipfs_cluster.Ipfs.CoherentRuns.{Coherent, run-Coherent}
use ipfs_cluster.Tests.Daemon.{two_codecs, Pins, pins_of, http, connector, serves}

pin-holds_example :
    let (e, w') = Requests.pin two_codecs http connector true (false, true) in
    (e ≡ none → pins_of w' "x" ≡ true)
    × ((d : String) → pins_of (false, true) d ≡ true → pins_of w' d ≡ true)
    × ((d : String) → ("x" == d) ≡ false → pins_of w' d ≡ pins_of (false, true) d)
pin-holds_example = pin-holds two_codecs http connector pins_of serves true (false, true)

-- The premise of the first part is met here, and is not by the CID that the daemon cannot pin.
pin-x : (Requests.pin two_codecs http connector true (false, true)).0 ≡ none
unfolding Requests.pin Requests.pin_ls_cid Requests.pin_ls_cid_answer Requests.ask get api_url
pin-x = refl

pin-y : (Requests.pin two_codecs http connector false (true, false)).0 ≢ none
unfolding Requests.pin Requests.pin_ls_cid Requests.pin_ls_cid_answer Requests.ask get api_url
pin-y e = cc e

abbrev pub own : Bool → CidArg Bool
own c = record { cid = c; allocations = "A" ∷ []; everywhere = false }

abbrev calls : List (Call Bool)
calls =
    Call.track (own true)
    ∷ Call.pin_round
    ∷ Call.untrack false
    ∷ Call.sync_all
    ∷ Call.unpin_round
    ∷ []

abbrev begin : MapPinTracker Bool × Pins
begin = (new_map_pin_tracker "A", (false, true))

begin-Coherent : Coherent two_codecs http connector (λ w. 0) pins_of serves begin
unfolding new_map_pin_tracker lookup
begin-Coherent = record { held = λ k p e h. absurd (cc e); queued = (tt, tt) }

run-Coherent_example :
    Coherent two_codecs http connector
      (λ w. 0)
      pins_of
      serves
      (run two_codecs (connector_rpc two_codecs http connector (λ w. 0)) calls begin)
run-Coherent_example =
    run-Coherent two_codecs http connector (λ w. 0) pins_of serves calls begin
      (refl, (tt, (refl, (tt, (tt, tt))))) begin-Coherent

abbrev pub queued : MapPinTracker Bool
queued = record (new_map_pin_tracker "A") { pin_ch = own true ∷ own false ∷ [] }

pub queued-Coherent :
    Coherent two_codecs http connector (λ w. 0) pins_of serves (queued, (false, false))
unfolding new_map_pin_tracker lookup
queued-Coherent = record { held = λ k p e h. absurd (cc e); queued = ((refl, (refl, tt)), tt) }

run-IsSettled_example :
    All
      (λ c.
        IsSettled two_codecs http connector
          (λ w. 0)
          pins_of
          serves
          c.cid
          (run two_codecs
            (connector_rpc two_codecs http connector (λ w. 0))
            (pin_rounds 2)
            (queued, (false, false))))
      (own true ∷ own false ∷ [])
unfolding new_map_pin_tracker
run-IsSettled_example =
    run-IsSettled two_codecs http connector (λ w. 0) pins_of serves queued (false, false) refl
      queued-Coherent
