-- ===== src/Service/Running.antt =====
-- ipfs-cluster-service/main.go: `run`, which builds the components of a peer and waits for its end.
use ipfs_cluster.Common.{ℕ, zero, suc, String, Bool, Option, none, some, ◌≡◌, arith, if◌then◌else◌}
use ipfs_cluster.Common.Result.{Error, Result, ok, err}
use ipfs_cluster.External.{Codecs}
use ipfs_cluster.Config.{Config, KeyCodecs}
use ipfs_cluster.Config.Files.{Files, load_config}
use ipfs_cluster.Service.{init_config, with_options}

-- What the loop selects: a signal, the end of the peer, or that it is ready.
pub data Selected : Type 0 where
  signalled : Selected
  done : Selected
  ready : Selected

-- `checkErr` has printed an error and exits with code 1; or `run` returns.
pub data Outcome : Type 0 where
  exited : Error → Outcome
  returned : Option Error → Outcome

pub record Options : Type 0 where
  pub init : Bool
  pub force : Bool
  pub bootstrap : String
  pub leave : Bool

-- The constructors that may fail and the peer, over the state `W` of all that lies outside; the
-- other constructors only make objects.
pub record Components (Key Addr W Peer : Type 0) : Type 0 where
  pub new_rest_api : Config Key Addr → W → Option Error × W
  pub new_ipfs_http_connector : Config Key Addr → W → Option Error × W
  pub new_cluster : Config Key Addr → W → Result Peer × W
  pub shutdown : Peer → W → Option Error × W
  pub select : Peer → W → Selected × W

module _ {Cid Addr Key Bytes W Peer : Type 0} (x : Codecs Cid Addr) (k : KeyCodecs Key Addr Bytes)
    (files : Files Key W) (c : Components Key Addr W Peer) where
  open c use {new_rest_api, new_ipfs_http_connector, new_cluster, shutdown, select}

  -- The loop of `run`, on fuel: none if it goes on.
  unfoldable pub serve : ℕ → Peer → W → Option (Outcome × W)
  serve zero peer w = none
  serve (suc fuel) peer w =
      let (event, w1) = select peer w in
      let (e, w2) = shutdown peer w1 in
      let stopped = serve fuel peer w2 in
      let rest = serve fuel peer w1 in
      elim event [
        | done ↦ some (returned none, w1)
        | ready ↦ rest
        | signalled ↦ elim e [ some m ↦ some (exited m, w2) | none ↦ stopped ]
      ]

  -- `run` from the components on
  unfoldable pub start : ℕ → Config Key Addr → W → Option (Outcome × W)
  unfolding serve
  start fuel cfg w =
      let (e, w1) = new_rest_api cfg w in
      let (e', w2) = new_ipfs_http_connector cfg w1 in
      let (res, w3) = new_cluster cfg w2 in
      elim e [
        | some m ↦ some (exited m, w1)
        | none ↦ elim e' [
          | some m ↦ some (exited m, w2)
          | none ↦ elim res [ err m ↦ some (exited m, w3) | ok peer ↦ serve fuel peer w3 ]
        ]
      ]

  -- What `initConfig` comes to in `run`.
  unfoldable pub run_init : Options → String → String → W → Outcome × W
  unfolding init_config
  run_init opts config_path data_path w =
      let (e, w') = init_config x k files opts.force config_path data_path w in
      elim e [ none ↦ (returned none, w') | some m ↦ (exited m, w') ]

  unfoldable pub run : ℕ → Options → String → String → W → Option (Outcome × W)
  unfolding run_init start load_config with_options
  run fuel opts config_path data_path w =
      if opts.init
      then some (run_init opts config_path data_path w)
      else elim (load_config x k files config_path w) [
        | err e ↦ some (exited e, w)
        | ok cfg ↦ elim (with_options x k files opts.bootstrap opts.force opts.leave cfg) [
          | err e ↦ some (returned (some e), w)
          | ok cfg' ↦ start fuel cfg' w
        ]
      ]

  -- The loop gets from one world to another by as many rounds: it is told that the peer is ready, or by a
  -- signal shuts it down without an error, and at last that the peer is done.
  pub data Ends (peer : Peer) (w' : W) : ℕ → W → Type 0 where
    at_done : (w : W) → select peer w ≡ (done, w') → Ends peer w' 1 w
    at_ready :
        (n : ℕ) (w w1 : W)
        → select peer w ≡ (ready, w1)
        → Ends peer w' n w1
        → Ends peer w' (suc n) w
    at_signal :
        (n : ℕ) (w w1 w2 : W)
        → select peer w ≡ (signalled, w1)
        → shutdown peer w1 ≡ (none, w2)
        → Ends peer w' n w2
        → Ends peer w' (suc n) w

  -- The loop of `run` returns no error if the peer is done after some rounds, with as much fuel as there
  -- are rounds.
  pub serve-returns :
      (peer : Peer) {w' : W} {n : ℕ} {w : W}
      → Ends peer w' n w
      → serve n peer w ≡ some (returned none, w')
  unfolding serve
  serve-returns peer (at_done w e) = ground (arith, e)
  serve-returns peer (at_ready m w w1 e more) = ground (arith, e, serve-returns peer more)
  serve-returns peer (at_signal m w w1 w2 e down more) =
      ground (arith, e, down, serve-returns peer more)
