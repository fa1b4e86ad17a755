-- ===== src/Replica/Agreement.antt =====
-- consensus.go and log_op.go: peers that have applied the same operations have the same shared state.
use ipfs_cluster.Common.{
  Option, none, some, List, [], ◌∷◌, ◌++◌, ◌≡◌, refl, sym, ap, ◌∙◌, ◌⊎◌, inl, inr, arith, String,
  All,
}
use ipfs_cluster.External.{Codecs, PeerId}
use ipfs_cluster.Interfaces.{IpfsRpc}
use ipfs_cluster.State.{MapState, new_map_state, map_state_ops}
use ipfs_cluster.LogOp.{LogOp, applied, Applied, Request, failed, panics, apply_to}
use ipfs_cluster.LogOp.Replay.{replay, last_entry, HasSerial, CanApply}
use ipfs_cluster.State.Contents.{contents, replay-converges}
use ipfs_cluster.Replica.{Replica, Reach, applies, syncs, runs, acts, here, next, new_replica}

pub some-inj : (a b : MapState) → some a ≡ some b → a ≡ b
some-inj a b e = ap (λ o. elim o [ none ↦ a | some s ↦ s ]) e

module _ {Cid Addr : Type 0} (x : Codecs Cid Addr) where
  apply_to-cases :
      (op : LogOp) (st : MapState)
      → ((st' : MapState) × (req : Option Request) × (apply_to x (map_state_ops x) op st
            ≡ applied st' req))
        ⊎ ((log : List LogOp) → replay x (op ∷ log) st ≡ none)
  unfolding replay
  apply_to-cases op st = by_result (apply_to x (map_state_ops x) op st) refl
    where
      by_result :
          (res : Applied MapState)
          → apply_to x (map_state_ops x) op st ≡ res
          → ((st' : MapState) × (req : Option Request) × (apply_to x (map_state_ops x) op st
                ≡ applied st' req))
            ⊎ ((log : List LogOp) → replay x (op ∷ log) st ≡ none)
      by_result (applied st' req) e = inl (st', req, e)
      by_result (failed m) e = inr (λ log. rw (replay, e) refl)
      by_result panics e = inr (λ log. rw (replay, e) refl)

  continues :
      (p : LogOp) (log : List LogOp) (a s b : MapState) (q : Option Request)
      → apply_to x (map_state_ops x) p a ≡ applied s q
      → replay x (p ∷ log) a ≡ some b
      → replay x log s ≡ some b
  unfolding replay
  continues p log a s b q e before = sym (rw (replay, e) refl) ∙ before

  replay-snoc :
      (log : List LogOp) (op : LogOp) (a b c : MapState) (req : Option Request)
      → replay x log a ≡ some b
      → apply_to x (map_state_ops x) op b ≡ applied c req
      → replay x (log ++ op ∷ []) a ≡ some c
  unfolding replay
  replay-snoc [] op a b c req before done =
      let same : a ≡ b = some-inj a b before in rw (same, replay, done) refl
  replay-snoc (p ∷ log) op a b c req before done = elim (apply_to-cases p a) [
    | inl (s, q, e) ↦
        rw (replay, e) (replay-snoc log op s b c req (continues p log a s b q e before) done)
    | inr fails ↦ absurd (ground (arith, fails log, before))
  ]

module _ {Cid Addr W : Type 0} (x : Codecs Cid Addr) (r : IpfsRpc W) where
  -- The shared state of a peer is what the operations that it has applied make of the empty one.
  pub Reach-replay :
      {s t : Replica Cid W}
      → replay x s.log new_map_state ≡ some s.state
      → Reach x r s t
      → replay x t.log new_map_state ≡ some t.state
  Reach-replay start here = start
  Reach-replay start (next before (applies t op st req done)) =
      replay-snoc x t.log op _ t.state st req (Reach-replay start before) done
  Reach-replay start (next before (syncs t)) = Reach-replay start before
  Reach-replay start (next before (runs t b a call e)) = Reach-replay start before
  Reach-replay start (next before (acts t call own)) = Reach-replay start before

module _ {Cid Addr W W' : Type 0} (x : Codecs Cid Addr) (r : IpfsRpc W) (r' : IpfsRpc W') where
  -- Two peers that have started empty and whose logs leave the same last operation on every CID (one log,
  -- or logs of which one repeats operations, or has some that later ones supersede) have shared states of the
  -- same contents, whatever else the two peers have done. Pins and unpins are of serial forms and
  -- the peers that are removed have an ID.
  pub contents-Reach :
      (self peer : PeerId) (w : W) (w' : W') {t : Replica Cid W} {u : Replica Cid W'}
      → Reach x r (new_replica self w) t
      → Reach x r' (new_replica peer w') u
      → All (HasSerial x) t.log
      → All (CanApply x) t.log
      → All (HasSerial x) u.log
      → All (CanApply x) u.log
      → ((k : String) → last_entry x t.log k ≡ last_entry x u.log k)
      → contents t.state ≡ contents u.state
  unfolding new_replica replay
  contents-Reach self peer w w' {t} {u} rt ru ts tc us uc last =
      let mine = Reach-replay x r refl rt in
      let theirs = Reach-replay x r' refl ru in
      let (a, b, done, done', same) =
        replay-converges x t.log u.log new_map_state new_map_state ts tc us uc refl last in
      ap contents (some-inj _ _ (sym mine ∙ done))
      ∙ same
      ∙ ap contents (some-inj _ _ (sym done' ∙ theirs))
