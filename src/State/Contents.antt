-- ===== src/State/Contents.antt =====
-- state/mapstate/map_state.go and log_op.go: the shared state without the order of its map.
use mathlib.Core.Quot
use mathlib.Core.Quot.{Quot, Quot-set}
use text.Mathlib.TextEquality.{IsScalar-prop}
use ipfs_cluster.Common.{String, ◌≡◌, sym, ap, ◌∙◌, Option, some, List, All}
use ipfs_cluster.Common.Dict.{lookup}
use ipfs_cluster.External.{Codecs}
use ipfs_cluster.Api.Types.{CidArgSerial}
use ipfs_cluster.State.{MapState}
use ipfs_cluster.LogOp.{LogOp}
use ipfs_cluster.LogOp.Replay.{replay, last_entry, entry_after, HasSerial, CanApply, lookup-replay}

-- Two maps have the same entries, in whatever order they are gone through.
abbrev pub SameEntries : MapState → MapState → Type 0
SameEntries st st' = (k : String) → lookup k st.pin_map ≡ lookup k st'.pin_map

-- The shared state, as what is read from it.
abbrev pub Contents : Type 0
Contents = Quot SameEntries

abbrev pub contents : MapState → Contents
contents = Quot.mk

entry_set : IsSet (Option CidArgSerial)
entry_set = hlevel (IsScalar-prop)

-- what is read under a key
unfoldable pub entry : String → Contents → Option CidArgSerial
unfolding entry_set
entry k = Quot.lift entry_set (λ st. lookup k st.pin_map) (λ a b same. same k)

pub contents-exact : (st st' : MapState) → contents st ≡ contents st' → SameEntries st st'
unfolding entry
contents-exact st st' e k = ap (entry k) e

module _ {Cid Addr : Type 0} (x : Codecs Cid Addr) where
  -- Two peers, whose shared states have the same contents, apply logs that leave the same last
  -- operation on every CID (in another order, or with operations that later ones supersede): both logs are
  -- applied without an error, and the states have the same contents again. The operations are in
  -- serial form and the peers that they remove have an ID.
  pub replay-converges :
      (log log' : List LogOp) (st st' : MapState)
      → All (HasSerial x) log
      → All (CanApply x) log
      → All (HasSerial x) log'
      → All (CanApply x) log'
      → contents st ≡ contents st'
      → ((k : String) → last_entry x log k ≡ last_entry x log' k)
      → (a : MapState) × (b : MapState) × (replay x log st ≡ some a)
        × (replay x log' st' ≡ some b)
        × (contents a ≡ contents b)
  replay-converges log log' st st' s h s' h' same last =
      let (a, done, ks) = lookup-replay x log st s h in
      let (b, done', ks') = lookup-replay x log' st' s' h' in
      (
        a,
        b,
        done,
        done',
        Quot.sound (λ k.
            ks k
            ∙ ap (λ e. entry_after x e (lookup k st.pin_map)) (last k)
            ∙ ap (entry_after x (last_entry x log' k)) (contents-exact st st' same k)
            ∙ sym (ks' k)),
      )
