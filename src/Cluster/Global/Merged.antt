-- ===== src/Cluster/Global/Merged.antt =====
-- cluster.go: what the gathered statuses hold, for every CID and every member.
use mathlib.Core.List.Memᴰ
use ipfs_cluster.Common.{
  ℕ, String, ◌≡◌, ◌⊎◌, ◌∙◌, refl, sym, ap, Bool, false, ◌||◌, Option, none, some, List, [], ◌∷◌,
  Memᴰ, arith, ◌==◌, eq_iff, Bool-cases, Option-cases, inl, inr,
}
use ipfs_cluster.Common.Dict.{Dict, Distinct, lookup, insert, has, lookup-insert, insert-Distinct}
use ipfs_cluster.Common.Result.{Error, value_or}
use ipfs_cluster.External.{Codecs, PeerId}
use ipfs_cluster.Api.Types.{PinInfoSerial, to_pin_info, GlobalPinInfo}
use ipfs_cluster.Cluster.Global.{
  unreachable, with_pin, merge_pins, merge_replies, mark_one, mark_errors, full_map,
}

module _ {Cid Addr : Type 0} (x : Codecs Cid Addr) (now : ℕ) where
  -- One of the pins is reported under the text.
  pub in_reply : String → List PinInfoSerial → Bool
  in_reply k [] = false
  in_reply k (p ∷ pins) = (p.cid == k) || in_reply k pins

  -- One of the members that answered without an error reports the CID.
  pub is_reported : (PeerId → List PinInfoSerial × Option Error) → List PeerId → String → Bool
  is_reported ask [] k = false
  is_reported ask (m ∷ members) k = elim (ask m).1 [
    | none ↦ in_reply k (ask m).0 || is_reported ask members k
    | some e ↦ is_reported ask members k
  ]

  has-merge_pins :
      (k : String) (pins : List PinInfoSerial) (full : Dict (GlobalPinInfo Cid))
      → has k (merge_pins x now pins full) ≡ (in_reply k pins || has k full)
  unfolding merge_pins in_reply
  has-merge_pins k [] full = refl
  has-merge_pins k (p ∷ pins) full = ground (
    arith,
    lookup-insert p.cid k (with_pin x now (to_pin_info x p) (lookup p.cid full)) full,
    has-merge_pins k pins
        (insert p.cid (with_pin x now (to_pin_info x p) (lookup p.cid full)) full),
  )

  has-merge_replies :
      (ask : PeerId → List PinInfoSerial × Option Error) (members : List PeerId)
      (full : Dict (GlobalPinInfo Cid)) (errored : Dict Error) (k : String)
      → has k (merge_replies x now ask members full errored).0
        ≡ (is_reported ask members k || has k full)
  unfolding merge_replies is_reported
  has-merge_replies ask [] full errored k = refl
  has-merge_replies ask (m ∷ members) full errored k = ground (
    arith,
    has-merge_pins k (ask m).0 full,
    has-merge_replies ask members full (insert m (value (ask m).1) errored) k,
    has-merge_replies ask members (merge_pins x now (ask m).0 full) errored k,
  )
    where
      value : Option Error → Error
      value none = ""
      value (some e) = e

  lookup-mark_one :
      (p : PeerId) (msg : Error) (full : Dict (GlobalPinInfo Cid)) (k : String)
      (g : GlobalPinInfo Cid)
      → lookup k (mark_one x now p msg full) ≡ some g
      → (item : GlobalPinInfo Cid) × (lookup k full ≡ some item)
        × (g.peer_map
            ≡ insert p
                (unreachable x now (value_or x.nil_cid (x.cid_decode k)) p msg)
                item.peer_map)
  unfolding mark_one lookup
  lookup-mark_one p msg [] k g e = absurd (cc)
  lookup-mark_one p msg ((j, item) ∷ full) k g e = elim (Bool-cases (j == k)) [
    | inl here ↦ (item, rw here refl, ground (arith, eq_iff j k))
    | inr there ↦
        let (item', f, m) = lookup-mark_one p msg full k g (rw there at e) in (item', rw there f, m)
  ]

  -- marks for other members leave a member's entry
  mark_errors-absent :
      (errored : Dict Error) (full : Dict (GlobalPinInfo Cid)) (k : String) (g : GlobalPinInfo Cid)
      (p : PeerId)
      → lookup p errored ≡ none
      → lookup k (mark_errors x now errored full) ≡ some g
      → (item : GlobalPinInfo Cid) × (lookup k full ≡ some item)
        × (lookup p g.peer_map ≡ lookup p item.peer_map)
  unfolding mark_errors lookup
  mark_errors-absent [] full k g p out e = (g, e, refl)
  mark_errors-absent ((q, msg) ∷ errored) full k g p out e =
      let other : (q == p) ≡ false = ground arith in
      let (item1, f1, m1) =
        mark_errors-absent errored (mark_one x now q msg full) k g p (rw other at out) e in
      let (item, f, m) = lookup-mark_one q msg full k item1 f1 in
      (
        item,
        f,
        m1
            ∙ ap (lookup p) m
            ∙ (lookup-insert q p (unreachable x now (value_or x.nil_cid (x.cid_decode k)) q msg)
                  item.peer_map
                ∙ rw other refl),
      )

  mark_errors-lookup :
      (errored : Dict Error) (full : Dict (GlobalPinInfo Cid)) (k : String) (g : GlobalPinInfo Cid)
      (p : PeerId) (msg : Error)
      → Distinct errored
      → lookup p errored ≡ some msg
      → lookup k (mark_errors x now errored full) ≡ some g
      → lookup p g.peer_map ≡ some (unreachable x now (value_or x.nil_cid (x.cid_decode k)) p msg)
  unfolding mark_errors
  mark_errors-lookup [] full k g p msg d i e = absurd (unfold lookup in cc)
  mark_errors-lookup ((q, qmsg) ∷ errored) full k g p msg d i e = elim (Bool-cases (q == p)) [
    | inr other ↦
        mark_errors-lookup errored (mark_one x now q qmsg full) k g p msg d.1
          (unfold lookup in ground arith) e
    | inl here ↦
        let same : q ≡ p = (eq_iff q p).0 here in
        let (item1, f1, m1) =
          mark_errors-absent errored (mark_one x now q qmsg full) k g p (rw same at d.0) e in
        let (item, f, m) = lookup-mark_one q qmsg full k item1 f1 in
        let it : qmsg ≡ msg = unfold lookup in ground arith in
        m1
        ∙ ap (lookup p) m
        ∙ (lookup-insert q p (unreachable x now (value_or x.nil_cid (x.cid_decode k)) q qmsg)
              item.peer_map
            ∙ rw (here, same, it) refl)
  ]

  has-mark_one :
      (p : PeerId) (msg : Error) (full : Dict (GlobalPinInfo Cid)) (k : String)
      → has k (mark_one x now p msg full) ≡ has k full
  unfolding mark_one lookup
  has-mark_one p msg [] k = refl
  has-mark_one p msg ((j, item) ∷ full) k = ground (arith, has-mark_one p msg full k)

  has-mark_errors :
      (errored : Dict Error) (full : Dict (GlobalPinInfo Cid)) (k : String)
      → has k (mark_errors x now errored full) ≡ has k full
  unfolding mark_errors
  has-mark_errors [] full k = refl
  has-mark_errors ((p, msg) ∷ errored) full k =
      has-mark_errors errored (mark_one x now p msg full) k ∙ has-mark_one p msg full k

  -- the error of a member is kept until the end
  merge_replies-errored :
      (ask : PeerId → List PinInfoSerial × Option Error) (members : List PeerId)
      (full : Dict (GlobalPinInfo Cid)) (errored : Dict Error) (p : PeerId) (e : Error)
      → (ask p).1 ≡ some e
      → (lookup p errored ≡ some e) ⊎ Memᴰ p members
      → lookup p (merge_replies x now ask members full errored).1 ≡ some e
  unfolding merge_replies
  merge_replies-errored ask [] full errored p e h (inl there) = there
  merge_replies-errored ask [] full errored p e h (inr i) = elim i [ ]
  merge_replies-errored ask (m ∷ members) full errored p e h known = elim (Option-cases (ask m).1) [
    | inl fine ↦
        rw (fine, merge_replies)
          (merge_replies-errored ask members _ errored p e h (elim known [
            | inl there ↦ inl there
            | inr i ↦ elim (Memᴰ.cases_cons i) [
              | inl same ↦ absurd (cc (ap (λ q. (ask q).1) same, h, fine))
              | inr j ↦ inr j
            ]
          ]))
    | inr (e', bad) ↦
        rw (bad, merge_replies)
          (merge_replies-errored ask members full (insert m e' errored) p e h
            (elim (Bool-cases (m == p)) [
              | inl here ↦
                  let same : m ≡ p = (eq_iff m p).0 here in
                  let it : some e' ≡ some e = sym bad ∙ ap (λ q. (ask q).1) same ∙ h in
                  inl (lookup-insert m p e' errored ∙ rw here it)
              | inr other ↦ elim known [
                | inl there ↦ inl (lookup-insert m p e' errored ∙ rw other there)
                | inr i ↦ elim (Memᴰ.cases_cons i) [
                  | inl same ↦ absurd (ground (arith, eq_iff m p))
                  | inr j ↦ inr j
                ]
              ]
            ]))
  ]

  merge_replies-Distinct :
      (ask : PeerId → List PinInfoSerial × Option Error) (members : List PeerId)
      (full : Dict (GlobalPinInfo Cid)) (errored : Dict Error)
      → Distinct errored
      → Distinct (merge_replies x now ask members full errored).1
  unfolding merge_replies
  merge_replies-Distinct ask [] full errored d = d
  merge_replies-Distinct ask (m ∷ members) full errored d = elim (Option-cases (ask m).1) [
    | inl fine ↦ rw (fine, merge_replies) (merge_replies-Distinct ask members _ errored d)
    | inr (e, bad) ↦
        rw (bad, merge_replies)
          (merge_replies-Distinct ask members full (insert m e errored)
            (insert-Distinct m e errored d))
  ]

  -- `globalPinInfoSlice` has an entry for exactly the CIDs that some member reports that answers
  -- without an error.
  pub has-full_map :
      (ask : PeerId → List PinInfoSerial × Option Error) (members : List PeerId) (k : String)
      → has k (full_map x now ask members) ≡ is_reported ask members k
  unfolding full_map
  has-full_map ask members k =
      has-mark_errors (merge_replies x now ask members [] []).1 _ k
      ∙ (has-merge_replies ask members [] [] k ∙ unfold lookup in ground arith)

  -- In each entry of `globalPinInfoSlice` every member that answers with an error stands as
  -- `cluster_error`, with its error's message.
  pub lookup-full_map :
      (ask : PeerId → List PinInfoSerial × Option Error) (members : List PeerId) (k : String)
      (g : GlobalPinInfo Cid) (p : PeerId) (e : Error)
      → lookup k (full_map x now ask members) ≡ some g
      → Memᴰ p members
      → (ask p).1 ≡ some e
      → lookup p g.peer_map ≡ some (unreachable x now (value_or x.nil_cid (x.cid_decode k)) p e)
  unfolding full_map
  lookup-full_map ask members k g p e f i h =
      mark_errors-lookup _ _ k g p e (merge_replies-Distinct ask members [] [] tt)
        (merge_replies-errored ask members [] [] p e h (inr i)) f
