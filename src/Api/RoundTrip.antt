-- ===== src/Api/RoundTrip.antt =====
-- api/types.go: the serial forms against the native ones.
use ipfs_cluster.Common.{◌≡◌, refl, true, List, [], ◌∷◌, map, arith, ◌==◌, eq_refl, All, Memᴰ}
use ipfs_cluster.Common.Result.{value_or}
use ipfs_cluster.External.{Codecs, PeerId, CidDecodes, PeerDecodes, AddrDecodes}
use ipfs_cluster.Api.Status.{
  TrackerStatus, bug, cluster_error, pin_error, unpin_error, pinned, pinning, unpinning, unpinned,
  remote, status_string, scan_status, tracker_status_from_string,
}
use ipfs_cluster.Api.Types.{
  PinInfo, CidArg, pin_info_to_serial, to_pin_info, cid_arg_to_serial, to_cid_arg,
}
use ipfs_cluster.Api.Ids.{ClusterId, multiaddrs_to_serial, to_multiaddrs, id_to_serial, to_id}

-- Different statuses have different texts.
pub status_string-injective :
    (a b : TrackerStatus) → (status_string a == status_string b) ≡ true → a ≡ b
unfolding status_string
status_string-injective bug bug h = refl
status_string-injective cluster_error cluster_error h = refl
status_string-injective pin_error pin_error h = refl
status_string-injective unpin_error unpin_error h = refl
status_string-injective pinned pinned h = refl
status_string-injective pinning pinning h = refl
status_string-injective unpinning unpinning h = refl
status_string-injective unpinned unpinned h = refl
status_string-injective remote remote h = refl
status_string-injective _ _ h = cc

-- In whatever order the map of the names is gone through, the text of a status that the map holds
-- is read as that status.
pub scan_status-status_string :
    (order : List TrackerStatus) (s : TrackerStatus)
    → Memᴰ s order
    → scan_status order (status_string s) ≡ s
unfolding scan_status
scan_status-status_string [] s m = elim m [ ]
scan_status-status_string (k ∷ order) s (Memᴰ.head e) = rw (← e, eq_refl (status_string s))
scan_status-status_string (k ∷ order) s (Memᴰ.tail m) =
    ground (arith, status_string-injective k s, scan_status-status_string order s m)

pub status_round_trip : (s : TrackerStatus) → tracker_status_from_string (status_string s) ≡ s
unfolding tracker_status_from_string status_string
status_round_trip bug = refl
status_round_trip _ = refl

module _ {Cid Addr : Type 0} (x : Codecs Cid Addr) where
  -- A pin's information whose time is as the serial form keeps it.
  abbrev pub rewritten : PinInfo Cid → PinInfo Cid
  rewritten pi = record pi { ts = value_or 0 (x.parse_rfc1123 (x.format_rfc1123 pi.ts)) }

  -- A pin's information comes back from its serial form whole but for its time, which is read from
  -- its text, if its CID and its peer decode.
  pub to_pin_info-pin_info_to_serial :
      (pi : PinInfo Cid)
      → CidDecodes x pi.cid
      → PeerDecodes x pi.peer
      → to_pin_info x (pin_info_to_serial x pi) ≡ rewritten pi
  unfolding to_pin_info pin_info_to_serial
  to_pin_info-pin_info_to_serial pi hc hp = rw (hc, hp, status_round_trip)

  decode-encode_all :
      (ps : List PeerId)
      → All (PeerDecodes x) ps
      → map (λ p. value_or "" (x.b58_decode p)) (map x.b58_encode ps) ≡ ps
  decode-encode_all [] h = refl
  decode-encode_all (p ∷ ps) h = rw (h.0, decode-encode_all ps h.1)

  pub to_cid_arg-cid_arg_to_serial :
      (carg : CidArg Cid)
      → CidDecodes x carg.cid
      → All (PeerDecodes x) carg.allocations
      → to_cid_arg x (cid_arg_to_serial x carg) ≡ carg
  unfolding to_cid_arg cid_arg_to_serial
  to_cid_arg-cid_arg_to_serial carg hc hp = rw (hc, decode-encode_all carg.allocations hp)

  pub to_multiaddrs-multiaddrs_to_serial :
      (addrs : List Addr)
      → All (AddrDecodes x) addrs
      → to_multiaddrs x (multiaddrs_to_serial x addrs) ≡ addrs
  unfolding to_multiaddrs multiaddrs_to_serial
  to_multiaddrs-multiaddrs_to_serial [] h = refl
  to_multiaddrs-multiaddrs_to_serial (a ∷ addrs) h =
      rw (h.0, to_multiaddrs-multiaddrs_to_serial addrs h.1)

  -- What a peer says of itself comes back from its serial form, if its IDs and addresses decode.
  pub to_id-id_to_serial :
      (i : ClusterId Addr)
      → PeerDecodes x i.id
      → PeerDecodes x i.ipfs.id
      → All (AddrDecodes x) i.addresses
      → All (AddrDecodes x) i.cluster_peers
      → All (AddrDecodes x) i.ipfs.addresses
      → to_id x (id_to_serial x i) ≡ i
  unfolding to_id id_to_serial
  to_id-id_to_serial i hp hi ha hc hia = rw (
    hp,
    hi,
    to_multiaddrs-multiaddrs_to_serial i.addresses ha,
    to_multiaddrs-multiaddrs_to_serial i.cluster_peers hc,
    to_multiaddrs-multiaddrs_to_serial i.ipfs.addresses hia,
  )
