-- ===== src/Ctl/Formatters.antt =====
-- ipfs-cluster-ctl/formatters.go: how the answers of the REST API are printed.
use ipfs_cluster.Common.{
  ℕ, String, Option, none, some, List, [], ◌∷◌, ◌++◌, ◌==◌, ◌<>◌, eqb, ltb, length, if◌then◌else◌,
}
use ipfs_cluster.Common.Result.{Error, Result, ok, err}
use ipfs_cluster.Api.Ids.{IdSerial}
use ipfs_cluster.Api.Types.{PinInfoSerial, GlobalPinInfoSerial, CidArgSerial}

-- The bytes of a body.
abbrev pub Bytes : Type 0
Bytes = List ℕ

-- How a program ends that does not return: with a message and status 1, or by a panic.
pub data End : Type 0 where
  exited : Error → End
  panicked : Error → End

-- What is printed, piece by piece, and how the program has ended, if it has.
pub record Printed : Type 0 where
  pub pieces : List String
  pub ended : Option End

abbrev pub say : List String → Printed
say pieces = record { pieces = pieces; ended = none }

abbrev pub end_with : End → Printed
end_with e = record { pieces = []; ended = some e }

-- one after the other; nothing is printed after an end
abbrev pub and_then : Printed → Printed → Printed
and_then a b = elim a.ended [
  | some e ↦ a
  | none ↦ record { pieces = a.pieces ++ b.pieces; ended = b.ended }
]

pub data Format : Type 0 where
  none_of : Format
  id : Format
  gp_info : Format
  string : Format
  version : Format
  cid_arg : Format

-- encoding/json, fmt and strings, as far as they are used: `show_any` is what a decoded value of any
-- type is printed as.
pub record Json : Type 0 where
  pub id_of : Bytes → Result IdSerial
  pub gp_info_of : Bytes → Result GlobalPinInfoSerial
  pub version_of : Bytes → Result String
  pub cid_arg_of : Bytes → Result CidArgSerial
  pub show_any : Bytes → Result String
  pub raw_messages : Bytes → Result (List Bytes)
  pub show_nat : ℕ → String
  pub show_list : List String → String
  pub to_upper : String → String

abbrev pub check_err : {A : Type 0} → String → Result A → (A → Printed) → Printed
check_err doing (err e) k = end_with (exited ("error " <> doing <> ": " <> e <> "\n"))
check_err doing (ok a) k = k a

abbrev addresses : List String → List String
addresses [] = []
addresses (a ∷ rest) = ("    - " <> a <> "\n") ∷ addresses rest

module _ (j : Json) where
  open j use {show_nat, show_list, to_upper}

  unfoldable pub print_id_serial : IdSerial → Printed
  print_id_serial obj =
      if obj.error == ""
      then (let own =
            (obj.id <> " | " <> show_nat (length obj.cluster_peers) <> " peers\n")
            ∷ "  > Addresses:\n"
            ∷ addresses obj.addresses in
          if obj.ipfs.error == ""
          then say (own ++ ("  > IPFS: " <> obj.ipfs.id <> "\n") ∷ addresses obj.ipfs.addresses)
          else say (own ++ ("  > IPFS ERROR: " <> obj.ipfs.error <> "\n") ∷ []))
      else say ((obj.id <> " | ERROR: " <> obj.error <> "\n") ∷ [])

  abbrev pub peer_line : String × PinInfoSerial → String
  peer_line (k, v) =
      if v.error == ""
      then "    > Peer " <> k <> ": " <> to_upper v.status <> " | " <> v.ts <> "\n"
      else "  - " <> k <> " ERROR: " <> v.error <> "\n"

  abbrev peer_lines : List (String × PinInfoSerial) → List String
  peer_lines [] = []
  peer_lines (p ∷ rest) = peer_line p ∷ peer_lines rest

  abbrev pub print_gp_info : GlobalPinInfoSerial → Printed
  print_gp_info obj = say ((obj.cid <> ":\n") ∷ peer_lines obj.peer_map)

  abbrev pub print_cid_arg : CidArgSerial → Printed
  print_cid_arg obj = say (
      (obj.cid <> " | Allocations: ")
      ∷ (if obj.everywhere then "[everywhere]\n" else show_list obj.allocations)
      ∷ [])

  unfoldable pub text_format_object : Bytes → Format → Printed
  unfolding print_id_serial
  text_format_object body Format.id = check_err "decoding JSON" (j.id_of body) print_id_serial
  text_format_object body Format.gp_info =
      check_err "decoding JSON" (j.gp_info_of body) print_gp_info
  text_format_object body Format.version =
      check_err "decoding JSON" (j.version_of body) (λ v. say ((v <> "\n") ∷ []))
  text_format_object body Format.cid_arg =
      check_err "decoding JSON" (j.cid_arg_of body) print_cid_arg
  text_format_object body Format.none_of =
      check_err "decoding JSON" (j.show_any body) (λ s. say ((s <> "\n") ∷ []))
  text_format_object body Format.string =
      check_err "decoding JSON" (j.show_any body) (λ s. say ((s <> "\n") ∷ []))

  unfoldable pub each_object : Format → List Bytes → Printed
  unfolding text_format_object
  each_object format [] = say []
  each_object format (raw ∷ rest) =
      and_then (text_format_object raw format) (each_object format rest)

  unfoldable pub text_format_slice : Bytes → Format → Printed
  unfolding each_object
  text_format_slice body format =
      check_err "decoding JSON" (j.raw_messages body) (each_object format)

  -- 91 is '['
  unfoldable pub text_format_body : Bytes → Format → Printed
  unfolding text_format_slice text_format_object
  text_format_body [] format = end_with (panicked "index out of range")
  text_format_body (b ∷ rest) format =
      if eqb b 91 then text_format_slice (b ∷ rest) format else text_format_object (b ∷ rest) format

  unfoldable pub text_format : Bytes → Format → Printed
  unfolding text_format_body
  text_format body format =
      and_then (if ltb (length body) 2 then say ("\n" ∷ []) else say [])
        (text_format_body body format)
