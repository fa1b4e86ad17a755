-- ===== src/Tests/Control.antt =====
-- The control command on concrete inputs.
use ipfs_cluster.Common.{ℕ, ◌+◌, ◌≡◌, not, ◌&&◌, none, [], ◌==◌, eqb, ltb}
use ipfs_cluster.Common.Result.{ok, err}
use ipfs_cluster.Ctl.{Client, Options, format_response}
use ipfs_cluster.Ctl.Formatters.{Json, Format}
use ipfs_cluster.Ctl.Panics.{panics, is_blank, panics-format_response}
use ipfs_cluster.Tests.World.{codecs}

abbrev client : Client ℕ
client = record {
  new_request_error = λ m u. none;
  do_request = λ m p b w. (ok (200, ok []), w + 1);
  encode_add_body = λ a. a;
  error_resp_of = λ b. ok (404, "not found");
  indent = λ b. ok "";
  trim_suffix = λ s t. s;
}

abbrev json : Json
json = record {
  id_of = λ b. err "no ID";
  gp_info_of = λ b. err "no pin";
  version_of = λ b. ok "0.0.9";
  cid_arg_of = λ b. err "no CID";
  show_any = λ b. ok "map[]";
  raw_messages = λ b. ok [];
  show_nat = λ n. "404";
  show_list = λ l. "[]";
  to_upper = λ s. s;
}

abbrev options : Options
options = record { encoding = "text"; protocol = "http"; host = "127.0.0.1:9094" }

panics-format_response_example :
    panics (format_response codecs client json options Format.version 200 (ok [])) ≡ (
      is_blank (ok [])
      && not (ltb 399 200)
      && not (eqb 200 202)
      && not (eqb 200 204)
      && ("text" == "text"))
panics-format_response_example =
    panics-format_response codecs client json options Format.version 200 (ok [])
