-- ===== src/ClientInfo.antt =====
-- app/api/client_info.py: `client_info`, with `get_request_id` of app/core/logging.py. A list of
-- headers is a function; the version of HTTP, the scheme and the host are taken as they come.
use mathlib.Core.Option
use network_diagnostic_tool.Common.{
  ℕ, ◌≡◌, false, Option, none, some, arith, List, [], Text, text, map, keep_if, non_empty, split,
  contains, list_eq, nat_eq, if◌then◌else◌,
}
use network_diagnostic_tool.Settings.{Settings}
use network_diagnostic_tool.Accounts.Credentials.{Crypto, strip}
use network_diagnostic_tool.Guards.ClientIp.{Peer, direct_ip, get_real_client_ip}
use network_diagnostic_tool.HttpService.Defs.{elapsed_ms}
use network_diagnostic_tool.Responses.{ApiResponse, success_response}

pub record ClientInfoData : Type 0 where
  pub client_ip : Text
  pub forwarded_for : List Text
  pub user_agent : Option Text
  pub accept_language : Option Text
  pub protocol : Text
  pub scheme : Text
  pub host : Text

-- the rest of a request
pub record Envelope : Type 0 where
  pub user_agent : Option Text
  pub accept_language : Option Text
  pub protocol : Option Text
  pub scheme : Text
  pub host : Option Text

-- `get_request_id`: the id in the request's state, or a fresh one, which is put there
unfoldable get_request_id : ℕ → Option ℕ → ℕ × Option ℕ
get_request_id fresh none = (fresh, some fresh)
get_request_id fresh (some id) = (id, some id)

module _ (s : Settings) (x : Crypto) where
  -- `[ip.strip() for ip in header.split(",") if ip.strip()]`
  abbrev pieces_of : Text → List Text
  pieces_of header = keep_if non_empty (map (strip s x) (split b',' header))

  -- `if header`
  abbrev given_header : Option Text → Text
  given_header none = []
  given_header (some header) = header

  unfoldable forwarded_for_of : Peer → List Text
  forwarded_for_of peer =
      let header = given_header peer.x_forwarded_for in
      if contains s.trusted_proxy_ips (direct_ip peer)
      then (if non_empty header then pieces_of header else [])
      else []

  unfoldable client_info : ℕ → Option ℕ → ℕ → ℕ → Peer → Envelope → ApiResponse ClientInfoData
  unfolding get_request_id forwarded_for_of
  client_info fresh id start end peer e =
      success_response
        (record {
          client_ip = get_real_client_ip s x peer;
          forwarded_for = forwarded_for_of peer;
          user_agent = e.user_agent;
          accept_language = e.accept_language;
          protocol = Option.get_or e.protocol (text "1.1");
          scheme = e.scheme;
          host = Option.get_or e.host [];
        })
        (get_request_id fresh id).0 (elapsed_ms start end)

  -- of a host that is no trusted proxy, no header is believed, and none is shown
  client_info-untrusted :
      (fresh start end : ℕ) (id : Option ℕ) (peer : Peer) (e : Envelope) (d : ClientInfoData)
      → contains s.trusted_proxy_ips (direct_ip peer) ≡ false
      → (client_info fresh id start end peer e).content ≡ some d
      → (d.client_ip ≡ direct_ip peer) × (d.forwarded_for ≡ [])
  unfolding client_info get_real_client_ip forwarded_for_of
  client_info-untrusted fresh start end id peer e d h shown = (ground arith, ground arith)
