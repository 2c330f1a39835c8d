-- ===== src/Dns/Defs.antt =====
-- app/services/dns_service.py: `_format_record` and `perform_dns_lookup`. dnspython is an argument,
-- `Resolver`: it parses the answers, and a record comes as the texts that the code asks it for.
use network_diagnostic_tool.Common.{
  ℕ, Option, none, some, List, [], ◌∷◌, ◌++◌, map, Text, strip_trailing, ok, raised,
}
use network_diagnostic_tool.Exceptions.{
  Raises, domain_not_found, no_records, timeout_error, other_error,
}
use network_diagnostic_tool.HttpService.Defs.{elapsed_ms}

-- app/schemas/request.py, `DnsRecordType`
pub data RecordType : Type 0 where
  a aaaa cname mx txt ns : RecordType

-- `to_text()`, and for the types that have them `preference`, as it is printed, `exchange.to_text()`
-- and the joined `strings`, decoded
pub record Rdata : Type 0 where
  pub to_text : Text
  pub preference : Text
  pub exchange : Text
  pub strings : Text

-- what `resolve` does: the records with the TTL of the set, `NXDOMAIN`, `NoAnswer`, `NoNameservers`,
-- `Timeout`, or any other exception
pub data Reply : Type 0 where
  answers : List Rdata → Option ℕ → Reply
  nxdomain no_answer no_nameservers times_out fails : Reply

pub record Resolver : Type 0 where
  pub nameservers : List Text
  pub resolve : Text → RecordType → Reply

pub record DnsLookupResult : Type 0 where
  pub domain : Text
  pub record_type : RecordType
  pub records : List Text
  pub ttl : Option ℕ
  pub resolver : Option Text
  pub lookup_time_ms : ℕ

-- `_format_record`
unfoldable pub format_record : RecordType → Rdata → Text
format_record mx r = r.preference ++ b' ' ∷ strip_trailing b'.' r.exchange
format_record txt r = r.strings
format_record cname r = strip_trailing b'.' r.to_text
format_record ns r = strip_trailing b'.' r.to_text
format_record a r = r.to_text
format_record aaaa r = r.to_text

-- `resolver.nameservers[0] if resolver.nameservers else None`
abbrev pub first_server : List Text → Option Text
first_server [] = none
first_server (server ∷ servers) = some server

module _ (n : Resolver) (start end : ℕ) where
  unfoldable pub after_reply : Text → RecordType → Reply → Raises DnsLookupResult
  unfolding format_record
  after_reply domain type (answers answer ttl) = ok (record {
    domain = domain;
    record_type = type;
    records = map (format_record type) answer;
    ttl = ttl;
    resolver = first_server n.nameservers;
    lookup_time_ms = elapsed_ms start end;
  })
  after_reply domain type nxdomain = raised domain_not_found
  after_reply domain type no_answer = raised no_records
  after_reply domain type no_nameservers = raised domain_not_found
  after_reply domain type times_out = raised timeout_error
  after_reply domain type fails = raised other_error

  -- `start` and `end` are the readings of the clock around the resolution
  unfoldable pub perform_dns_lookup : Text → RecordType → Raises DnsLookupResult
  unfolding after_reply
  perform_dns_lookup domain type = after_reply domain type (n.resolve domain type)
