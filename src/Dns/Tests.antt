-- ===== src/Dns/Tests.antt =====
-- The mail servers of a domain.
use network_diagnostic_tool.Common.{
  ◌≡◌, refl, some, [], ◌∷◌, text, strip_leading, strip_trailing, nat_eq, ok,
}
use network_diagnostic_tool.Dns.Defs.{
  mx, Rdata, answers, Resolver, DnsLookupResult, format_record, after_reply, perform_dns_lookup,
}
use network_diagnostic_tool.Dns.Report.{Lists, perform_dns_lookup-Lists}

abbrev mail_server : Rdata
mail_server = record {
  to_text = text "10 mx.a.co.";
  preference = text "10";
  exchange = text "mx.a.co.";
  strings = [];
}

abbrev resolver : Resolver
resolver = record {
  nameservers = text "8.8.8.8" ∷ [];
  resolve = λ domain type. answers (mail_server ∷ []) (some 300);
}

abbrev expected : DnsLookupResult
expected = record {
  domain = text "a.co";
  record_type = mx;
  records = text "10 mx.a.co" ∷ [];
  ttl = some 300;
  resolver = some (text "8.8.8.8");
  lookup_time_ms = 5;
}

looks_up : perform_dns_lookup resolver 1000000 6000000 (text "a.co") mx ≡ ok expected
unfolding perform_dns_lookup after_reply format_record strip_trailing strip_leading
looks_up = refl

perform_dns_lookup-Lists_example : Lists resolver 1000000 6000000 (text "a.co") mx expected
perform_dns_lookup-Lists_example =
    perform_dns_lookup-Lists resolver 1000000 6000000 (text "a.co") mx expected looks_up
