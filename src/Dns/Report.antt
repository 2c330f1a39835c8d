-- ===== src/Dns/Report.antt =====
-- The records of a lookup.
use network_diagnostic_tool.Common.{
  ℕ, ◌≡◌, ◌≢◌, refl, sym, ap, ◌∙◌, drop, inl, inr, Bool, true, false, Option, List, [], ◌∷◌, ◌++◌,
  map, reverse, reverse-append, reverse-reverse, arith, Text, All, strip_leading, strip_trailing,
  ◌==◌, ==_iff, nat_eq, Bool-cases, ok, raised,
}
use network_diagnostic_tool.Exceptions.{
  Exception, domain_not_found, no_records, timeout_error, other_error,
}
use network_diagnostic_tool.Dns.Defs.{
  RecordType, a, aaaa, cname, mx, txt, ns, Rdata, Reply, answers, nxdomain, no_answer,
  no_nameservers, times_out, fails, Resolver, DnsLookupResult, format_record, after_reply,
  perform_dns_lookup,
}

-- The text does not end in a dot.
pub IsRelative : Text → Type 0
IsRelative t = (s : Text) → t ≢ s ++ b'.' ∷ []

strip_leading-first : (d : ℕ) (s t : Text) → strip_leading d s ≢ d ∷ t
unfolding strip_leading
strip_leading-first d [] t h = cc
strip_leading-first d (c ∷ s) t h = elim (Bool-cases (c == d)) [
  | inl hit ↦ strip_leading-first d s t (ground (arith, hit))
  | inr miss ↦ ground (arith, miss, ==_iff c d)
]

strip_trailing-IsRelative : (t : Text) → IsRelative (strip_trailing b'.' t)
unfolding IsRelative strip_trailing
strip_trailing-IsRelative t s h = strip_leading-first b'.' (reverse t) (reverse s) (
    sym (reverse-reverse (strip_leading b'.' (reverse t)))
    ∙ ap reverse h
    ∙ reverse-append s (b'.' ∷ []))

-- a text whose end is relative and not empty is relative
append-IsRelative : (s : Text) (c : ℕ) (t : Text) → IsRelative (c ∷ t) → IsRelative (s ++ c ∷ t)
unfolding IsRelative
append-IsRelative [] c t h u e = h u e
append-IsRelative (b ∷ s) c t h [] e = no_tail s (ap (drop 1) e)
  where
    no_tail : (s : Text) → s ++ c ∷ t ≢ []
    no_tail [] e = cc
    no_tail (b ∷ s) e = cc
append-IsRelative (b ∷ s) c t h (d ∷ u) e = append-IsRelative s c t h u (ap (drop 1) e)

space-IsRelative : (t : Text) → IsRelative t → IsRelative (b' ' ∷ t)
unfolding IsRelative
space-IsRelative t h [] e = ground arith
space-IsRelative t h (d ∷ u) e = h u (ap (drop 1) e)

-- The types whose records are names of hosts.
abbrev pub names_hosts : RecordType → Bool
names_hosts cname = true
names_hosts mx = true
names_hosts ns = true
names_hosts _ = false

format_record-IsRelative :
    (type : RecordType) (r : Rdata) → names_hosts type ≡ true → IsRelative (format_record type r)
unfolding format_record
format_record-IsRelative mx r h =
    append-IsRelative r.preference b' ' (strip_trailing b'.' r.exchange)
      (space-IsRelative (strip_trailing b'.' r.exchange) (strip_trailing-IsRelative r.exchange))
format_record-IsRelative cname r h = strip_trailing-IsRelative r.to_text
format_record-IsRelative ns r h = strip_trailing-IsRelative r.to_text
format_record-IsRelative a r h = cc
format_record-IsRelative aaaa r h = cc
format_record-IsRelative txt r h = cc

map-IsRelative :
    (type : RecordType) (answer : List Rdata)
    → names_hosts type ≡ true
    → All IsRelative (map (format_record type) answer)
map-IsRelative type [] h = tt
map-IsRelative type (r ∷ answer) h =
    (format_record-IsRelative type r h, map-IsRelative type answer h)

-- the exceptions that a lookup raises
abbrev pub is_lookup_error : Exception → Bool
is_lookup_error domain_not_found = true
is_lookup_error no_records = true
is_lookup_error timeout_error = true
is_lookup_error other_error = true
is_lookup_error _ = false

module _ (n : Resolver) (start end : ℕ) where
  -- What a result tells of the resolver's answer.
  pub record Lists (domain : Text) (type : RecordType) (result : DnsLookupResult) : Type 0 where
    pub answer : List Rdata
    pub ttl : Option ℕ
    pub answered : n.resolve domain type ≡ answers answer ttl
    pub asked : (result.domain ≡ domain) × (result.record_type ≡ type)
    pub same_ttl : result.ttl ≡ ttl
    pub records : result.records ≡ map (format_record type) answer
    pub relative : names_hosts type ≡ true → All IsRelative result.records

  after_reply-Lists :
      (domain : Text) (type : RecordType) (reply : Reply) (result : DnsLookupResult)
      → n.resolve domain type ≡ reply
      → after_reply n start end domain type reply ≡ ok result
      → Lists domain type result
  unfolding after_reply
  after_reply-Lists domain type (answers answer ttl) result replied h =
      let records : result.records ≡ map (format_record type) answer = ground arith in
      record {
        answer = answer;
        ttl = ttl;
        answered = replied;
        asked = ground arith;
        same_ttl = ground arith;
        records = records;
        relative = λ hosts. rw records (map-IsRelative type answer hosts);
      }
  after_reply-Lists domain type nxdomain result replied h = cc
  after_reply-Lists domain type no_answer result replied h = cc
  after_reply-Lists domain type no_nameservers result replied h = cc
  after_reply-Lists domain type times_out result replied h = cc
  after_reply-Lists domain type fails result replied h = cc

  -- A lookup that gives a result gives one for the domain and the type that were asked for. It lists
  -- all records of the resolver's answer in their order, each as `_format_record` prints it, with the
  -- TTL of the answer; and where the type's records are names of hosts, none ends in a dot.
  pub perform_dns_lookup-Lists :
      (domain : Text) (type : RecordType) (result : DnsLookupResult)
      → perform_dns_lookup n start end domain type ≡ ok result
      → Lists domain type result
  unfolding perform_dns_lookup
  perform_dns_lookup-Lists domain type result h =
      after_reply-Lists domain type (n.resolve domain type) result refl h

  after_reply-kind :
      (domain : Text) (type : RecordType) (reply : Reply) (e : Exception)
      → after_reply n start end domain type reply ≡ raised e
      → is_lookup_error e ≡ true
  unfolding after_reply
  after_reply-kind domain type (answers answer ttl) e h = cc
  after_reply-kind domain type nxdomain e h = ground arith
  after_reply-kind domain type no_answer e h = ground arith
  after_reply-kind domain type no_nameservers e h = ground arith
  after_reply-kind domain type times_out e h = ground arith
  after_reply-kind domain type fails e h = ground arith

  pub perform_dns_lookup-kind :
      (domain : Text) (type : RecordType) (e : Exception)
      → perform_dns_lookup n start end domain type ≡ raised e
      → is_lookup_error e ≡ true
  unfolding perform_dns_lookup
  perform_dns_lookup-kind domain type e h = after_reply-kind domain type (n.resolve domain type) e h
