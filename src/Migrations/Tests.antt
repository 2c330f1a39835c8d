-- ===== src/Migrations/Tests.antt =====
-- Two scripts, of which the first is known already.
use network_diagnostic_tool.Common.{
  ◌≡◌, refl, true, List, [], ◌∷◌, ◌++◌, Text, text, All, contains, nat_eq, list_eq, ok,
}
use network_diagnostic_tool.Exceptions.{Raises}
use network_diagnostic_tool.Accounts.Sample.{settings}
use network_diagnostic_tool.Migrations.{
  Migration, Schema, insert_version, apply, apply_new, committed, migrate, migrate_twice,
}

-- the tables are the scripts that were executed
abbrev execute : Text → List Text → Raises (List Text)
execute script done = ok (done ++ script ∷ [])

abbrev files : List Migration
files =
    record { name = text "001_a.sql"; script = text "A" }
    ∷ record { name = text "002_b.sql"; script = text "B" }
    ∷ []

abbrev before : Schema execute
before = record { tables = []; versions = text "001_a.sql" ∷ [] }

abbrev after : Schema execute
after = record { tables = text "B" ∷ []; versions = text "001_a.sql" ∷ text "002_b.sql" ∷ [] }

migrates : migrate execute settings files before ≡ (ok (text "002_b.sql" ∷ []), after)
unfolding migrate committed apply_new apply insert_version
migrates = refl

migrate_twice_example :
    All (λ (m : Migration). contains after.versions m.name ≡ true) files
    × (migrate execute settings files after ≡ (ok [], after))
migrate_twice_example =
    migrate_twice execute settings files before after (text "002_b.sql" ∷ []) migrates
