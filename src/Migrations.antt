-- ===== src/Migrations.antt =====
-- app/db/migrations.py: `migrate`, and that it may be run again.
use network_diagnostic_tool.Common.{
  ◌≡◌, refl, ap, inl, inr, Bool, true, false, ◌||◌, List, [], ◌∷◌, ◌++◌, arith, Text, All, contains,
  ◌==◌, ==_refl, nat_eq, list_eq, Bool-cases, Result-cases, ok, raised, ◌>>=◌, if◌then◌else◌,
}
use network_diagnostic_tool.Exceptions.{Exception, Raises, unique_violation, other_error}
use network_diagnostic_tool.Settings.{Settings}
mod Tests

-- a file of the directory: its name and its text
pub record Migration : Type 0 where
  pub name : Text
  pub script : Text

-- The tables behind the scripts are of any type, and a script is executed on them by the database.
module _ {S : Type 0} (execute : Text → S → Raises S) where
  -- the tables, and the table `schema_migrations`
  pub record Schema : Type 0 where
    pub tables : S
    pub versions : List Text

  -- `INSERT INTO schema_migrations`, whose `version` is its key
  unfoldable pub insert_version : Text → List Text → S → Raises Schema
  insert_version name versions tables =
      if contains versions name
      then raised unique_violation
      else ok (record { tables = tables; versions = versions ++ name ∷ [] })

  unfoldable pub apply : Migration → Schema → Raises Schema
  unfolding insert_version
  apply m w = execute m.script w.tables >>= insert_version m.name w.versions

  -- the loop over the files, with the versions that were known before it
  unfoldable pub apply_new : List Text → List Migration → Schema → Raises (List Text × Schema)
  unfolding apply
  apply_new known [] w = ok ([], w)
  apply_new known (m ∷ files) w = elim (contains known m.name) [
    | true ↦ apply_new known files w
    | false ↦ elim (apply m w) [
      | raised e ↦ raised e
      | ok w' ↦ apply_new known files w' >>= λ (names, end). ok (m.name ∷ names, end)
    ]
  ]

  -- the transaction around the loop
  unfoldable pub committed : Schema → Raises (List Text × Schema) → Raises (List Text) × Schema
  committed w (raised e) = (raised e, w)
  committed w (ok (names, w')) = (ok names, w')

  -- `files` is the sorted directory
  unfoldable pub migrate : Settings → List Migration → Schema → Raises (List Text) × Schema
  unfolding committed apply_new
  migrate s files w =
      if s.database_enabled
      then committed w (apply_new w.versions files w)
      else (raised other_error, w)

  contains-append :
      (names more : List Text) (v : Text)
      → contains names v ≡ true
      → contains (names ++ more) v ≡ true
  contains-append [] more v h = cc
  contains-append (n ∷ names) more v h = ground (arith, contains-append names more v)

  contains-last : (names : List Text) (v : Text) → contains (names ++ v ∷ []) v ≡ true
  contains-last [] v = ground (arith, ==_refl v)
  contains-last (n ∷ names) v = ground (arith, contains-last names v)

  apply-versions :
      (m : Migration) (w w' : Schema) → apply m w ≡ ok w' → w'.versions ≡ w.versions ++ m.name ∷ []
  unfolding apply insert_version
  apply-versions m w w' h = elim (Result-cases (execute m.script w.tables)) [
    | inl (tables, done) ↦ ground (arith, done)
    | inr (e, failed) ↦ ground (arith, failed)
  ]

  -- What a loop that ends has done: it has kept all versions, and has every file among them.
  abbrev pub Covers : List Text → List Migration → Schema → Schema → Type 0
  Covers known files w w' =
      ((v : Text) → contains w.versions v ≡ true → contains w'.versions v ≡ true)
      × (((v : Text) → contains known v ≡ true → contains w.versions v ≡ true)
          → All (λ (m : Migration). contains w'.versions m.name ≡ true) files)

  apply_new-Covers :
      (known : List Text) (files : List Migration) (w w' : Schema) (names : List Text)
      → apply_new known files w ≡ ok (names, w')
      → Covers known files w w'
  unfolding apply_new
  apply_new-Covers known [] w w' names h = ((λ v k. ground arith), λ known_before. tt)
  apply_new-Covers known (m ∷ files) w w' names h = elim (Bool-cases (contains known m.name)) [
    | inl old ↦
        let (keeps, covers) = apply_new-Covers known files w w' names (ground (arith, old)) in
        (keeps, λ known_before. (keeps m.name (known_before m.name old), covers known_before))
    | inr new ↦ elim (Result-cases (apply m w)) [
      | inr (e, failed) ↦ absurd (ground (arith, new, failed))
      | inl (w1, done) ↦ elim (Result-cases (apply_new known files w1)) [
        | inr (e, failed) ↦ absurd (ground (arith, new, done, failed))
        | inl ((more, end), rest) ↦
            let same : end ≡ w' = ground (arith, new, done, rest) in
            let (keeps, covers) = apply_new-Covers known files w1 w' more (rw same at rest) in
            let versions = apply-versions m w w1 done in
            let before : (v : Text) → contains w.versions v ≡ true → contains w1.versions v ≡ true =
              λ v k. rw versions (contains-append w.versions (m.name ∷ []) v k) in
            (
              λ v k. keeps v (before v k),
              λ known_before. (
                keeps m.name (rw versions (contains-last w.versions m.name)),
                covers (λ v k. before v (known_before v k)),
              ),
            )
      ]
    ]
  ]

  apply_new-nothing :
      (known : List Text) (files : List Migration) (w : Schema)
      → All (λ (m : Migration). contains known m.name ≡ true) files
      → apply_new known files w ≡ ok ([], w)
  unfolding apply_new
  apply_new-nothing known [] w h = refl
  apply_new-nothing known (m ∷ files) w (old, h) =
      ground (arith, old, apply_new-nothing known files w h)

  -- A migration that succeeds has put every file of the directory among the versions, and a second one
  -- over the same directory applies nothing and changes nothing.
  pub migrate_twice :
      (s : Settings) (files : List Migration) (w w' : Schema) (names : List Text)
      → migrate s files w ≡ (ok names, w')
      → All (λ (m : Migration). contains w'.versions m.name ≡ true) files
        × (migrate s files w' ≡ (ok [], w'))
  unfolding migrate committed
  migrate_twice s files w w' names h = elim (Bool-cases s.database_enabled) [
    | inr off ↦ absurd (ground (arith, off))
    | inl on ↦ elim (Result-cases (apply_new w.versions files w)) [
      | inr (e, failed) ↦ absurd (ground (arith, on, failed))
      | inl ((more, end), done) ↦
          let same : end ≡ w' = ground (arith, on, done) in
          let all_there =
            (apply_new-Covers w.versions files w w' more (rw same at done)).1 (λ v k. k) in
          (all_there, ground (arith, on, apply_new-nothing w'.versions files w' all_there))
    ]
  ]
