-- ===== src/Diagnostics/Recorded.antt =====
-- What `persist_diagnostic` leaves behind.
use mathlib.Core.Path.{subst}
use network_diagnostic_tool.Common.{
  ℕ, ◌≡◌, refl, ap, inl, inr, false, ◌&&◌, List, [], ◌∷◌, ◌++◌, map, arith, any, ◌==◌, nat_eq,
  Bool-cases, Result-cases, ok, raised,
}
use network_diagnostic_tool.Exceptions.{Exception}
use network_diagnostic_tool.Settings.{Settings}
use network_diagnostic_tool.Accounts.Credentials.{Crypto}
use network_diagnostic_tool.Diagnostics.Rows.{Run, Detail, LogLine, database_write_failed, Store}
use network_diagnostic_tool.Diagnostics.Persistence.{
  Outside, Report, subject_of, detail_of, run_of, insert_run, or_logged, log_line, write_rows,
  persist_diagnostic,
}

-- The two tables go together: the same ids in the same order.
abbrev pub IsConsistent : Store → Type 0
IsConsistent st = map (λ (r : Run). r.id) st.runs ≡ map (λ (d : ℕ × Detail). d.0) st.details

map-append-one :
    {A : Type 0} (f : A → ℕ) (xs : List A) (x : A) → map f (xs ++ x ∷ []) ≡ map f xs ++ f x ∷ []
map-append-one f [] x = refl
map-append-one f (y ∷ xs) x = ap (λ l. f y ∷ l) (map-append-one f xs x)

module _ (o : Outside) (s : Settings) (x : Crypto) where
  -- What a report adds to a store: a log line, and behind it either both rows, or the mark of a
  -- failed write, or nothing where results are not kept.
  pub data Adds (r : Report) (st : Store) : Store → Type 0 where
    line_only :
        (line : LogLine)
        → s.database_enabled && s.diagnostic_persistence_enabled ≡ false
        → Adds r st (record st { log = st.log ++ line ∷ [] })
    rows :
        (line : LogLine) (detail : Detail)
        → detail_of o r.result_code r.details ≡ ok detail
        → any (λ (q : Run). q.id == r.request_id) st.runs ≡ false
        → Adds r st (record {
          runs = st.runs ++ run_of o s x r ∷ [];
          details = st.details ++ (r.request_id, detail) ∷ [];
          log = st.log ++ line ∷ [];
        })
    mark :
        (line : LogLine)
        → Adds r st
            (record st { log = (st.log ++ line ∷ []) ++ database_write_failed r.request_id ∷ [] })

  insert_run-ok :
      (run : Run) (detail : Detail) (st st' : Store)
      → insert_run o s x run detail st ≡ ok st'
      → (any (λ (q : Run). q.id == run.id) st.runs ≡ false)
        × (st' ≡ record st {
          runs = st.runs ++ run ∷ [];
          details = st.details ++ (run.id, detail) ∷ [];
        })
  unfolding insert_run
  insert_run-ok run detail st st' h = ground arith

  write_rows-Adds :
      (r : Report) (line : LogLine) (st : Store)
      → Adds r st (write_rows o s x r (record st { log = st.log ++ line ∷ [] }))
  unfolding write_rows or_logged run_of
  write_rows-Adds r line st =
      let logged : Store = record st { log = st.log ++ line ∷ [] } in
      elim (Bool-cases (s.database_enabled && s.diagnostic_persistence_enabled)) [
        | inr off ↦ subst (Adds r st) (rw off refl) (line_only line off)
        | inl on ↦ elim (Result-cases (detail_of o r.result_code r.details)) [
          | inr (e, failed) ↦ subst (Adds r st) (rw (on, failed) refl) (mark line)
          | inl (detail, given) ↦
              elim (Result-cases (insert_run o s x (run_of o s x r) detail logged)) [
                | inr (e, failed) ↦
                    subst (Adds r st) (ground (arith, on, given, failed)) (mark line)
                | inl (st', done) ↦
                    let (free, same) = insert_run-ok (run_of o s x r) detail logged st' done in
                    subst (Adds r st) (ground (arith, on, given, done, same))
                      (rows line detail given free)
              ]
        ]
      ]

  -- `persist_diagnostic` writes one log line. Where results are kept it then adds the row of the run
  -- and the row of its result, both or neither, and where it adds neither it logs a failed write. It
  -- raises nothing of the database's; where it raises, it has written nothing.
  pub persist_diagnostic-Adds :
      (r : Report) (st : Store)
      → ((persist_diagnostic o s x r st).0 ≡ ok tt → Adds r st (persist_diagnostic o s x r st).1)
        × ((e : Exception)
            → (persist_diagnostic o s x r st).0 ≡ raised e
            → (subject_of o r.details ≡ raised e) × ((persist_diagnostic o s x r st).1 ≡ st))
  unfolding persist_diagnostic
  persist_diagnostic-Adds r st = elim (Result-cases (subject_of o r.details)) [
    | inl (subject, given) ↦ (
      λ h. rw (given, persist_diagnostic) (write_rows-Adds r (log_line o s x r subject) st),
      λ e h. absurd (ground (arith, given)),
    )
    | inr (e', failed) ↦ (
      (λ h. absurd (ground (arith, failed))),
      λ e h. (ground (arith, failed), ground (arith, failed)),
    )
  ]

  Adds-IsConsistent :
      (r : Report) (st st' : Store) → IsConsistent st → Adds r st st' → IsConsistent st'
  unfolding run_of
  Adds-IsConsistent r st _ same (line_only line off) = same
  Adds-IsConsistent r st _ same (rows line detail given free) = rw (
    map-append-one (λ (q : Run). q.id) st.runs (run_of o s x r),
    map-append-one (λ (d : ℕ × Detail). d.0) st.details (r.request_id, detail),
    same,
  )
  Adds-IsConsistent r st _ same (mark line) = same

  -- The tables of runs and of results keep the same ids in the same order, whatever a report says and
  -- whether or not it is stored.
  pub persist_diagnostic-IsConsistent :
      (r : Report) (st : Store) → IsConsistent st → IsConsistent (persist_diagnostic o s x r st).1
  persist_diagnostic-IsConsistent r st same =
      elim (Result-cases (persist_diagnostic o s x r st).0) [
        | inl (done, returned) ↦
            Adds-IsConsistent r st (persist_diagnostic o s x r st).1 same
              ((persist_diagnostic-Adds r st).0 returned)
        | inr (e, failed) ↦ rw (((persist_diagnostic-Adds r st).1 e failed).1) same
      ]
