-- ===== src/Diagnostics/Readback.antt =====
-- The way back from a report to the history.
use network_diagnostic_tool.Common.{
  ℕ, ◌≡◌, ◌∙◌, refl, sym, ap, inl, inr, Bool, true, false, ◌&&◌, ◌||◌, some, List, [], ◌∷◌, ◌++◌,
  map, arith, Text, any, contains, ◌==◌, ==_refl, nat_eq, Result-cases, ok,
}
use network_diagnostic_tool.Settings.{Settings}
use network_diagnostic_tool.Accounts.Credentials.{Crypto}
use network_diagnostic_tool.Accounts.Tables.{find}
use network_diagnostic_tool.Accounts.Login.{AuthContext}
use network_diagnostic_tool.Diagnostics.Rows.{
  Details, http_details, tcp_details, dns_details, Run, Detail, LogLine, database_write_failed,
  Store,
}
use network_diagnostic_tool.Diagnostics.Persistence.{
  Outside, Report, type_of, detail_of, http_row_of, run_of, persist_diagnostic,
}
use network_diagnostic_tool.Diagnostics.History.{
  is_visible, is_of_type, detail_of_run, found_run, get_diagnostic,
}
use network_diagnostic_tool.Diagnostics.Recorded.{
  IsConsistent, Adds, line_only, rows, mark, persist_diagnostic-Adds,
}

-- the last row is found where no row before it has its key
find-append_last :
    {A : Type 0} (p q : A → Bool) (xs : List A) (x : A)
    → any q xs ≡ false
    → ((y : A) → q y ≡ false → p y ≡ false)
    → p x ≡ true
    → find p (xs ++ x ∷ []) ≡ some x
unfolding find
find-append_last p q [] x h keys hit = ground arith
find-append_last p q (y ∷ xs) x h keys hit = ground (arith, keys y, find-append_last p q xs x)

any-contains :
    {A : Type 0} (f : A → ℕ) (id : ℕ) (xs : List A)
    → any (λ y. f y == id) xs ≡ contains (map f xs) id
any-contains f id [] = refl
any-contains f id (x ∷ xs) = ap (λ b. (f x == id) || b) (any-contains f id xs)

module _ (o : Outside) (s : Settings) (x : Crypto) where
  detail_of-type :
      (code : Text) (d : Details) (detail : Detail)
      → detail_of o code d ≡ ok detail
      → is_of_type (type_of d) detail ≡ true
  unfolding detail_of
  detail_of-type code (http_details p r) detail h = elim (Result-cases (http_row_of o p r)) [
    | inl (row, given) ↦ ground (arith, given)
    | inr (e, failed) ↦ absurd (ground (arith, failed))
  ]
  detail_of-type code (tcp_details p r) detail h = ground arith
  detail_of-type code (dns_details p r) detail h = ground arith

  -- What the owner of a run reads of it, or the mark that it was not written.
  pub data ReadsBack (r : Report) (u : ℕ) (st : Store) : Type 0 where
    reads :
        (detail : Detail)
        → detail_of o r.result_code r.details ≡ ok detail
        → get_diagnostic r.request_id (some u) false st
          ≡ some (detail_of_run (run_of o s x r) (some detail))
        → ReadsBack r u st
    marked :
        (before : List LogLine)
        → st.log ≡ before ++ database_write_failed r.request_id ∷ []
        → ReadsBack r u st

  Adds-ReadsBack :
      (r : Report) (context : AuthContext) (st st' : Store)
      → s.database_enabled && s.diagnostic_persistence_enabled ≡ true
      → IsConsistent st
      → r.current_user ≡ some context
      → Adds o s x r st st'
      → ReadsBack r context.user_id st'
  unfolding get_diagnostic found_run is_visible run_of
  Adds-ReadsBack r context st _ on same user (line_only line off) = absurd (ground (arith, on, off))
  Adds-ReadsBack r context st _ on same user (mark line) = marked (st.log ++ line ∷ []) refl
  Adds-ReadsBack r context st _ on same user (rows line detail given free) =
      let run = run_of o s x r in
      let found : find
            (λ (q : Run). q.id == r.request_id && is_visible (some context.user_id) false q)
            (st.runs ++ run ∷ [])
          ≡ some run =
        find-append_last (λ q. q.id == r.request_id && is_visible (some context.user_id) false q)
          (λ q. q.id == r.request_id) st.runs run free (λ q miss. ground (arith, miss))
          (ground (arith, ==_refl r.request_id, ==_refl context.user_id, user)) in
      let no_detail : any (λ (d : ℕ × Detail). d.0 == r.request_id) st.details ≡ false =
        any-contains (λ d. d.0) r.request_id st.details
        ∙ ap (λ ids. contains ids r.request_id) (sym same)
        ∙ sym (any-contains (λ (q : Run). q.id) r.request_id st.runs)
        ∙ free in
      let row : find (λ (d : ℕ × Detail). d.0 == r.request_id && is_of_type (type_of r.details) d.1)
            (st.details ++ (r.request_id, detail) ∷ [])
          ≡ some (r.request_id, detail) =
        find-append_last (λ d. d.0 == r.request_id && is_of_type (type_of r.details) d.1)
          (λ d. d.0 == r.request_id) st.details (r.request_id, detail) no_detail
          (λ d miss. ground (arith, miss))
          (ground
            (arith, ==_refl r.request_id, detail_of-type r.result_code r.details detail given)) in
      reads detail given (rw (found, found_run) (rw row refl))

  -- Where results are kept and the tables go together: after a report of a logged in user that is
  -- persisted, that user reads back the run with its result as it was written, or the log's last line
  -- is the mark that the rows were not.
  pub persist_diagnostic-get_diagnostic :
      (r : Report) (context : AuthContext) (st : Store)
      → s.database_enabled && s.diagnostic_persistence_enabled ≡ true
      → IsConsistent st
      → r.current_user ≡ some context
      → (persist_diagnostic o s x r st).0 ≡ ok tt
      → ReadsBack r context.user_id (persist_diagnostic o s x r st).1
  persist_diagnostic-get_diagnostic r context st on same user done =
      Adds-ReadsBack r context st (persist_diagnostic o s x r st).1 on same user
        ((persist_diagnostic-Adds o s x r st).0 done)
