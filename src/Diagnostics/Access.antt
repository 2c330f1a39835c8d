-- ===== src/Diagnostics/Access.antt =====
-- Who reads what: the list of diagnostics, one diagnostic, and the way back to the report of it.
use mathlib.Core.List.{Memᴰ, Mem, mem-cons_self, mem-cons_of_mem}
use network_diagnostic_tool.Common.{
  ℕ, zero, suc, ◌≤◌, ◌≡◌, refl, ap, inl, inr, ◌⊎◌, Bool, true, false, ◌&&◌, Option, none, some,
  List, [], ◌∷◌, map, reverse, reverse-append, arith, All, All-append, length, length-take, take,
  drop, keep_if, ◌==◌, ==_iff, nat_eq, Option-cases, ok,
}
use network_diagnostic_tool.Settings.{Settings}
use network_diagnostic_tool.Accounts.Tables.{find, insert_by, order_by}
use network_diagnostic_tool.Accounts.Rows.{find-holds, find-Mem}
use network_diagnostic_tool.Accounts.Login.{AuthContext}
use network_diagnostic_tool.Diagnostics.Rows.{Run, Store, Detail, DiagnosticType}
use network_diagnostic_tool.Diagnostics.Persistence.{user_id_of}
use network_diagnostic_tool.Diagnostics.History.{
  Item, item_of, DiagnosticDetail, is_visible, is_of_type, row_of, newest_first, page,
  list_diagnostics, detail_of_run, found_run, get_diagnostic, is_admin_context, ensure_database,
  recent_diagnostics, or_not_found, diagnostic_detail,
}

module _ {A : Type 0} (P : A → Type 0) where
  All-keep_if : (p : A → Bool) (xs : List A) → All (λ x. p x ≡ true → P x) xs → All P (keep_if p xs)
  unfolding keep_if
  All-keep_if p [] h = tt
  All-keep_if p (x ∷ xs) (k, h) = ground (arith, All-keep_if p xs h)

  All-insert_by : (key : A → ℕ) (x : A) (xs : List A) → P x → All P xs → All P (insert_by key x xs)
  unfolding insert_by
  All-insert_by key x [] k h = (k, tt)
  All-insert_by key x (y ∷ xs) k (m, h) = ground (arith, All-insert_by key x xs k h)

  All-order_by : (key : A → ℕ) (xs : List A) → All P xs → All P (order_by key xs)
  unfolding order_by
  All-order_by key [] h = tt
  All-order_by key (x ∷ xs) (k, h) = All-insert_by key x (order_by key xs) k (All-order_by key xs h)

  All-reverse : (xs : List A) → All P xs → All P (reverse xs)
  All-reverse [] h = tt
  All-reverse (x ∷ xs) (k, h) =
      rw (reverse-append (x ∷ []) xs)
        (All-append P (reverse xs) (x ∷ []) (All-reverse xs h) (k, tt))

  All-drop : (n : ℕ) (xs : List A) → All P xs → All P (drop n xs)
  All-drop zero xs h = h
  All-drop (suc n) [] h = tt
  All-drop (suc n) (x ∷ xs) (k, h) = All-drop n xs h

  All-take : (n : ℕ) (xs : List A) → All P xs → All P (take n xs)
  All-take zero xs h = tt
  All-take (suc n) [] h = tt
  All-take (suc n) (x ∷ xs) (k, h) = (k, All-take n xs h)

  All-map :
      {B : Type 0} (Q : B → Type 0) (f : A → B) (xs : List A)
      → ((x : A) → P x → Q (f x))
      → All P xs
      → All Q (map f xs)
  All-map Q f [] g h = tt
  All-map Q f (x ∷ xs) g (k, h) = (g x k, All-map Q f xs g h)

  All-of : (xs : List A) → ((x : A) → Mem x xs → P x) → All P xs
  All-of [] h = tt
  All-of (x ∷ xs) h = (h x mem-cons_self, All-of xs (λ y m. h y (mem-cons_of_mem x m)))

length-map : {A B : Type 0} (f : A → B) (xs : List A) → length (map f xs) ≡ length xs
length-map f [] = refl
length-map f (x ∷ xs) = ap suc (length-map f xs)

module _ (s : Settings) where
  -- The run is one of the store, and its user is the user of the context.
  pub record IsOwn (context : Option AuthContext) (st : Store) (r : Run) : Type 0 where
    pub stored : Mem r st.runs
    pub owner : ℕ
    pub reader : user_id_of context ≡ some owner
    pub owned : r.user_id ≡ some owner

  is_visible-IsOwn :
      (context : Option AuthContext) (st : Store) (r : Run)
      → Mem r st.runs
      → is_visible (user_id_of context) false r ≡ true
      → IsOwn context st r
  unfolding is_visible
  is_visible-IsOwn context st r stored h = elim (Option-cases (user_id_of context)) [
    | inl nobody ↦ absurd (ground (arith, nobody))
    | inr (u, reader) ↦ elim (Option-cases r.user_id) [
      | inl unowned ↦ absurd (ground (arith, reader, unowned))
      | inr (v, owned) ↦ record {
        stored = stored;
        owner = u;
        reader = reader;
        owned = ground (arith, reader, owned, ==_iff v u);
      }
    ]
  ]

  -- An item of a run that the context's user owns.
  abbrev pub IsOwnItem : Option AuthContext → Store → Item → Type 0
  IsOwnItem context st i = (r : Run) × (i ≡ item_of r) × IsOwn context st r

  -- A query meets no rows but those it is given.
  abbrev pub IsScan : (List Run → List Run) → Type 0
  IsScan scan = (r : Run) (runs : List Run) → Memᴰ r (scan runs) → Memᴰ r runs

  All-at : (P : Run → Type 0) (runs : List Run) (r : Run) → All P runs → Memᴰ r runs → P r
  All-at P [] r all there = elim there [ ]
  All-at P (q ∷ runs) r (holds, all) (Memᴰ.head same) = rw same holds
  All-at P (q ∷ runs) r (holds, all) (Memᴰ.tail later) = All-at P runs r all later

  All-each : (P : Run → Type 0) (runs : List Run) → ((r : Run) → Memᴰ r runs → P r) → All P runs
  All-each P [] h = tt
  All-each P (r ∷ runs) h = (h r (Memᴰ.head refl), All-each P runs (λ q m. h q (Memᴰ.tail m)))

  list_diagnostics-IsOwn :
      (scan : List Run → List Run) (context : Option AuthContext) (limit offset : ℕ) (st : Store)
      → IsScan scan
      → All
          (IsOwnItem context st)
          (list_diagnostics scan (user_id_of context) false limit offset st)
  unfolding list_diagnostics page newest_first
  list_diagnostics-IsOwn scan context limit offset st only =
      let own = IsOwn context st in
      let visible = keep_if (is_visible (user_id_of context) false) st.runs in
      let all_own : All own visible =
        All-keep_if own (is_visible (user_id_of context) false) st.runs (
          All-of (λ r. is_visible (user_id_of context) false r ≡ true → IsOwn context st r) st.runs
            (λ r stored. is_visible-IsOwn context st r stored)) in
      let met : All own (scan visible) =
        All-each own (scan visible)
          (λ r there. All-at own visible r all_own (only r visible there)) in
      let newest = reverse (order_by (λ (r : Run). r.created_at) (scan visible)) in
      let sorted : All own newest =
        All-reverse own (order_by (λ (r : Run). r.created_at) (scan visible))
          (All-order_by own (λ r. r.created_at) (scan visible) met) in
      All-map own (IsOwnItem context st) item_of (take limit (drop offset newest))
        (λ r own_run. (r, refl, own_run))
        (All-take own limit (drop offset newest) (All-drop own offset newest sorted))

  list_diagnostics-length :
      (scan : List Run → List Run) (user_id : Option ℕ) (all_runs : Bool) (limit offset : ℕ)
      (st : Store)
      → length (list_diagnostics scan user_id all_runs limit offset st) ≤ limit
  unfolding list_diagnostics page
  list_diagnostics-length scan user_id all_runs limit offset st =
      let rows = drop offset (newest_first scan (keep_if (is_visible user_id all_runs) st.runs)) in
      omega (arith, length-map item_of (take limit rows), length-take limit rows)

  both : (b c : Bool) → b && c ≡ true → (b ≡ true) × (c ≡ true)
  both b c h = ground arith

  -- The detail of a run that the context's user owns: its columns are those of the run, and its
  -- result, if there is one, is a row of that run's id, in the table of the run's type.
  pub record IsOwnDetail (context : Option AuthContext) (st : Store) (d : DiagnosticDetail)
      : Type 0 where
    pub run : Run
    pub item : d.item ≡ item_of run
    pub user_id : d.user_id ≡ run.user_id
    pub error_message : d.error_message ≡ run.error_message
    pub result :
        (d.details ≡ none)
        ⊎ ((detail : Detail) × (d.details ≡ some detail)
            × Mem (run.id, detail) st.details
            × (is_of_type run.diagnostic_type detail ≡ true))
    pub own : IsOwn context st run

  row_of-own :
      (id : ℕ) (kind : DiagnosticType) (rows : List (ℕ × Detail)) (o : Option (ℕ × Detail))
      → find (λ (p : ℕ × Detail). p.0 == id && is_of_type kind p.1) rows ≡ o
      → (row_of o ≡ none)
        ⊎ ((detail : Detail) × (row_of o ≡ some detail)
            × Mem (id, detail) rows
            × (is_of_type kind detail ≡ true))
  row_of-own id kind rows none found = inl refl
  row_of-own id kind rows (some (key, detail)) found =
      let test : ℕ × Detail → Bool = λ p. p.0 == id && is_of_type kind p.1 in
      let (same, of_kind) =
        both (key == id) (is_of_type kind detail) (find-holds test rows (key, detail) found) in
      inr (
        detail,
        refl,
        rw (← (==_iff key id).0 same) (find-Mem test rows (key, detail) found),
        of_kind,
      )

  get_diagnostic-IsOwn :
      (context : Option AuthContext) (run_id : ℕ) (st : Store) (d : DiagnosticDetail)
      (o : Option Run)
      → find (λ (r : Run). r.id == run_id && is_visible (user_id_of context) false r) st.runs ≡ o
      → found_run st o ≡ some d
      → (d.item.id ≡ run_id) × IsOwnDetail context st d
  unfolding found_run detail_of_run
  get_diagnostic-IsOwn context run_id st d none found h = cc
  get_diagnostic-IsOwn context run_id st d (some r) found h =
      let (same_id, visible) = both (r.id == run_id) (is_visible (user_id_of context) false r) (
        find-holds (λ (r : Run). r.id == run_id && is_visible (user_id_of context) false r) st.runs
          r found) in
      let test : ℕ × Detail → Bool = λ p. p.0 == r.id && is_of_type r.diagnostic_type p.1 in
      let whole : detail_of_run r (row_of (find test st.details)) ≡ d = cc in
      rw (← whole) (
        (==_iff r.id run_id).0 same_id,
        record {
          run = r;
          item = refl;
          user_id = refl;
          error_message = refl;
          result = row_of-own r.id r.diagnostic_type st.details (find test st.details) refl;
          own =
              is_visible-IsOwn context st r
                (find-Mem (λ (r : Run). r.id == run_id && is_visible (user_id_of context) false r)
                  st.runs r found)
                visible;
        },
      )

  -- Who is no administrator, or not logged in, reads only of runs of the own user: each item of a
  -- list, of no more than the limit, is of a stored run of that user, in whatever order PostgreSQL
  -- meets the rows, and a detail has the columns of the one run that was asked for, which is such a
  -- run, with a result of that run's id and type or none. So where no user is logged in, there is
  -- nothing to read.
  pub history-IsOwn :
      (context : Option AuthContext) (st : Store)
      → is_admin_context context ≡ false
      → ((scan : List Run → List Run) (limit offset : ℕ) (items : List Item)
          → IsScan scan
          → recent_diagnostics s scan context limit offset st ≡ ok items
          → All (IsOwnItem context st) items × (length items ≤ limit))
        × ((run_id : ℕ) (d : DiagnosticDetail)
            → diagnostic_detail s context run_id st ≡ ok d
            → (d.item.id ≡ run_id) × IsOwnDetail context st d)
  unfolding recent_diagnostics diagnostic_detail get_diagnostic ensure_database
  history-IsOwn context st plain = (
    λ scan limit offset items only h.
        let same : list_diagnostics scan (user_id_of context) false limit offset st ≡ items =
          ground (arith, plain) in
        rw (← same) (
          list_diagnostics-IsOwn scan context limit offset st only,
          list_diagnostics-length scan (user_id_of context) false limit offset st,
        ),
    λ run_id d h.
        let o =
          find (λ (r : Run). r.id == run_id && is_visible (user_id_of context) false r) st.runs in
        let found : or_not_found s (found_run st o) ≡ ok d = ground (arith, plain) in
        get_diagnostic-IsOwn context run_id st d o refl
          (or_not_found-some (found_run st o) d found),
  )
    where
      or_not_found-some :
          (o : Option DiagnosticDetail) (d : DiagnosticDetail)
          → or_not_found s o ≡ ok d
          → o ≡ some d
      or_not_found-some none d h = cc
      or_not_found-some (some e) d h = cc
