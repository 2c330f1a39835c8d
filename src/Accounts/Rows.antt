-- ===== src/Accounts/Rows.antt =====
-- What the queries on the tables do to counts and to searches.
use mathlib.Core.List.{Mem, mem-cons_self, mem-cons_of_mem}
use network_diagnostic_tool.Common.{
  ℕ, zero, suc, ◌+◌, ◌≤◌, ◌≡◌, refl, inl, inr, Bool, true, any, Bool-cases, not, some, List, [],
  ◌∷◌, map, arith, take, drop, count_if, contains, All, ==_refl, nat_eq,
}
use network_diagnostic_tool.Accounts.Tables.{find, update_where, insert_by, order_by}

module _ {A : Type 0} where
  count_if-insert_by :
      (p : A → Bool) (key : A → ℕ) (row : A) (rows : List A)
      → count_if p (insert_by key row rows) ≡ count_if p (row ∷ rows)
  unfolding insert_by
  count_if-insert_by p key row [] = refl
  count_if-insert_by p key row (r ∷ rows) = ground (arith, count_if-insert_by p key row rows)

  pub count_if-order_by :
      (p : A → Bool) (key : A → ℕ) (rows : List A)
      → count_if p (order_by key rows) ≡ count_if p rows
  unfolding order_by
  count_if-order_by p key [] = refl
  count_if-order_by p key (row ∷ rows) =
      ground (arith, count_if-insert_by p key row (order_by key rows), count_if-order_by p key rows)

  pub count_if-take-drop :
      (p : A → Bool) (n : ℕ) (rows : List A)
      → count_if p rows ≡ count_if p (take n rows) + count_if p (drop n rows)
  count_if-take-drop p zero rows = omega arith
  count_if-take-drop p (suc n) [] = omega arith
  count_if-take-drop p (suc n) (row ∷ rows) = ground (arith, count_if-take-drop p n rows)

  count_if-not-contains-cons :
      (id : A → ℕ) (i : ℕ) (ids : List ℕ) (rows : List A)
      → count_if (λ r. not (contains (i ∷ ids) (id r))) rows
        ≤ count_if (λ r. not (contains ids (id r))) rows
  count_if-not-contains-cons id i ids [] = omega arith
  count_if-not-contains-cons id i ids (row ∷ rows) =
      ground (arith, count_if-not-contains-cons id i ids rows)

  -- no row is outside the list of the rows' own ids
  pub count_if-not-contains-map :
      (id : A → ℕ) (rows : List A) → count_if (λ r. not (contains (map id rows) (id r))) rows ≡ 0
  count_if-not-contains-map id [] = refl
  count_if-not-contains-map id (row ∷ rows) = ground (
    arith,
    ==_refl (id row),
    count_if-not-contains-cons id (id row) (map id rows) rows,
    count_if-not-contains-map id rows,
  )

  pub find-holds : (p : A → Bool) (rows : List A) (a : A) → find p rows ≡ some a → p a ≡ true
  unfolding find
  find-holds p [] a h = cc
  find-holds p (row ∷ rows) a h = ground (arith, find-holds p rows a)

  -- a search whose test an update respects finds the updated row
  pub find-update_where :
      (p q : A → Bool) (f : A → A) (rows : List A) (a : A)
      → ((r : A) → p (f r) ≡ p r)
      → q a ≡ true
      → find p rows ≡ some a
      → find p (update_where q f rows) ≡ some (f a)
  unfolding find update_where
  find-update_where p q f [] a same hit h = cc
  find-update_where p q f (row ∷ rows) a same hit h =
      ground (arith, same row, find-update_where p q f rows a same hit)

  pub All-update_where :
      (P : A → Type 0) (q : A → Bool) (f : A → A) (rows : List A)
      → ((r : A) → P r → P (f r))
      → All P rows
      → All P (update_where q f rows)
  unfolding update_where
  All-update_where P q f [] keep h = tt
  All-update_where P q f (row ∷ rows) keep (h, k) =
      ground (arith, keep row, All-update_where P q f rows keep k)

pub find-Mem :
    {A : Type 0} (p : A → Bool) (rows : List A) (a : A) → find p rows ≡ some a → Mem a rows
unfolding find
find-Mem p [] a h = cc
find-Mem p (row ∷ rows) a h = elim (Bool-cases (p row)) [
  | inl hit ↦ let same : row ≡ a = ground (arith, hit) in rw same mem-cons_self
  | inr miss ↦ mem-cons_of_mem row (find-Mem p rows a (ground (arith, miss)))
]

pub any-Mem :
    {A : Type 0} (p : A → Bool) (rows : List A)
    → any p rows ≡ true
    → (a : A) × Mem a rows × (p a ≡ true)
any-Mem p [] h = cc
any-Mem p (row ∷ rows) h = elim (Bool-cases (p row)) [
  | inl hit ↦ (row, mem-cons_self, hit)
  | inr miss ↦
      let (a, there, holds) = any-Mem p rows (ground (arith, miss)) in
      (a, mem-cons_of_mem row there, holds)
]
