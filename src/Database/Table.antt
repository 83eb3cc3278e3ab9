-- ===== src/Database/Table.antt =====
-- A table with a TEXT PRIMARY KEY, as the list of its rows in the order of insertion.

use frequent_cron.Base.{
  ◌≡◌, refl, String, Bool, true, false, ◌||◌, Option, none, some, List, [], ◌∷◌, ◌++◌, arith, ◌==◌,
  string_eq, nat_eq, if◌then◌else◌,
}

module _ {ℓ} {R : Type ℓ} (key : R → String) where
  -- SELECT … WHERE name = ?
  unfoldable pub find : String → List R → Option R
  find n [] = none
  find n (r ∷ rows) = if key r == n then some r else find n rows

  -- Whether there is such a row.
  unfoldable pub has : String → List R → Bool
  has n rows = elim (find n rows) [ none ↦ false | some r ↦ true ]

  -- DELETE … WHERE name = ?
  unfoldable pub without : String → List R → List R
  without n [] = []
  without n (r ∷ rows) = let rest = without n rows in if key r == n then rest else r ∷ rest

  -- UPDATE … WHERE name = ?
  unfoldable pub modify : String → (R → R) → List R → List R
  modify n f [] = []
  modify n f (r ∷ rows) = (if key r == n then f r else r) ∷ modify n f rows

  -- INSERT, where the key is new
  abbrev pub add : R → List R → List R
  add r rows = rows ++ r ∷ []

  -- No key occurs twice.
  abbrev pub IsUnique : List R → Type ℓ
  IsUnique [] = Unit
  IsUnique (r ∷ rows) = (find (key r) rows ≡ none) × IsUnique rows

  pub find-key : (n : String) (rows : List R) {r : R} → find n rows ≡ some r → key r ≡ n
  unfolding find
  find-key n [] h = cc
  find-key n (s ∷ rows) {r} h = ground (arith, λ (q : find n rows ≡ some r). find-key n rows q)

  pub none_of_has : (n : String) (rows : List R) → has n rows ≡ false → find n rows ≡ none
  unfolding has
  none_of_has n rows h = ground arith

  pub some_of_has :
      (n : String) (rows : List R) → has n rows ≡ true → (r : R) × (find n rows ≡ some r)
  unfolding has
  some_of_has n rows h = ground arith

  pub has_of_some : (n : String) (rows : List R) {r : R} → find n rows ≡ some r → has n rows ≡ true
  unfolding has
  has_of_some n rows h = ground arith

  pub has_of_none : (n : String) (rows : List R) → find n rows ≡ none → has n rows ≡ false
  unfolding has
  has_of_none n rows h = ground arith

  pub find-add :
      (n : String) (r : R) (rows : List R)
      → find n (add r rows)
        ≡ elim (find n rows) [ some s ↦ some s | none ↦ if key r == n then some r else none ]
  unfolding find
  find-add n r [] = ground arith
  find-add n r (s ∷ rows) = ground (arith, find-add n r rows)

  pub has-add :
      (n : String) (r : R) (rows : List R) → has n (add r rows) ≡ ((key r == n) || has n rows)
  unfolding has
  has-add n r rows = ground (arith, find-add n r rows)

  pub find-without :
      (n m : String) (rows : List R)
      → find m (without n rows) ≡ (if n == m then none else find m rows)
  unfolding find without
  find-without n m [] = ground arith
  find-without n m (r ∷ rows) = ground (arith, find-without n m rows)

  pub has-without :
      (n m : String) (rows : List R)
      → has m (without n rows) ≡ (if n == m then false else has m rows)
  unfolding has
  has-without n m rows = ground (arith, find-without n m rows)

  pub without-IsUnique : (n : String) (rows : List R) → IsUnique rows → IsUnique (without n rows)
  unfolding without
  without-IsUnique n [] u = tt
  without-IsUnique n (r ∷ rows) u =
      ground (arith, without-IsUnique n rows u.1, find-without n (key r) rows)

  pub without-eq_of_absent :
      (n : String) (rows : List R) → find n rows ≡ none → without n rows ≡ rows
  unfolding find without
  without-eq_of_absent n [] h = refl
  without-eq_of_absent n (r ∷ rows) h = ground (arith, without-eq_of_absent n rows)

  -- What was inserted last goes, and leaves the table as it was.
  pub without-add :
      (r : R) (rows : List R) → find (key r) rows ≡ none → without (key r) (add r rows) ≡ rows
  unfolding find without
  without-add r [] h = ground arith
  without-add r (s ∷ rows) h = ground (arith, without-add r rows)

  pub add-IsUnique :
      (r : R) (rows : List R) → find (key r) rows ≡ none → IsUnique rows → IsUnique (add r rows)
  unfolding find
  add-IsUnique r [] h u = (refl, tt)
  add-IsUnique r (s ∷ rows) h u = ground (arith, add-IsUnique r rows, find-add (key s) r rows)

  module _ (f : R → R) (keeps : (r : R) → key (f r) ≡ key r) where
    pub find-modify :
        (n m : String) (rows : List R)
        → find m (modify n f rows) ≡ (
            if n == m
            then elim (find m rows) [ some r ↦ some (f r) | none ↦ none ]
            else find m rows)
    unfolding find modify
    find-modify n m [] = ground arith
    find-modify n m (r ∷ rows) = ground (arith, find-modify n m rows, keeps r)

    pub find-modify-none :
        (n m : String) (rows : List R) → find m rows ≡ none → find m (modify n f rows) ≡ none
    find-modify-none n m rows h = rw find-modify (ground arith)

    pub modify-IsUnique : (n : String) (rows : List R) → IsUnique rows → IsUnique (modify n f rows)
    unfolding modify
    modify-IsUnique n [] u = tt
    modify-IsUnique n (r ∷ rows) u =
        ground (arith, modify-IsUnique n rows u.1, find-modify-none n (key r) rows u.0, keeps r)

    pub has-modify : (n m : String) (rows : List R) → has m (modify n f rows) ≡ has m rows
    unfolding has
    has-modify n m rows = ground (arith, find-modify n m rows)
