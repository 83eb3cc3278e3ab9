-- ===== src/Database/Schema/Rows.antt =====
-- Rows, and the cells that new columns give them.
use frequent_cron.Base.{
  ◌≡◌, refl, String, Bool, true, false, ◌||◌, Option, none, some, List, [], ◌∷◌, ◌++◌, arith, ◌==◌,
  string_eq, nat_eq, if◌then◌else◌,
}
use frequent_cron.Database.Schema.{Value, Column, Row, has_column, extend_rows}

module _ {D : Type 0} where
  -- The cell of a row under a name.
  unfoldable pub lookup : String → Row D → Option (Value D)
  lookup n [] = none
  lookup n (cell ∷ row) = if cell.0 == n then some cell.1 else lookup n row

  abbrev pub kept : Option (Value D) → Option (Value D) → Option (Value D)
  kept none w = w
  kept (some v) w = some v

  abbrev pub only : String → Value D → String → Option (Value D)
  only m v n = if m == n then some v else none

  abbrev pub is_there : Option (Value D) → Bool
  is_there none = false
  is_there (some v) = true

  -- The rows have a cell for each column, and no other cell.
  abbrev pub Fit : List (Column D) → List (Row D) → Type 0
  Fit columns [] = Unit
  Fit columns (row ∷ rows) =
      ((n : String) → is_there (lookup n row) ≡ has_column n columns) × Fit columns rows

  -- Row by row, the new cells are those that `f` says, where there was none.
  abbrev pub Adds : (String → Option (Value D)) → List (Row D) → List (Row D) → Type 0
  Adds f [] [] = Unit
  Adds f [] (row' ∷ rows') = ⊥
  Adds f (row ∷ rows) [] = ⊥
  Adds f (row ∷ rows) (row' ∷ rows') =
      ((n : String) → lookup n row' ≡ kept (lookup n row) (f n)) × Adds f rows rows'

  lookup-append :
      (m n : String) (v : Value D) (row : Row D)
      → lookup n (row ++ ((m, v) ∷ [])) ≡ kept (lookup n row) (only m v n)
  unfolding lookup
  lookup-append m n v [] = refl
  lookup-append m n v (cell ∷ row) = ground (arith, lookup-append m n v row)

  has_column-append :
      (n : String) (c : Column D) (columns : List (Column D))
      → has_column n (columns ++ (c ∷ [])) ≡ (has_column n columns || c.name == n)
  unfolding has_column
  has_column-append n c [] = ground arith
  has_column-append n c (c' ∷ columns) = ground (arith, has_column-append n c columns)

  pub Adds-trans :
      (f g : String → Option (Value D)) (xs ys zs : List (Row D))
      → Adds f xs ys
      → Adds g ys zs
      → Adds (λ n. kept (f n) (g n)) xs zs
  Adds-trans f g [] [] [] h k = tt
  Adds-trans f g (x ∷ xs) (y ∷ ys) (z ∷ zs) h k =
      (λ n. ground (arith, h.0 n, k.0 n), Adds-trans f g xs ys zs h.1 k.1)
  Adds-trans f g [] [] (z ∷ zs) h k = absurd k
  Adds-trans f g [] (y ∷ ys) zs h k = absurd h
  Adds-trans f g (x ∷ xs) [] zs h k = absurd h
  Adds-trans f g (x ∷ xs) (y ∷ ys) [] h k = absurd k

  -- Where the column is there already, nothing is added.
  pub already_there :
      (c : Column D) (v : Value D) (columns : List (Column D)) (rows : List (Row D))
      → has_column c.name columns ≡ true
      → Fit columns rows
      → Adds (only c.name v) rows rows
  already_there c v columns [] there fit = tt
  already_there c v columns (row ∷ rows) there fit = (
    λ n. ground (arith, there, fit.0 n, fit.0 c.name),
    already_there c v columns rows there fit.1,
  )

  pub extend_rows-Adds :
      (m : String) (v : Value D) (rows : List (Row D)) → Adds (only m v) rows (extend_rows m v rows)
  unfolding extend_rows
  extend_rows-Adds m v [] = tt
  extend_rows-Adds m v (row ∷ rows) = (λ n. lookup-append m n v row, extend_rows-Adds m v rows)

  pub extend_rows-Fit :
      (c : Column D) (v : Value D) (columns : List (Column D)) (rows : List (Row D))
      → Fit columns rows
      → Fit (columns ++ (c ∷ [])) (extend_rows c.name v rows)
  unfolding extend_rows
  extend_rows-Fit c v columns [] fit = tt
  extend_rows-Fit c v columns (row ∷ rows) fit = (
    λ n. ground (arith, fit.0 n, lookup-append c.name n v row, has_column-append n c columns),
    extend_rows-Fit c v columns rows fit.1,
  )
