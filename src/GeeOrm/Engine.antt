-- ===== src/GeeOrm/Engine.antt =====
-- geeorm/geeorm.go and session/transaction.go: a transaction around a function, and the columns that
-- a migration adds and drops. The database is a log of what it is asked; its errors are arguments.
pub mod Outcomes
use days_project.Common.{
  List, [], ◌∷◌, ◌++◌, Option, none, some, Bool, true, false, Text, text_dec, GoMap, lookup, insert,
}

-- What a `sql.DB` and its `sql.Tx` are asked in a transaction; `work` is a statement of the function.
pub data Action : Type 0 where
  begin commit rollback : Action
  work : Text → Action

-- How the function of a transaction ends.
pub data Ending (A : Type 0) : Type 0 where
  returned : A → Option Text → Ending A
  panicked : Text → Ending A

-- How `Transaction` ends.
pub data Answer (A : Type 0) : Type 0 where
  result : Option A → Option Text → Answer A
  panic : Text → Answer A

module _ {A : Type 0} where
  -- The deferred function and the return, behind the statements of `f`; `commit_error` is what
  -- `Commit` gives. The error of `Rollback` is dropped.
  unfoldable pub conclude : Option Text → List Action → Ending A → List Action × Answer A
  conclude commit_error log (panicked p) = (log ++ rollback ∷ [], panic p)
  conclude commit_error log (returned a (some e)) = (log ++ rollback ∷ [], result (some a) (some e))
  conclude commit_error log (returned a none) = (log ++ commit ∷ [], result (some a) commit_error)

  -- `Transaction`; `f` gives its statements and its ending.
  unfoldable pub transaction :
      Option Text → Option Text → List Action × Ending A → List Action × Answer A
  unfolding conclude
  transaction (some e) commit_error f = (begin ∷ [], result none (some e))
  transaction none commit_error f = conclude commit_error (begin ∷ f.0) f.1

-- The first loop of `difference`
unfoldable pub set_of : List Text → GoMap Text Bool → GoMap Text Bool
set_of [] m = m
set_of (v ∷ vs) m = set_of vs (insert text_dec v true m)

-- The second loop
unfoldable pub missing_from : GoMap Text Bool → List Text → List Text
missing_from m [] = []
missing_from m (v ∷ vs) = elim (lookup text_dec v m) [
  | none ↦ v ∷ missing_from m vs
  | some b ↦ missing_from m vs
]

-- `difference`
unfoldable pub difference : List Text → List Text → List Text
unfolding set_of missing_from
difference a b = missing_from (set_of b []) a
