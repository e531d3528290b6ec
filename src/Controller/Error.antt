-- ===== src/Controller/Error.antt =====
-- Go errors as values, and the results of functions that return a value or an error.
use rufio.Prelude.{◌++◌}
use rufio.Prelude.Text.{Text}

pub data Error : Type 0 where
  -- an error of code that the package calls, with its text
  external : Text → Error
  -- `fmt.Errorf` with no error among its arguments
  errorf : Text → Error
  -- `fmt.Errorf` with `%w` at the end: what stands in front of it, and the error that is wrapped
  wrapf : Text → Error → Error

-- `err.Error()`.
unfoldable pub message : Error → Text
message (external m) = m
message (errorf m) = m
message (wrapf before e) = before ++ message e

pub data Result (A : Type 0) : Type 0 where
  ok : A → Result A
  err : Error → Result A
