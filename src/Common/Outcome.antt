-- ===== src/Common/Outcome.antt =====
-- apps/api/src/common/operation-outcome.util.ts.
use fulfill_os.Prelude.{ℕ, Bool, not, if◌then◌else◌}
use fulfill_os.Common.Body.{Body}
use fulfill_os.Database.Thrown.{http_exception}
use fulfill_os.Database.Tx.{Result, ok, err}

-- `OperationOutcome`: a decision that commits with its transaction, a rejection included.
pub record OperationOutcome : Type 0 where
  pub accepted : Bool
  pub status : ℕ
  pub body : Body

unfoldable pub unwrap_outcome : OperationOutcome → Result Body
unwrap_outcome o = if not o.accepted then err (http_exception o.status o.body) else ok o.body
