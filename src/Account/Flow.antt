-- ===== src/Account/Flow.antt =====
-- A sign-in from the login to the first request, and what a request must show.
pub mod Logins
pub mod Kept
pub mod SignIn
use vector_transfer.Base.{◌+◌, ◌*◌, ◌≤◌, [], ◌==◌, length, ==_refl, pos_part}
use vector_transfer.Base.Result.{Result}
use vector_transfer.Base.Dict.{lookup-insert}
use vector_transfer.Account.{Tokens, exchange}
use vector_transfer.Control.Job.{second}
use vector_transfer.Account.Sessions.{
  Transaction, login, prune, live_transactions, live_sessions, take_transaction, open_session,
  forget, capacity, sign_in, sends,
}
use vector_transfer.Account.Sessions.Handlers.{callback}
