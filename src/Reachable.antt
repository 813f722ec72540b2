-- ===== src/Reachable.antt =====
-- The storages that a contract comes to by messages that succeed. The virtual machine discards
-- what a message wrote that failed, so only successes are steps.
pub mod Sound
pub mod Lifetime
pub mod Backed
pub mod Owners
pub mod Replay
pub mod Clock
pub mod Written
pub mod Keys
pub mod Stuck
pub mod Losses
use demurrage_token.Base.{◌≡◌}
use demurrage_token.Outcome.{ok}
use demurrage_token.Std.{Env, MessageInfo, Response}
use demurrage_token.Chain.{Chain}
use demurrage_token.State.{Store}
use demurrage_token.Msg.{ExecuteMsg}
use demurrage_token.Contract.{execute}

pub data Reach (chain : Chain) (s : Store) : Store → Type 0 where
  here : Reach chain s s
  next :
      {t u : Store} (env : Env) (info : MessageInfo) (msg : ExecuteMsg) (r : Response)
      → Reach chain s t
      → execute chain env info msg t ≡ (ok r, u)
      → Reach chain s u
