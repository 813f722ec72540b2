-- ===== src/Cw20/Execute.antt =====
-- packages/cw20/src/msg.rs and logo.rs: the messages of the CW20 interface.
use demurrage_token.Base.{ℕ, Option, Bytes}
use demurrage_token.Expiration.{Expiration}

pub data EmbeddedLogo : Type 0 where
  svg : Bytes → EmbeddedLogo
  png : Bytes → EmbeddedLogo

pub data Logo : Type 0 where
  url : Bytes → Logo
  embedded : EmbeddedLogo → Logo

pub data LogoInfo : Type 0 where
  url_info : Bytes → LogoInfo
  embedded_info : LogoInfo

pub data Cw20ExecuteMsg : Type 0 where
  transfer : (recipient : Bytes) (amount : ℕ) → Cw20ExecuteMsg
  burn : (amount : ℕ) → Cw20ExecuteMsg
  send : (contract : Bytes) (amount : ℕ) (msg : Bytes) → Cw20ExecuteMsg
  increase_allowance : (spender : Bytes) (amount : ℕ) (expires : Option Expiration) → Cw20ExecuteMsg
  decrease_allowance : (spender : Bytes) (amount : ℕ) (expires : Option Expiration) → Cw20ExecuteMsg
  transfer_from : (owner recipient : Bytes) (amount : ℕ) → Cw20ExecuteMsg
  send_from : (owner contract : Bytes) (amount : ℕ) (msg : Bytes) → Cw20ExecuteMsg
  burn_from : (owner : Bytes) (amount : ℕ) → Cw20ExecuteMsg
  mint : (recipient : Bytes) (amount : ℕ) → Cw20ExecuteMsg
  update_minter : (new_minter : Bytes) → Cw20ExecuteMsg
  update_marketing : (project description marketing : Option Bytes) → Cw20ExecuteMsg
  upload_logo : Logo → Cw20ExecuteMsg
