-- ===== src/Transport/Types.antt =====
-- packages/ssh-transport/src/types.ts: what every transport takes and the states of its sessions.
use trominal.Shared.{ℕ, Option, Text, Bytes}

pub data SshSessionState : Type 0 where
  closed connected connecting : SshSessionState

pub data SshAuth : Type 0 where
  password : Text → SshAuth
  private_key : (private_key_pem : Bytes) (passphrase : Option Text) → SshAuth

pub record SshConnectOptions : Type 0 where
  pub host_id : Option Text
  pub host : Text
  pub port : ℕ
  pub username : Text
  pub auth : Option SshAuth
  pub websocket_url : Option Text
  pub websocket_token : Option Text
  pub host_key_fingerprint : Option Text
  pub cols : Option ℕ
  pub rows : Option ℕ
