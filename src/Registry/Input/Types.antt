-- ===== src/Registry/Input/Types.antt =====
-- The declarations of lib/servers/registry.js and the inputs that they are made of. An input is the
-- record of the members that the source reads.
use tmux_web_panel.Base.{ℕ, Bool, Option, Text, text_eq, nat_eq, option_eq}
use tmux_web_panel.AgentEvents.Event.{Value}

pub data Api : Type 0 where
  api_ssh api_direct : Api

pub data Terminal : Type 0 where
  terminal_ssh terminal_direct terminal_mosh : Terminal

pub data AuthMethod : Type 0 where
  agent password_auth : AuthMethod

pub record Transport : Type 0 where
  pub api : Api
  pub terminal : Terminal

pub record Address : Type 0 where
  pub host : Option Text
  pub port : ℕ
  pub user : Option Text

-- A password, and the revision that tells one password from the next.
pub record Secret : Type 0 where
  pub password : Text
  pub revision : Text

pub record Ssh : Type 0 where
  pub config_host : Option Text
  pub identity_file : Option Text
  pub proxy_jump : Option Text
  pub known_host_alias : Option Text
  pub auth_method : AuthMethod
  pub secret : Option Secret

pub record Declaration : Type 0 where
  pub name : Text
  pub address : Address
  pub ssh : Ssh
  pub transport : Transport
  pub enabled : Bool

pub record AddressInput : Type 0 where
  pub host : Option Value
  pub port : Option Value
  pub user : Option Value

pub record SshInput : Type 0 where
  pub config_host : Option Value
  pub identity_file : Option Value
  pub proxy_jump : Option Value
  pub known_host_alias : Option Value
  pub auth_method : Option Value
  pub password : Option Value
  pub encrypted_password : Option Value
  pub password_revision : Option Value
  pub passphrase : Option Value
  pub private_key : Option Value
  pub token : Option Value

pub data TransportInput : Type 0 where
  no_transport bad_transport : TransportInput
  choices : (api : Option Value) (terminal : Option Value) → TransportInput

pub record Input : Type 0 where
  pub name : Option Value
  pub id : Option Value
  -- `address` or `ssh` is there, and neither null nor empty.
  pub names_connection : Bool
  pub address : AddressInput
  pub ssh : SshInput
  pub transport : TransportInput
  pub enabled : Option Value
  pub password : Option Value
  pub passphrase : Option Value
  pub private_key : Option Value
  pub token : Option Value

pub data Body : Type 0 where
  not_an_object : Body
  body : Input → Body

-- What the source reads of the declaration that is changed; of a new one it is all missing.
pub record Previous : Type 0 where
  pub exists_already : Bool
  pub name : Text
  pub host : Option Text
  pub port : Option Value
  pub user : Option Text
  pub config_host : Option Text
  pub identity_file : Option Text
  pub proxy_jump : Option Text
  pub known_host_alias : Option Text
  pub auth_method : Option AuthMethod
  pub secret : Option Secret
  pub transport : Option Transport
  pub enabled : Bool

-- The parts of a declaration that are checked together.
pub record Reach : Type 0 where
  pub config_host : Option Text
  pub host : Option Text
  pub user : Option Text

pub record Route : Type 0 where
  pub identity_file : Option Text
  pub proxy_jump : Option Text
  pub known_host_alias : Option Text

pub record Login : Type 0 where
  pub auth_method : AuthMethod
  pub secret : Option Secret
