-- ===== src/Clients/Messages.antt =====
-- The messages between the servers of src/server_backends/ and their clients, as the servers build
-- and match them, and what the servers use of serde_json for them.
use devicectrl_server.Prelude.{ℕ, List, Result, Error}
use devicectrl_server.Deps.{Deps, Bytes}
use devicectrl_server.Common.{UpdateRequest, UpdateNotification}
use devicectrl_server.Devices.{DeviceDescriptor}

-- the servers that keep a connection open for each client
pub data Transport : Type 0 where
  tcp websocket : Transport

module _ ⦃d : Deps⦄ where
  open d use {OtherMessage}

  -- `ClientBoundSocketMessage::Catalog`
  pub record Catalog : Type 0 where
    pub devices : List DeviceDescriptor
    pub scenes : List ℕ

  pub data ServerBoundSocketMessage : Type 0 where
    update_request : UpdateRequest → ServerBoundSocketMessage
    state_query : (device_id : ℕ) → ServerBoundSocketMessage
    activate_scene : ℕ → ServerBoundSocketMessage
    query_catalog : ServerBoundSocketMessage
    other : OtherMessage → ServerBoundSocketMessage

  pub data ClientBoundSocketMessage : Type 0 where
    update_notification : UpdateNotification → ClientBoundSocketMessage
    request_received : ClientBoundSocketMessage
    unimplemented : ClientBoundSocketMessage
    catalog : Catalog → ClientBoundSocketMessage
    other : OtherMessage → ClientBoundSocketMessage

  pub data ServerBoundHttpMessage : Type 0 where
    update_request : UpdateRequest → ServerBoundHttpMessage
    activate_scene : ℕ → ServerBoundHttpMessage
    other : OtherMessage → ServerBoundHttpMessage

  pub data ClientBoundHttpMessage : Type 0 where
    request_received unimplemented : ClientBoundHttpMessage

  pub record SocketCodec : Type 0 where
    -- `serde_json::from_str`, `serde_json::to_string` and `err.into()`
    pub decode : Bytes → Result ServerBoundSocketMessage
    pub encode : ClientBoundSocketMessage → Result Bytes
    pub failure_of : Error → ClientBoundSocketMessage

  pub record HttpCodec : Type 0 where
    -- `serde_json::from_slice` and `serde_json::to_string`
    pub decode : Bytes → Result ServerBoundHttpMessage
    pub encode : ClientBoundHttpMessage → Result Bytes
