-- ===== src/Bus/Types.antt =====
-- The messages of pkg/bus/types.go.
use operator_os.Base.{List, Text}

pub record Peer : Type 0 where
  pub kind : Text
  pub id : Text

pub record SenderInfo : Type 0 where
  pub platform : Text
  pub platform_id : Text
  pub canonical_id : Text
  pub username : Text
  pub display_name : Text

pub record InboundMessage : Type 0 where
  pub channel : Text
  pub sender_id : Text
  pub sender : SenderInfo
  pub chat_id : Text
  pub content : Text
  pub media : List Text
  pub peer : Peer
  pub message_id : Text
  pub media_scope : Text
  pub session_key : Text
  pub metadata : List (Text × Text)

pub record OutboundMessage : Type 0 where
  pub channel : Text
  pub chat_id : Text
  pub content : Text

pub record MediaPart : Type 0 where
  pub type : Text
  pub ref : Text
  pub caption : Text
  pub filename : Text
  pub content_type : Text

pub record OutboundMediaMessage : Type 0 where
  pub channel : Text
  pub chat_id : Text
  pub parts : List MediaPart
