-- ===== src/Ubusd/Message.antt =====
-- ubus/ubusmsg.h: message types, attributes and status codes; and the messages that ubusd builds.
-- A received message is given by its parsed attributes (`blob_parse` is libubox's), a built one by
-- the `blob_put_*` calls that fill it, in their order.
use libubus_jni.Prelude.{ℕ, ◌^◌, Bool, List, Option}
use libubus_jni.Libubox.Text.{CString}

abbrev pub system_object_event : ℕ
system_object_event = 1

abbrev pub system_object_max : ℕ
system_object_max = 1024

-- `enum ubus_msg_type`; `unknown` is any value of the byte from `__UBUS_MSG_LAST` on.
pub data MsgType : Type 0 where
  hello status data_reply ping lookup invoke add_object remove_object : MsgType
  subscribe unsubscribe notify : MsgType
  unknown : ℕ → MsgType

-- `enum ubus_msg_status`
pub data Status : Type 0 where
  ok invalid_command invalid_argument method_not_found not_found no_data : Status
  permission_denied timeout not_supported unknown_error connection_failed : Status

-- The payload of an attribute that ubusd passes on without reading it.
abbrev pub Blob : Type 0
Blob = List ℕ

-- A string attribute; `before` is the byte that lies in front of its first character.
pub record Text : Type 0 where
  pub before : ℕ
  pub chars : CString

-- The array `attrbuf`, as `ubus_parse_msg` fills it. A missing attribute is `none`.
pub record Attrs : Type 0 where
  pub status : Option ℕ
  pub objpath : Option Text
  pub objid : Option ℕ
  pub method : Option CString
  pub objtype : Option ℕ
  pub signature : Option (List Blob)
  pub payload : Option Blob
  pub target : Option ℕ
  pub no_reply : Option ℕ

-- One `blob_put_*` call, by its attribute.
pub data Field : Type 0 where
  put_status put_objid put_objtype put_target : ℕ → Field
  put_objpath put_method : CString → Field
  put_signature : List Blob → Field
  put_data : Blob → Field
  put_active put_no_reply : Bool → Field
  put_subscribers : List ℕ → Field
  -- The nested table of `ubusd_create_object_event_msg`: "id" and "path".
  put_object_data : ℕ → CString → Field

-- What a sent message carries: attributes built by ubusd, or those of a message passed on.
pub data Body : Type 0 where
  built : List Field → Body
  received : Attrs → Body

-- `struct ubus_msg_buf` of a received message; `fd` is `none` at -1.
pub record MsgBuf : Type 0 where
  pub msg_type : MsgType
  pub seq : ℕ
  pub peer : ℕ
  pub fd : Option ℕ
  pub attrs : Attrs

-- A message handed to `ubus_msg_send`.
pub record Message : Type 0 where
  pub msg_type : MsgType
  pub seq : ℕ
  pub peer : ℕ
  pub fd : Option ℕ
  pub body : Body

-- The calls of libubox's blobmsg.c on the payload of an attribute.
pub record Blobmsg : Type 0 where
  -- `blobmsg_check_attr(attr, true)`
  pub check_attr : Blob → Bool
  -- `blobmsg_parse` by `evr_policy`: "pattern" and "object"
  pub parse_register : Blob → Option Text × Option ℕ
  -- `blobmsg_parse` by `ev_policy`: "id" and "data"
  pub parse_event : Blob → Option CString × Option Blob

-- The wrap-around of a `uint16_t` and of a 32-bit counter.
abbrev pub u16_mod : ℕ
u16_mod = 2 ^ 16

abbrev pub u32_mod : ℕ
u32_mod = 2 ^ 32
