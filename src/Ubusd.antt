-- ===== src/Ubusd.antt =====
-- The daemon ubusd: ubus/ubusd.c, ubusd_id.c, ubusd_obj.c, ubusd_event.c and ubusd_proto.c.
pub mod Message
pub mod State
pub mod Id
pub mod Event
pub mod Run
pub mod Edits
pub mod ObjType
pub mod Subscription
pub mod Object
pub mod Proto
pub mod Disconnect
pub mod Inbox
pub mod Samples
pub mod Txq
pub mod Tests
