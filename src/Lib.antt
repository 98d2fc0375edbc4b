-- ===== src/Lib.antt =====
-- ubus, the message bus of OpenWrt: the daemon ubusd, its client library libubus, and the wrapper of
-- libubus that programs in Java use.
--
-- Clients connect to ubusd over a socket. A client adds objects, with an id that ubusd chooses, an
-- optional path and an optional type (the signature of its methods); it looks objects up by path,
-- calls their methods and answers calls of its own objects, subscribes objects to objects of other
-- clients and notifies the subscribers of its own, and registers objects for events by pattern.
--
-- Files
--
--   Prelude            shared helpers: tests on the native numbers, lists, `do` over Option
--   Libubox/Text       C strings: strcmp, strncmp, the last character
--   Libubox/Tree       an AVL tree as the list of its nodes in key order
--     Tree/Find        lookups after insertions
--     Tree/Sorted      the order of the keys, and what keeps it
--   Ubusd/Message      ubus/ubusmsg.h and the messages that ubusd builds
--   Ubusd/State        the structs of ubus/ubusd_obj.h and ubus/ubusd.h, the trees, the output
--   Ubusd/Id           ubus/ubusd_id.c: ubus_alloc_id
--   Ubusd/ObjType      ubus/ubusd_obj.c: types of objects and their reference counts
--   Ubusd/Subscription ubus/ubusd_obj.c: ubus_subscribe, ubus_unsubscribe, and the notifications
--                      of ubus/ubusd_proto.c about them
--   Ubusd/Object       ubus/ubusd_obj.c: ubusd_create_object, ubusd_free_object
--   Ubusd/Event        ubus/ubusd_event.c: patterns and the delivery of events
--     Event/Match, Event/Delivery, Event/Once
--                      which patterns match, and which objects get an event
--   Ubusd/Proto        ubus/ubusd_proto.c, one module for each group of handlers: Reply, Objects,
--                      Lookup, Call, Watch; Receive for the dispatch, Client for connections
--     Lookup/Prefix, Objects/Removed, Call/Routing, Receive/Owner
--                      lookups by a prefix, the reply to a removal, the way of a call, and who
--                      may act for an object
--   Ubusd/Run          the steps of the daemon and the states that it reaches
--   Ubusd/Edits        the single changes that every operation is made of, and what they keep
--   Ubusd/Txq          ubus/ubusd.c: the ring of waiting messages and its sending
--     Txq/Queue, Txq/Refined
--                      the ring as a queue
--     Txq/Stream       the bytes that a client reads
--     Txq/Sending      ubus_msg_send and the sending loop of client_cb
--     Txq/Draining     write events, and the emptying of the queue
--     Txq/Greeting     HELLO on a socket that takes a part of it
--     Txq/Shared       messages in the buffer that all messages share
--   Ubusd/Disconnect   ubus/ubusd.c: handle_client_disconnect
--   Ubusd/Inbox        ubus/ubusd.c: how messages are put together from what the socket gives
--     Inbox/Frames     a client's messages are accepted as they were sent
--     Inbox/Split      a header in two pieces
--   Libubus/Request    ubus/libubus-req.c: requests of a client
--     Request/Answer   which request an incoming message answers, and what it does to it
--     Request/Waiting, Request/Invoke
--                      ubus_complete_request and ubus_invoke; below Waiting the rounds of the loop
--                      (Rounds) and what it puts back (Returned)
--     Request/Started, Request/Outstanding, Request/Agreed
--                      the subscribers that a notification waits for, and those that ubusd tells
--     Request/Notify   ubus_notify
--     Request/Due      how often libubus is still to call the function of a request
--   Libubus/Io         ubus/libubus-io.c: a client's socket
--     Io/Sending       writev_retry and ubus_send_msg; below it Whole and Ending (the message goes
--                      out whole, and that takes no more calls than bytes), Descriptor
--     Io/Receiving     recv_retry, get_next_msg, ubus_handle_data; below it Pieces, Opening and
--                      Messages (reading in pieces), Handled (all messages, then the end), Buffer
--                      and Bounds (the size of the buffer)
--   Libubus/Object     ubus/libubus-obj.c: messages for objects
--     Object/Dispatch  the method that a call runs, and the buffer of the connection
--     Object/Answered  a call, its status, and ubusd between them
--     Object/Keeps     what the handling of a message leaves as it is
--   Libubus/Queue      ubus/libubus.c: messages for objects that wait while a request does
--     Queue/Pending    their order
--   Libubus/Registry   ubus/libubus-obj.c, libubus-io.c, libubus-sub.c: objects are added, removed
--                      and added again; ubus/libubus.c: what a lookup gives
--     Registry/Keyed, Registry/Roundtrip
--                      the tree of a client and the ids of its objects
--     Registry/Fresh, Registry/Refreshed
--                      what ubus_refresh_state files anew
--     Registry/Handlers
--                      subscribers and event handlers
--   Libubus/Connect    ubus/libubus-io.c: ubus_reconnect; below it Greeted and Refused
--   Wrapper/Outcome    how the functions of java_ubus_example/jni/ubus_wrapper.c end
--   Wrapper/Types      java_ubus_example/jni/ubus_wrapper.c: ubus_get_type_info and
--                      ubus_parse_object_type
--     Types/Described, Types/Packed, Types/Held
--                      what a JSON text describes, how rows stand in a block, what is read from it
--     Types/Laid, Types/Whole
--                      the second pass puts what the first has counted
--   Wrapper/Calls      java_ubus_example/jni/ubus_wrapper.c: calls that wait for an answer
--     Calls/Balanced   what the flags of a call say
--     Calls/Operations, Calls/Started, Calls/Invoked, Calls/Fetched, Calls/Released
--                      what each operation does to them
--     Calls/Reached, Calls/Order
--                      the states that calls lead to, and the order of the answers
--   Wrapper/Incoming   java_ubus_example/jni/ubus_wrapper.c: calls from other clients
--     Incoming/Answered
--                      from the arrival of such a call to its answer
--   Wrapper/Objects    java_ubus_example/jni/ubus_wrapper.c: the table of the objects that Java adds
--     Objects/Served   the methods of an added object
--   Tests (in Ubusd, Libubus, Wrapper and the folders below them)
--                      the theorems at concrete inputs, on the states of the modules Samples
--
-- A definition has the name of the function that it models, less the prefix `ubus_`, `ubusd_` or
-- `ubus_wrap_`, and its comment names the function.
--
-- The model
--
-- The state `Daemon` is what ubusd keeps in static variables: the trees of objects, types, paths,
-- patterns and clients, two counters, the values that reads of /dev/urandom will give, and a log of
-- what it did to the outside (messages handed to ubus_msg_send, received messages freed, descriptors
-- closed). A handler takes the client, the received message and the state, and returns its result
-- with the new state, or `none` where the C code would follow a NULL pointer or a pointer to a struct
-- that is gone.
--
-- Pointers to objects, types and clients are the ids under which the trees hold them. A subscription
-- is on two lists, each of which holds the id of the other end. Allocations succeed, and calls of
-- libubox that build a message do too. A C string is the list of its bytes before the zero; where
-- the code reads the byte in front of an empty string, that byte is part of the model. Counters wrap
-- at 2^32 and the sequence number of a header at 2^16. The length of a message, `int` in the code,
-- is below 2^64 wherever that matters.
--
-- ubusd builds its messages in one buffer and sends each at once, so the log holds what the buffer
-- holds. The one message that is sent later than it is built, the reply to the removal of an object,
-- takes its attributes from the log (`last_built`).
--
-- libubox is used as follows. A tree is the list of its nodes in key order, as avl.h walks it.
-- blob_parse has been done: `Attrs` is the array that it fills. blobmsg_check_attr and the two calls
-- of blobmsg_parse in ubus/ubusd_event.c are the parameter `Blobmsg`, an arbitrary function of the
-- payload. The socket is a parameter too: a list of results, one for each write.
--
-- Loops are recursion on the list that they walk. Some need more: `draw_id` recurses on the values of
-- the random source and fails at their end, as a failed read does; `free_objects`, which takes the
-- first object of a client until none is left, has as fuel the number of the client's objects and
-- one, since each round takes one object off that list. The loop of `handle_client_disconnect` needs
-- one round more than the ring has slots.
--
-- The receiving half of client_cb takes one result for each call of recvmsg or read, and stops where
-- the list of results ends, as it does on EAGAIN. The lengths that blob_raw_len and blob_pad_len read
-- from the announcement are the parameter `BlobLen`. A write past the end of `hdrbuf` is the result
-- `overrun` of a round, with its place and length, and ends the loop with `none`.
--
-- In the client library a request is an address in a memory of requests, and the list `requests` of
-- the context holds addresses. Functions of the application are the parameter `App`, what a call does
-- to the context, and each call is in the log. The word `pending` of a notification is the list of
-- its 32 bits, lowest first. `process_pending` empties a list that the application's functions may add
-- to, so its fuel is an argument.
--
-- `ubus_complete_request` takes a list of rounds, each with the time of the clock and the messages
-- for requests that come in; where the list ends first, it waits still. Messages for objects that
-- come in meanwhile join the list of waiting messages, as `Libubus.Queue.process_msg` has it.
--
-- The sockets of a client give one outcome for each call of sendmsg or recvmsg: how many bytes it
-- takes or gives of those there are, or an error. A loop over such calls is recursion on the list of
-- outcomes; where the list ends first, its result says that it waits still. `handle_data` has fuel
-- for the messages, one more than there are is enough. Of the buffer a reader knows its size and the
-- bytes written for the present message. Whether realloc succeeds is a parameter.
--
-- For messages to objects the context is `Host`: the memory of the objects by their addresses, the
-- tree of the objects by their ids, the list of waiting messages, and the messages sent. What the
-- application's functions do to it is the parameter `Program`. `process_pending_msg` takes messages
-- off a list that these functions may add to, so its fuel is an argument, and one more than there are
-- is enough where they add none. Adding and removing an object takes what ubusd answers as `Answer`.
-- `ubus_reconnect` takes what usock and read give as `Greeting`, and the order of the bytes in a
-- number as an arbitrary function.
--
-- The wrapper for Java calls libubus as it is modelled here, with the application `apart`, whose
-- functions do nothing to the context but are logged; `on_calls` does what the functions of the
-- wrapper do, after libubus has returned instead of within. They touch no part of the context, and
-- libubus does not read what they write. A `struct ubus_jni_context` is an address; the block that its
-- `wrap` points to, and the request in this block, are found under it. What libubox makes of a JSON
-- text is the parameter `Json`, the sizes of the structs the parameter `Sizes`. Pointers into the
-- block of a type are offsets; a row is written when its fields are known, and so its counter, which
-- the code counts up in the row, is an argument of the loop. The address of an object is its index in
-- `_ubus_objects`, and its array of methods is the list that stands in its type.
--
-- Not modelled: the reference counts of messages (but for the mark of a shared one) and the errors of
-- accept in ubus/ubusd.c; its options and event loop, which are I/O; of the client library the
-- timers that connect again, and ubus_lookup, ubus_lookup_id, ubus_subscribe, ubus_unsubscribe and
-- ubus_send_event around their requests; of java_ubus_example/jni/ubus_wrapper.c the pipe that wakes
-- the event loop, and java_ubus_example/jni/ubus_jni.c, which converts arguments; the tool ubus/cli.c;
-- libubox and json-c, which are libraries of their own.
pub mod Prelude
pub mod Libubox
pub mod Libubus
pub mod Ubusd
pub mod Wrapper
