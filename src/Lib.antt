-- ===== src/Lib.antt =====
-- Kocom's MQTT broker and client library, mosquitto (Kocom/mosquitto): packets, topics, the message
-- queues of a client with its handlers, and the broker's message store, subscription tree and access
-- lists.
--
-- How the parts interact. The client library writes packets with the send functions and reads them
-- with _mosquitto_packet_read, which hands each packet to _mosquitto_packet_handle; the handlers parse
-- it with the readers, move messages between the states of the QoS exchanges in the two queues, answer
-- with send functions and call the program back. The broker is built from the same packet code; each of
-- its clients has one message list, whose entries point into a store with reference counts.
--
-- Which file models what (paths from the repository's root):
--   Proto            error codes, packet types and states: Kocom/mosquitto/lib/mosquitto.h,
--                    lib/mqtt3_protocol.h, lib/mosquitto_internal.h
--   Packet           struct _mosquitto_packet, the readers and writers of lib/net_mosq.c
--                    (read_byte is _mosquitto_read_byte, and so on), packet_alloc of lib/util_mosq.c;
--                    Packet/Bounds and Packet/Frames hold their lemmas
--   Send             lib/send_mosq.c; Send/Framing and Protocol are about the bytes, Send/Write is
--                    _mosquitto_packet_queue and _mosquitto_packet_write of lib/net_mosq.c
--   Receive          _mosquitto_net_read, _mosquitto_packet_read and _mosquitto_packet_cleanup of
--                    lib/net_mosq.c; Receive/Stream, Length and Payload lead to Receive/Whole;
--                    Receive/Total is about the fuel, Receive/Acks about acknowledgements
--   Topic            the checks and mosquitto_topic_matches_sub of lib/util_mosq.c; Topic/Levels says
--                    what filters mean, Topic/Check, Steps and Matching compare
--   Client           struct mosquitto as the library uses it, and lib/messages_mosq.c (message_queue is
--                    _mosquitto_message_queue, and so on); Client/Unlink, Restart, Queues, Inflight
--                    and Reset
--   Handle           lib/read_handle.c, lib/read_handle_shared.c, lib/read_handle_client.c,
--                    mosquitto_publish of lib/mosquitto.c, message ids and keepalive of
--                    lib/util_mosq.c; Handle/Within, Exchange, Acked, Publish and
--                    Alive
--   Broker           src/database.c with the structures of src/mosquitto_broker.h: the store and
--                    _message_remove; Broker/Admit is mqtt3_db_message_insert, Broker/Change the
--                    other operations (message_delete is mqtt3_db_message_delete, and so on),
--                    Broker/Write mqtt3_db_message_write, Broker/Reset with Reset/Skips
--                    mqtt3_db_message_reconnect_reset; Broker/Store (references), Keeps, Delete and
--                    Insert hold the theorems
--   Tree             src/subs.c: struct _mosquitto_subhier with its lists, and the tokens; Tree/Change is
--                    _sub_add and _sub_remove with their callers, Tree/Search _sub_search, Tree/Queue
--                    _subs_process and mqtt3_db_messages_queue; Tree/Paths is the abstract view, the map
--                    from filters to subscribers, Tree/Adding and Removing refine it; Tree/Walk, Meaning
--                    and Whole say what a search finds; Tree/Clean is mqtt3_subs_clean_session, Tree/Retained
--                    mqtt3_retain_queue; Tree/Offers, Barred, Shape, Tidy, Sound and Reach hold the
--                    rest
--   Acl              src/security_default.c and mosquitto_acl_check of src/security.c; Acl/Buffer is
--                    about the substitution in patterns, Acl/Loops and Check about the decision, Acl/HashId
--                    about ids that are wildcards
--   Examples         the theorems at concrete inputs, and test runs
--
-- How state and operations correspond. A struct is a record with the fields that the modelled functions
-- use; an operation takes it and returns it with the code that the C function returns. A linked list is
-- a list. Packets that are sent and callbacks are events in the order in which they happen; what a send
-- function returns is taken from a list that the network decides. A pointer into the broker's store is
-- the address of the stored message. NULL, a failed assertion and an access outside a buffer are
-- results of their own (none, fault or stopped), so that a theorem that excludes them says something.
--
-- Parameters. mosquitto_acl_check is a parameter of publishing, a code for a client and a topic; a plug-in
-- for it is one of the access check. The allocator is a parameter, with the one law that malloc returns a block of the size
-- that was asked for; elsewhere a Boolean says whether an allocation succeeds. The network is a list of
-- events. Times are arguments.
--
-- Numbers. uint32_t, uint16_t and uint8_t arithmetic keeps its wrap-around where it can occur. int
-- counters are natural numbers where the theorems show them to be lengths, and integers where the code
-- lets them go below 0.
--
-- Fuel. The loop over the length bytes of a packet has five rounds, since the code refuses a sixth
-- byte; the loop over the payload has one round for each byte that is missing; the broker's deletion
-- loop and its reset have one for each message, its writing loop two. That these are enough is part of
-- the results. All other loops are structural.
--
-- Not modelled: opening sockets, TLS, threads and their mutexes, logging, connecting and subscribing in the
-- library, and the broker's handlers, reading of access files, passwords, configuration, persistence
-- and main loop.
pub mod Prelude
pub mod Proto
pub mod Packet
pub mod Topic
pub mod Tree
pub mod Acl
pub mod Send
pub mod Receive
pub mod Client
pub mod Handle
pub mod Broker
pub mod Examples
