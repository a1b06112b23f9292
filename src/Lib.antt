-- ===== src/Lib.antt =====
-- tinyMQTT: an MQTT 3.1.1 broker in C.
--
-- The model follows the broker's own logic; sockets, threads and databases are left to the
-- code around it.
--
-- StrMap models base/mqtt_map.c as its users see it, a map with string keys. HashMap models the hash
-- table itself: HashMap has the capacities, the buckets and the operations, HashMap.Chain the keys and
-- one bucket, HashMap.Hash the hash and equality functions, HashMap.Iterate the iterators.
-- HashMap.Refine compares it with StrMap. The array of buckets is a function from the index, and
-- HashMap.Cap bounds the index.
--
-- Topic models mqtt/mqtt_topic.c: Topic.Split is tmq_topic_split; Topic.Tree has the nodes of the
-- topic tree and the walks of add_topic_or_find; Topic.Match is match, trigger_event and
-- tmq_topics_publish; Topic.Retain is get_all_retain and find_retain_messages; Topic.Subscribe is
-- tmq_topics_add_subscription, tmq_topics_add_listener, tmq_topics_add_route,
-- tmq_topics_remove_subscription and try_remove_topic. A pointer walk along a topic is a recursion
-- on the list of its levels, so no fuel is needed; a write through a pointer to a node is a function
-- that returns the tree with the node changed. The calls that match makes (client_on_match, the
-- rule engine's listeners, the cluster members) are a list of effects in order. cJSON is not part of
-- the repository: the model takes a function json_valid that says whether cJSON_Parse returns a
-- value. A read through a null pointer is none. Topic.History is any sequence of calls.
--
-- Packet has the packets of mqtt/mqtt_packet.h.
--
-- Buffer models net/mqtt_buffer.c: Buffer has the list of chunks and the operations on it,
-- Buffer.Memory one chunk, its indices and the copies into and out of it. Only the bytes that were
-- written are in the model of a chunk's memory. ioctl, readv and writev are arguments. Buffer.Refine,
-- Buffer.Bytes and Buffer.Sockets say what the operations do to the bytes that the chunks hold, and
-- Buffer.Fifo what any sequence of them does.
--
-- Codec models codec/mqtt_proto_codec.c: Codec is the state of a connection, the fixed header and the
-- remaining length; Codec.Read is tmq_buffer_read on
-- the readable bytes; Codec.Parse and
-- Codec.Parsers are the parsers and their table; Codec.Decode is decode_tcp_message_; Codec.Send is
-- make_fixed_header and the senders. What a parser sends and calls is a list of events. The callbacks
-- are a field of the codec that says what they leave in conn_state. The loop runs on fuel, one more
-- than the bytes in the buffer: a turn that is followed by another takes a byte. A value that the
-- source uses without having received it is none.
--
-- Store models the message store in memory of store/mqtt_msg_store.c: the queue is a list, and the
-- pending pointer a place in it, null, or dangling. Store.Spec is the outbox that it is compared
-- with: what has been sent and what waits.
--
-- Session models mqtt/mqtt_session.c: Session.Receive has the handlers, Session.Transmit publishing
-- and subscribing, and Session.Dedup what counts as a repetition. The clock is an argument, and what a
-- session does to the broker, the client and the connection is a list of effects. A session's store is
-- one in memory.
--
-- Acl models mqtt/mqtt_acl.c: Acl has the rules and add_rule, Acl.Tree the tree, match and
-- tmq_acl_auth. The read-write lock is left out.
--
-- Broker models the requests of mqtt/mqtt_broker.c: Broker is the state, with the sessions behind
-- their pointers; Broker.Sessions is start_session, session_close_callback and handle_session_req;
-- Broker.Topics is handle_topic_req, handle_publish_req, mqtt_publish and mqtt_broadcast;
-- Broker.Connect is mqtt_connect. The requests run one after the other, as in the broker's thread, and
-- what they send to other threads is a list of effects. Connections, clocks and the encoding of
-- passwords are arguments. The flag that mqtt_broadcast writes to the entry of the topic tree is only
-- in the copy that it hands on, the one place where it is read.
--
-- Timer models ev/mqtt_timer.c: Timer has the heap with timer_swim and timer_sink, adding, and the
-- handler of a timeout in its three loops; what a callback does to the heap is an argument, and the
-- timer fd is the list of the times that it was set to. The memory of the heap is a number of bytes,
-- and a write behind it none. Every loop has the size or the index
-- as fuel: the index halves or doubles, and a turn of the loop over the timers takes one away.
-- Timer.Order, Timer.Sink and Timer.Count have the order of the heap and what it holds, Timer.Expired
-- the timers that a timeout pops, Timer.Armed the fd, and Timer.Memory for how many timers there is room.
--
-- Vec models base/mqtt_vec.c: the memory of a vector is a function from the index, and memcpy and
-- memmove change it in a range. Vec.Elements is the list of the elements, Vec.Refine what each
-- operation does to it, and Vec.Run a sequence of them. The other parts have lists for their vectors.
--
-- Texts are lists of bytes. Topics, filters, names and client ids are taken to hold no zero byte, which
-- the standard forbids in them. A payload may hold one, and c_str is what is left of it, as of any text,
-- where the code copies with tmq_str_new.
--
-- Not modelled: the client, the codec of the cluster's messages, the strings (lists of bytes here), the
-- configuration, the queues between the threads, the cluster, the rule engine, the loop over epoll, the
-- thread pool, the databases and the MongoDB message store.
pub mod Acl
pub mod Broker
pub mod Buffer
pub mod Codec
pub mod HashMap
pub mod Packet
pub mod Prelude
pub mod Session
pub mod Store
pub mod StrMap
pub mod Timer
pub mod Topic
pub mod Vec
