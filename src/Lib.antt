-- ===== src/Lib.antt =====
-- micro-opcua (muc-opcua), an OPC UA server for microcontrollers: a model of its protocol core in C.
--
-- The parts of the program, and the files that model them. A server negotiates a TCP connection
-- (src/core/tcp_connection.c), parses the headers of the chunks that it reads (src/core/message_chunk.c),
-- validates their SequenceNumbers (src/core/sequence.c) and reads the type of the request
-- (src/core/service_message.c); the services open channels (src/services/secure_channel.c) by the table of
-- policies (src/security/security_policy.c) and keep sessions (src/services/session.c); bodies are decoded
-- and encoded with the codecs of src/encoding; nodes are found by src/address_space/node_id.c; and
-- src/core/uasc.c puts the headers in front of a response. src/services/subscription.c samples the values of
-- monitored items into queues and answers parked publish requests with what is in them, or with a keep-alive,
-- which src/core/server.c sends.
--   Base            names shared by all files: tests on numbers, lists, integers, status codes
--                   (include/muc_opcua/status.h), the outcome of a C function, memory as a list of bytes
--   Encoding        src/encoding and include/muc_opcua/encoding.h, types.h
--     Le            the bytes of a word, src/encoding/binary_le.h
--     Reader        src/encoding/binary_reader.c: mu_binary_reader_t and mu_binary_read_*
--     Writer        src/encoding/binary_writer.c: mu_binary_writer_t and mu_binary_write_*
--     Text          src/encoding/binary_string.c
--     NodeId        src/encoding/binary_nodeid.c
--     ExtensionObject  src/encoding/binary_extension_object.c
--     Variant       src/encoding/binary_variant.c
--     DataValue     src/encoding/binary_datavalue.c
--     Codec         the contract between an encoder and its decoder
--   Core            src/core
--     Sequence      src/core/sequence.c
--     MessageChunk  src/core/message_chunk.c
--     TcpConnection  src/core/tcp_connection.c
--     Uasc          src/core/uasc.c
--     ServiceMessage  src/core/service_message.c
--     Server        src/core/server.c and server_internal.h: mu_server_emit_message and the state that it and
--                   the publishing use
--   Security        src/security
--     Policy        src/security/security_policy.c
--   Services        src/services
--     SecureChannel  src/services/secure_channel.c
--     Session       src/services/session.c
--     ServiceHeader  src/services/service_header.c, and the service fault of src/core/service_dispatch.c
--     Subscription  src/services/subscription.h: the data
--       Queue       the ring of reports of a monitored item
--       Timers      advance_sample_timer and advance_publish_timer
--       Table       the tables: create, find, acknowledge, republish, delete, alloc; their invariant
--       Requests    the queue of parked publish requests
--       Links       the links between triggering and triggered items, and the list of items
--       Notification  counting, writing and clearing the reports that are due
--       Sampling    reading a value and deciding whether it is reported
--       Response    build_publish_response, sequence numbers and the retransmission slot
--       Reply       the answer to a parked request: data to resend, the response, or a fault where it is too long
--       Publish     publish_due and mu_subscriptions_tick, and the keep-alives
--   AddressSpace    src/address_space
--     Validation    src/address_space/address_space.c
--     ValueSource   src/address_space/value_source.c
--     NodeLookup    src/address_space/node_id.c: order, equality and the searches without an index
--     NodeIndex     src/address_space/node_id.c: the index and the choice of the search
--   Examples        concrete inputs
--
-- How the code corresponds to the model. A function mu_binary_read_x is `read_x`, a program over the state
-- `Reader` that is the struct behind its pointer; its result is `ok a s` for MU_STATUS_GOOD with the
-- out-parameter `a`, `err e s` for the status `e`, and `fault` where C would touch memory outside of the
-- buffer. `do` is the chain of `if (status != MU_STATUS_GOOD) return status;`. An out-parameter is a
-- result, so that what a failing call leaves in it is not modelled; changes of the reader, the writer and
-- the buffers by a failing call are. Pointers to the reader, the writer and the out-parameters are never
-- NULL; buffers and values may be, where the code tests them.
--
-- The functions on connections, channels and sessions are programs over the struct that they change, with
-- the buffer that they write where there is one; `loaded` and `store` are the accesses to a buffer.
--
-- Build options. The model has MUC_OPCUA_SECURITY, MUC_OPCUA_MULTIPLE_CONNECTIONS and
-- MUC_OPCUA_SUBSCRIPTIONS_STANDARD, and not MUC_OPCUA_EVENTS. The entropy adapter, the TCP adapter, the time
-- adapter, the callbacks of value sources, the arithmetic of doubles that the deadband uses and
-- mu_sym_chunk_wrap are parameters; the TCP adapter and the time adapter answer by the calls before them.
--
-- Numbers. Unsigned words are natural numbers with their wrap-around and their bounds written out; signed
-- words are integers and their casts are `signed` and `unsigned`; `|` of bytes shifted to different places
-- is their sum. A size_t is a natural number that does not wrap: sizes of objects in memory are far below
-- its limit. Floats are their bit patterns, which the code moves, compares by their bytes or converts with integers; the
-- deadband compares doubles with an arithmetic that is a parameter. The loops
-- are over the elements of an array, of a table or over a counter to a known bound, and are structural
-- recursion; the binary search of AddressSpace.NodeLookup has as many rounds of fuel as the table or
-- the index has entries, and running out of it is a fault, which its theorems exclude; the loop of
-- advance_publish_timer has as much as there are milliseconds to catch up, and one round more.
--
-- Not modelled: the receive loop and the dispatcher of the server, the services other than channels, sessions
-- and subscriptions, the aggregates and the events of src/services/subscription.c, the attributes of the nodes,
-- secured chunks and their keys, the crypto and network adapters, generated tables, and the identity tokens of
-- src/encoding/binary_reader.c.
pub mod AddressSpace
mod Base
pub mod Core
pub mod Encoding
pub mod Examples
pub mod Services
pub mod Security
