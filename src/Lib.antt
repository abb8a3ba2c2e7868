-- ===== src/Lib.antt =====
-- A model of the core of open62541, an OPC UA stack in C: the binary encoding of the built-in
-- types, the assembly of messages on a connection, and the server's secure channels, sessions, node
-- store, repeated jobs and subscriptions, and the services that browse the nodes and change their
-- references.
--
-- `Types` has the built-in types of include/ua_types.h that name things. `Binary` models
-- src/ua_types_encoding_binary.c: an encoder takes a stream, which is a byte buffer with a
-- position, to a status and a stream, or to an overrun where C would write behind the buffer; a
-- decoder returns a status, a value and a stream. `retval |= f(...)` is `then_encode` and `>>=`,
-- which go on after an error as the source does. `Binary.Wire` says what it is to write and to
-- read given bytes; `WordWire`, `StringWire` and `NodeIdWire` show it of each type.
--
-- `Channel` models src/ua_securechannel.c, src/server/ua_securechannel_manager.c and the links of
-- src/ua_connection.c, in the build without UA_MULTITHREADING: `State` has the memory, `Links` the
-- pointers between channels, connections and sessions, `Manager` the operations.
--
-- `NodeStore` models src/server/ua_nodestore.c and the hash in ua_nodestore_hash.inc: `Table` has the
-- entries and the search, whose fuel is one look at each entry; `Termination` shows that this is
-- enough where the size is prime and an entry is free. The place of an entry stands for the pointer
-- to it, and whether memory is allocated for a larger table is an argument. `Resizing` is about the
-- move of the nodes to another table.
--
-- `Connection` models UA_Connection_completeMessages of src/ua_connection.c: `Assembly` has the loop,
-- with one round of fuel for each byte, and what the call leaves; `Scanning` and `Delivery` relate
-- them to the messages in the bytes.
--
-- `Session` models src/ua_session.c and src/server/ua_session_manager.c in `Manager`, which uses the
-- memory of `Channel` for the pointers to channels, and src/server/ua_services_session.c in
-- `Services`.
--
-- `Worker` models the list of repeated jobs of src/server/ua_server_worker.c, in the build without
-- UA_MULTITHREADING: `Jobs` has the operations, whose loop has fuel for two runs of each entry;
-- `Progress` shows that this is enough where the intervals are positive.
--
-- `Subscription` models src/server/ua_subscription.c in `Items` (the queues) and `Notifications` (the
-- messages), src/server/ua_subscription_manager.c in `Manager`, and Service_Publish and
-- Service_Republish of src/server/ua_services_subscription.c in `Services` and `Retransmission`;
-- `Lifetime` has the creation, change and deletion of a subscription with its repeated job, over
-- `Worker`. What is sampled, by which bytes samples are compared and the time come with the call; a
-- requested interval is a whole number of milliseconds, and not the double of the source.
--
-- `Message` models src/server/ua_server_binary.c: `Processing` the loop of
-- UA_Server_processBinaryMessage over functions for the types of messages, with one round of fuel for
-- each byte, `Requests` processMSG and processCLO, over the memory of `Channel` and `Session`, and
-- `Connecting` processHEL and processOPN, and all of them together. The decoding of requests is
-- generated, and comes with the services as an argument.
--
-- `View` models src/server/ua_services_view.c over the store of `NodeStore`: `Subtypes` the search for
-- the subtypes of a reference type, with one round of fuel for each type it visits, `Description` the
-- choice and the description of references, `Browse` and `Points` the browsing of one node and the
-- continuation points of src/ua_session.h, `Services` the loops of Browse and BrowseNext, and
-- `Translate` the walk along a browse path. `Hierarchy` has the subtypes as the search follows them,
-- `Standard` as OPC UA part 3 defines them, and `Client` a client that reads all pages.
--
-- `Management` models the references and the deletion of nodes of
-- src/server/ua_services_nodemanagement.c, and UA_Server_editNode of
-- src/server/ua_services_attribute.c, which changes a node in its entry: `References` and `Nodes` have
-- the operations, and `Services` the loops over the items of a request. The outcomes of allocations come with
-- the call, for each place of an array.
--
-- A byte string is a list of numbers, a machine word a number with its bound or its wrap-around
-- written out. Sizes (size_t) are not wrapped where memory bounds them. What UA_malloc and the clock
-- return are arguments.
--
-- Not modelled: adding nodes and the attribute services, which need the members of each class of
-- node; variants, data values and extension objects with their encoding, which rest on the generated
-- tables of types; the method and discovery services; the client, most of which is network calls;
-- external namespaces, which another program serves; the worker threads and the concurrent node
-- store, which rest on liburcu; the network layers and the generated tables themselves, whose decoding
-- comes as an argument.
pub mod Common
pub mod Status
pub mod Types
pub mod Binary
pub mod Channel
pub mod NodeStore
pub mod Connection
pub mod Session
pub mod Worker
pub mod Subscription
pub mod Message
pub mod View
pub mod Management
