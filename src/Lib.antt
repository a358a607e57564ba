-- ===== src/Lib.antt =====
-- A model of rmw_fastrtps, the ROS middleware over Fast DDS, and what is proved of it.
--
-- The repository has three packages. rmw_fastrtps_shared_cpp holds the core: names, gids, qualities
-- of service, events, requests and responses. rmw_fastrtps_cpp and rmw_fastrtps_dynamic_cpp build
-- the interface of rmw on it, for static and for introspected types. The parts modelled are, file by
-- file:
--   Prelude, Text   shared helpers: tests, lists, equality, association lists, text as bytes.
--   Rmw             data of the headers of rmw and Fast DDS that the code passes around.
--   Names           rmw_fastrtps_shared_cpp/src/namespace_prefix.cpp, src/demangle.cpp and
--                   include/rmw_fastrtps_shared_cpp/names.hpp: `_resolve_prefix`,
--                   `_demangle_service_from_topic`, `_create_topic_name` and the others, under their
--                   names without the leading underscore.
--   Gid             include/rmw_fastrtps_shared_cpp/guid_utils.hpp, src/create_rmw_gid.cpp,
--                   src/rmw_compare_gids_equal.cpp, and the gid in user data of src/qos.cpp.
--   Service         include/rmw_fastrtps_shared_cpp/custom_service_info.hpp (Listener),
--                   src/rmw_request.cpp (Request) and src/rmw_response.cpp (Response).
--   Qos             src/qos.cpp, include/rmw_fastrtps_shared_cpp/qos.hpp, src/time_utils.cpp;
--                   Qos.Data has data readers and writers,
--                   Qos.Backends the buffer backends in their user data.
--   Event           src/rmw_event.cpp, src/custom_publisher_info.cpp (Publisher) and
--                   src/custom_subscriber_info.cpp (Subscription).
--   Registry        rmw_fastrtps_cpp/src/buffer_endpoint_registry.cpp.
--   TypeSupportRegistry
--                   rmw_fastrtps_dynamic_cpp/src/type_support_registry.cpp: one of the three maps,
--                   with the type supports that are alive.
--   SerializedSize  rmw_fastrtps_dynamic_cpp/src/TypeSupport_impl.hpp: `getEstimatedSerializedSize`
--                   (Estimate) and `calculateMaxSerializedSize` (Maximum), and the sizes that the
--                   constructor of src/MessageTypeSupport_impl.hpp keeps (Support); Room describes
--                   the size of a type without flags and wrap-around.
--   WaitSet         rmw_fastrtps_shared_cpp/src/rmw_wait.cpp: `has_triggered_condition` and the
--                   checks of `__rmw_wait` (Check), `__rmw_wait` itself (Wait), with
--                   src/rmw_trigger_guard_condition.cpp; Laws has what is relied on of Fast DDS.
--   Take            rmw_fastrtps_shared_cpp/src/rmw_take.cpp: `_take`, `_take_dynamic_message` and
--                   `_take_serialized_message` (Message), `_take_sequence` (Sequence), loaned messages
--                   and `LoanManager` (Loan); Laws has what is relied on of a reader.
--   Publish         src/rmw_publish.cpp, and `serialize`, `deserialize` and `calculate_serialized_size` of
--                   src/TypeSupport_impl.cpp.
--   Participant     src/custom_participant_info.cpp and parts of src/utils.cpp: the topics in use.
--   Creation        rmw_fastrtps_cpp/src/rmw_client.cpp and src/rmw_service.cpp: `rmw_create_client` and
--                   `rmw_create_service`, and `__rmw_destroy_client` of rmw_fastrtps_shared_cpp/src/
--                   rmw_client.cpp (Client); Triples has the rules for steps with scope exits, Owned
--                   what a creation owns at each step.
--   Client          include/rmw_fastrtps_shared_cpp/custom_client_info.hpp (the listeners; Unread has
--                   the callback for new responses, Told what it is told) and
--                   src/rmw_service_server_is_available.cpp.
--   Context         src/init_rmw_context_impl.cpp of rmw_fastrtps_shared_cpp and of
--                   rmw_fastrtps_cpp: the reference count of a context, and whether its pointers are
--                   null, to objects that exist, or left to deleted ones.
--
-- The parts meet in the service: the client writes its reader's guid into the request, the service
-- pairs it with the writer's in its listener and puts it into the request's header as bytes (Gid);
-- the response goes back to that reader once the listener of the response writer has seen it, and
-- the client takes it by the guid.
--
-- A client knows of its server by the counts that its two listeners keep (Client), and waits for
-- events and responses with a wait set, whose guard conditions those of the events are (WaitSet,
-- Event). The sizes that a type support announces (SerializedSize) are kept with it for as long as
-- its registry counts a handle (TypeSupportRegistry). A client or a service is created with the topics
-- that the participant counts the uses of (Creation, Participant), under the names that Names makes.
--
-- State is passed on explicitly: the listener of a service or a client, the events of a publisher
-- or a subscription, one side of the registry of endpoints, a map of type supports with the
-- objects alive, the state of Fast DDS that a wait acts on. A function that the code runs under a
-- mutex is one step; what it does before it locks the mutex is another (Client.Unread). What other
-- threads do while `wait_for_subscription` sleeps is a list of calls; every list is allowed, so a
-- theorem about it holds for every interleaving. Words of 32 and 64 bits are their bit patterns,
-- with `% 2 ^ 32` or `% 2 ^ 64` written where the code wraps. A null pointer is `none`. Every loop
-- is over a list, over the members of a type, or of a number of rounds that is known before it,
-- but for the loops that take until a sample is accepted (Take): they run on fuel, and more fuel
-- than samples in the reader's queue is enough.
--
-- What is not under the repository is a parameter: the writes and reads of Fast DDS, its conditions
-- and wait sets (WaitSet.Dds), its data readers (Take.DataReader, Take.Loan.LoanReader), the bounded
-- vector of the loan manager, the resize of a serialized message, the unread count of a reader
-- (Client.Unread.Reader), the type support, the serialization of messages (Publish.Codec),
-- `find_and_replace` of rcpputils, the bounded string of Fast DDS, the durations of rmw and Fast DDS
-- (Qos.Durations), the encodings of type hashes and the graph cache of rmw_dds_common,
-- `parse_key_value` of rmw, `Cdr::alignment` of Fast CDR, and the accessors that introspection data
-- points at (SerializedSize.Access). Theorems that rely on their behaviour have it as a hypothesis
-- with a name.
--
-- A creation is a sequence of steps that may fail, on a state that counts the objects of each kind;
-- what the allocator, Fast DDS and the graph cache answer is given to it (Creation.Client.Answers), the
-- answers to the deletions of the reader and the writer in the scope exits included.
--
-- Not modelled: the start of participants, the creation of publishers and subscriptions, the entities
-- of rmw_fastrtps_dynamic_cpp, serialization itself, the graph queries, logging,
-- and the wrappers in the two implementations; most of them are calls of Fast DDS. The registry of
-- types that Fast DDS keeps is not tracked.
mod Prelude
pub mod Text
pub mod Rmw
pub mod Names
pub mod Gid
pub mod Service
pub mod Qos
pub mod Event
pub mod Registry
pub mod TypeSupportRegistry
pub mod SerializedSize
pub mod Creation
pub mod Participant
pub mod Publish
pub mod Take
pub mod WaitSet
pub mod Client
pub mod Context
