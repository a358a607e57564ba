-- ===== src/Creation/Client.antt =====
-- `rmw_create_client` and `rmw_create_service` of rmw_fastrtps_cpp/src/rmw_client.cpp and
-- src/rmw_service.cpp, which create the same objects, the service with the topics swapped, and
-- `__rmw_destroy_client` of rmw_fastrtps_shared_cpp/src/rmw_client.cpp. The reader's topic is the
-- first of the two that are created. Type supports are shared pointers, which free themselves.
use rmw_fastrtps.Prelude.{
  ℕ, ◌+◌, ◌-◌, Bool, true, false, ◌||◌, ◌&&◌, not, Option, none, some, eqb, if◌then◌else◌,
}
use rmw_fastrtps.Rmw.{RmwRet, ret_error}
use rmw_fastrtps.Text.{Text, is_empty}
use rmw_fastrtps.Names.{
  ros_service_requester_prefix, ros_service_response_prefix, request_suffix, reply_suffix,
  create_topic_name,
}
use rmw_fastrtps.Participant.{TopicMap, find_or_create_topic, remove_topic_and_type}
use rmw_fastrtps.Creation.{done, failed, crashed, Step, ◌⟫◌, check, scope_exit}

-- What a creation acquires, and its pointers: the custom information, its members, and the handle
-- with its name.
pub data Kind : Type 0 where
  custom_info listener pub_listener reader_topic writer_topic data_reader data_writer : Kind
  handle service_name : Kind

abbrev pub number_of : Kind → ℕ
number_of custom_info = 0
number_of listener = 1
number_of pub_listener = 2
number_of reader_topic = 3
number_of writer_topic = 4
number_of data_reader = 5
number_of data_writer = 6
number_of handle = 7
number_of service_name = 8

abbrev pub same_kind : Kind → Kind → Bool
same_kind k j = eqb (number_of k) (number_of j)

-- The topics of the participant, how many objects of each kind exist, and which of the creation's
-- pointers are set. Of the two topics, the pointers to them are counted: the objects are shared, and
-- the topics of the participant tell their uses.
pub record Entities : Type 0 where
  pub topics : TopicMap
  pub objects : Kind → ℕ
  pub is_set : Kind → Bool

-- What the allocator, Fast DDS and the graph cache answer. The type of a request or of a response is
-- found, or its support is allocated. The last two are the answers of Fast DDS to the deletions of the
-- reader and the writer in the scope exits.
pub record Answers : Type 0 where
  pub request_type_compatible : Bool
  pub response_type_compatible : Bool
  pub request_type_found : Bool
  pub response_type_found : Bool
  pub request_support_allocated : Bool
  pub response_support_allocated : Bool
  pub request_type_registered : Bool
  pub response_type_registered : Bool
  pub allocated : Kind → Bool
  pub create_topic : Text → Bool
  pub topic_qos_set : Bool
  pub reader_qos_set : Bool
  pub writer_qos_set : Bool
  pub added_to_graph : Bool
  pub reader_deleted : Bool
  pub writer_deleted : Bool

abbrev pub acquire : Kind → Entities → Entities
acquire k s = record s {
  objects = λ j. if same_kind k j then s.objects j + 1 else s.objects j;
  is_set = λ j. if same_kind k j then true else s.is_set j;
}

-- A deletion; that of a null pointer does nothing.
unfoldable pub release : Kind → Entities → Entities
release k s =
    if s.is_set k
    then record s {
      objects = λ j. if same_kind k j then s.objects j - 1 else s.objects j;
      is_set = λ j. if same_kind k j then false else s.is_set j;
    }
    else s

-- A deletion that Fast DDS may refuse, by its answer, which the code does not look at.
unfoldable pub delete_answered : Bool → Kind → Entities → Entities
unfolding release
delete_answered deleted k s = if deleted then release k s else s

-- `new` or a creation by Fast DDS, where a null pointer makes the code return.
unfoldable pub allocate : Answers → Kind → Step Entities
allocate a k s = if a.allocated k then (done, acquire k s) else (failed, s)

unfoldable pub use_topic : Answers → Kind → Text → Step Entities
unfolding find_or_create_topic
use_topic a k name s = elim (find_or_create_topic a.create_topic name none s.topics) [
  | none ↦ (crashed, s)
  | some topics ↦ (done, acquire k (record s { topics = topics }))
]

unfoldable pub drop_topic : Kind → Text → Entities → Entities
unfolding remove_topic_and_type release
drop_topic k name s =
    let topic = if s.is_set k then some name else none in
    release k (record s { topics = remove_topic_and_type none topic s.topics })

module _ (a : Answers) (reader_topic_name writer_topic_name : Text) where
  -- The topic of the responses, which a client reads and a service writes, is dropped first.
  abbrev pub drop_topics : Bool → Entities → Entities
  drop_topics true s =
      drop_topic writer_topic writer_topic_name (drop_topic reader_topic reader_topic_name s)
  drop_topics false s =
      drop_topic reader_topic reader_topic_name (drop_topic writer_topic writer_topic_name s)

  unfoldable pub cleanup_info : Bool → Entities → Entities
  unfolding drop_topic release
  cleanup_info is_client s =
      release custom_info (release listener (release pub_listener (drop_topics is_client s)))

  unfoldable pub free_handle : Entities → Entities
  unfolding release
  free_handle s = release handle (release service_name s)

  -- From the allocation of the handle to the update of the graph.
  unfoldable pub create_handle : Step Entities
  unfolding allocate check scope_exit ◌⟫◌ free_handle
  create_handle =
      allocate a handle ⟫ scope_exit free_handle (allocate a service_name ⟫ check a.added_to_graph)

  -- From the QoS of the data writer on.
  unfoldable pub create_writer : Step Entities
  unfolding create_handle delete_answered
  create_writer =
      check a.writer_qos_set
      ⟫ (allocate a data_writer
          ⟫ scope_exit (delete_answered a.writer_deleted data_writer) create_handle)

  -- From the QoS of the data reader on.
  unfoldable pub create_reader : Step Entities
  unfolding create_writer delete_answered
  create_reader =
      check a.reader_qos_set
      ⟫ (allocate a data_reader
          ⟫ scope_exit (delete_answered a.reader_deleted data_reader) create_writer)

  -- Behind the allocation of the custom information.
  unfoldable pub fill_info : Step Entities
  unfolding create_reader use_topic
  fill_info =
      check (a.request_type_found || a.request_support_allocated)
      ⟫ (check (a.response_type_found || a.response_support_allocated)
          ⟫ (check a.request_type_registered
              ⟫ (check a.response_type_registered
                  ⟫ (allocate a listener
                      ⟫ (allocate a pub_listener
                          ⟫ (check a.topic_qos_set
                              ⟫ (use_topic a reader_topic reader_topic_name
                                  ⟫ (use_topic a writer_topic writer_topic_name
                                      ⟫ create_reader))))))))

  -- Behind the checks of the arguments.
  unfoldable pub create_endpoints : Bool → Step Entities
  unfolding fill_info cleanup_info
  create_endpoints is_client =
      check a.request_type_compatible
      ⟫ (check a.response_type_compatible
          ⟫ (allocate a custom_info ⟫ scope_exit (cleanup_info is_client) fill_info))

-- The arguments of a creation that may be null: the identifier of the node, whether the type supports
-- are given, the name of the service, and the QoS as far as its conventions of names.
pub record Arguments : Type 0 where
  pub node : Option ℕ
  pub type_supports_given : Bool
  pub name : Option Text
  pub avoid_ros_namespace_conventions : Option Bool

-- What is not under the repository: the bounded string, the validation of a full topic name (`none`
-- where its code is not `RMW_RET_OK`), the validity of the adapted QoS, and whether a type support
-- handle is found.
pub record Environment : Type 0 where
  pub string_255 : Text → Text
  pub validate_full_topic_name : Text → Option Bool
  pub qos_valid : Bool
  pub handle_found : Bool

abbrev pub is_true : Option Bool → Bool
is_true none = false
is_true (some b) = b

module _ (e : Environment) (identifier : ℕ) where
  -- The checks on the name and what follows, and all of them: the conventions and the name.
  abbrev pub check_name : Text → Bool → Option (Bool × Text)
  check_name name avoid =
      if is_empty name
      then none
      else if not avoid && not (is_true (e.validate_full_topic_name name))
      then none
      else if not e.qos_valid
      then none
      else if not e.handle_found
      then none
      else some (avoid, name)

  unfoldable pub check_arguments : Arguments → Option (Bool × Text)
  unfolding is_empty
  check_arguments args = elim args.node [
    | none ↦ none
    | some node ↦
        if not (eqb node identifier)
        then none
        else if not args.type_supports_given
        then none
        else elim args.name [
          | none ↦ none
          | some name ↦ elim args.avoid_ros_namespace_conventions [
            | none ↦ none
            | some avoid ↦ check_name name avoid
          ]
        ]
  ]

  abbrev pub request_topic_name : Bool → Text → Text
  request_topic_name avoid name =
      create_topic_name e.string_255 avoid (some ros_service_requester_prefix) name
        (some request_suffix)

  abbrev pub response_topic_name : Bool → Text → Text
  response_topic_name avoid name =
      create_topic_name e.string_255 avoid (some ros_service_response_prefix) name
        (some reply_suffix)

  -- A client reads responses and writes requests, a service the other way round.
  unfoldable pub create_client : Answers → Arguments → Step Entities
  unfolding check_arguments create_endpoints
  create_client a args s = elim (check_arguments args) [
    | none ↦ (failed, s)
    | some (avoid, name) ↦
        create_endpoints a (response_topic_name avoid name) (request_topic_name avoid name) true s
  ]

  unfoldable pub create_service : Answers → Arguments → Step Entities
  unfolding check_arguments create_endpoints
  create_service a args s = elim (check_arguments args) [
    | none ↦ (failed, s)
    | some (avoid, name) ↦
        create_endpoints a (request_topic_name avoid name) (response_topic_name avoid name) false s
  ]

-- What the destruction's calls answer: the removal from the graph, and whether Fast DDS deletes the
-- reader and the writer.
pub record Deletions : Type 0 where
  pub removed_from_graph : RmwRet
  pub reader_deleted : Bool
  pub writer_deleted : Bool

abbrev pub delete_entity : Bool → Kind → RmwRet → Entities → RmwRet × Entities
delete_entity true k final_ret s = (final_ret, release k s)
delete_entity false k final_ret s = (ret_error, s)

-- The client's members, its handle and its name.
abbrev pub free_client : Text → Text → Entities → Entities
free_client reader_topic_name writer_topic_name s = release handle (
    release service_name (
      release custom_info (
        drop_topic reader_topic reader_topic_name
          (drop_topic writer_topic writer_topic_name (release pub_listener s)))))

unfoldable pub destroy_client : Deletions → Text → Text → Entities → RmwRet × Entities
unfolding release drop_topic
destroy_client d reader_topic_name writer_topic_name s =
    let (ret, s1) = delete_entity d.reader_deleted data_reader d.removed_from_graph s in
    let (final_ret, s2) = delete_entity d.writer_deleted data_writer ret (release listener s1) in
    (final_ret, free_client reader_topic_name writer_topic_name s2)
