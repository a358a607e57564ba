-- ===== src/Creation/Tests.antt =====
-- Creations at concrete answers.
use rmw_fastrtps.Prelude.{◌≡◌, refl, Bool, true, false, some, [], ◌∷◌, arith, if◌then◌else◌}
use rmw_fastrtps.Prelude.Assoc.{find, assign}
use rmw_fastrtps.Rmw.{ret_ok}
use rmw_fastrtps.Text.{Text}
use rmw_fastrtps.Creation.{done}
use rmw_fastrtps.Creation.Client.{
  data_writer, same_kind, Entities, Answers, Arguments, Environment, check_arguments,
  request_topic_name, response_topic_name, create_endpoints, create_client, create_service,
  destroy_client,
}
use rmw_fastrtps.Creation.AllOrNothing.{IsStart, IsSame, IsCreated, create-IsCreated}
use rmw_fastrtps.Creation.Destruction.{deleting, destroy-create}

abbrev start : Entities
start = record { topics = []; objects = λ k. 2; is_set = λ k. false }

start-IsStart : IsStart start
unfolding find
start-IsStart = record {
  unset = λ k. refl;
  used = λ name it e. absurd (ground (arith, e));
  bound = λ name. omega arith;
}

-- All but the creation of the data writer succeeds, or all.
abbrev answers : Bool → Answers
answers writer = record {
  request_type_compatible = true;
  response_type_compatible = true;
  request_type_found = false;
  response_type_found = true;
  request_support_allocated = true;
  response_support_allocated = false;
  request_type_registered = true;
  response_type_registered = true;
  allocated = λ k. if same_kind k data_writer then writer else true;
  create_topic = λ name. true;
  topic_qos_set = true;
  reader_qos_set = true;
  writer_qos_set = true;
  added_to_graph = true;
  reader_deleted = true;
  writer_deleted = true;
}

abbrev environment : Environment
environment = record {
  string_255 = λ t. t;
  validate_full_topic_name = λ t. some true;
  qos_valid = true;
  handle_found = true;
}

abbrev arguments : Arguments
arguments = record {
  node = some 1;
  type_supports_given = true;
  name = some (b'/' ∷ b'a' ∷ []);
  avoid_ros_namespace_conventions = some false;
}

create-IsCreated_example :
    IsCreated
      (answers false)
      (response_topic_name environment 1)
      (request_topic_name environment 1)
      start
      start-IsStart
      (check_arguments environment 1 arguments)
      (create_client environment 1 (answers false) arguments start)
    × IsCreated
        (answers false)
        (request_topic_name environment 1)
        (response_topic_name environment 1)
        start
        start-IsStart
        (check_arguments environment 1 arguments)
        (create_service environment 1 (answers false) arguments start)
create-IsCreated_example =
    create-IsCreated environment 1 (answers false) arguments start start-IsStart refl refl

abbrev response : Text
response = b'a' ∷ []

abbrev request : Text
request = b'b' ∷ []

abbrev after : Entities
after = (create_endpoints (answers true) response request true start).1

created_here : create_endpoints (answers true) response request true start ≡ (done, after)
unfolding create_endpoints find assign
created_here = refl

destroy-create_example :
    ((destroy_client (deleting ret_ok) response request after).0 ≡ ret_ok)
    × IsSame start (destroy_client (deleting ret_ok) response request after).1
destroy-create_example =
    destroy-create (answers true) response request start ret_ok after start-IsStart created_here
