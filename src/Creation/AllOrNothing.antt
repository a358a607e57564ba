-- ===== src/Creation/AllOrNothing.antt =====
-- What `rmw_create_client`, `rmw_create_service` and `__rmw_destroy_client` leave of objects and of
-- uses of topics (rmw_fastrtps_cpp/src/rmw_client.cpp, src/rmw_service.cpp,
-- rmw_fastrtps_shared_cpp/src/rmw_client.cpp).
use rmw_fastrtps.Prelude.{
  ℕ, ◌+◌, ◌^◌, ◌<◌, ◌≡◌, refl, Bool, true, false, ◌==◌, nat_eq, list_eq, Option, none, some, [],
  All, arith, inl, inr, Option-cases,
}
use rmw_fastrtps.Text.{Text}
use rmw_fastrtps.Participant.Topics.{IsUsed, uses, one_if}
use rmw_fastrtps.Creation.{Outcome, done, failed, crashed}
use rmw_fastrtps.Creation.Triples.{IsEnd}
use rmw_fastrtps.Creation.Client.{
  Kind, custom_info, listener, pub_listener, reader_topic, writer_topic, data_reader, data_writer,
  handle, service_name, Entities, Answers, Arguments, Environment, create_endpoints,
  check_arguments, request_topic_name, response_topic_name, create_client, create_service,
}
use rmw_fastrtps.Creation.Owned.{IsOwning, all_kinds}
use rmw_fastrtps.Creation.TopicSteps.{Crash}
use rmw_fastrtps.Creation.Restored.{made_kinds, Deleted, created}

-- Nothing is set yet, every topic in the map is used, and none so often that its count could wrap.
pub record IsStart (start : Entities) : Type 0 where
  pub unset : (k : Kind) → start.is_set k ≡ false
  pub used : IsUsed start.topics
  pub bound : (name : Text) → uses name start.topics + 2 < 2 ^ 64

pub record IsSame (start s : Entities) : Type 0 where
  pub objects : (k : Kind) → s.objects k ≡ start.objects k
  pub topics : (name : Text) → uses name s.topics ≡ uses name start.topics

-- One object of each kind and one use of each topic more.
pub record IsMore (rn wn : Text) (start s : Entities) : Type 0 where
  pub objects : (k : Kind) → s.objects k ≡ start.objects k + 1
  pub topics :
      (name : Text)
      → uses name s.topics ≡ uses name start.topics + one_if (rn == name) + one_if (wn == name)

module _ (a : Answers) (rn wn : Text) (start : Entities) (h : IsStart start) where
  abbrev pub IsAllOrNothing : Outcome × Entities → Type 0
  IsAllOrNothing (done, s) = IsMore rn wn start s
  IsAllOrNothing (failed, s) = IsSame start s
  IsAllOrNothing (crashed, s) = (name : Text) × (a.create_topic name ≡ false)

  pub start-IsOwning : IsOwning a rn wn start [] all_kinds start
  start-IsOwning = record {
    counted = λ k. ground (arith, h.unset k);
    used = h.used;
    tallied = λ name. ground (arith, h.unset reader_topic, h.unset writer_topic);
    all_made = tt;
    all_pending = (
      h.unset custom_info,
      (
        h.unset listener,
        (
          h.unset pub_listener,
          (
            h.unset reader_topic,
            (
              h.unset writer_topic,
              (
                h.unset data_reader,
                (h.unset data_writer, (h.unset handle, (h.unset service_name, tt))),
              ),
            ),
          ),
        ),
      ),
    );
  }

  kinds_unset :
      (s : Entities) → All (λ k. s.is_set k ≡ false) all_kinds → (k : Kind) → s.is_set k ≡ false
  kinds_unset s (a0, (a1, (a2, (a3, (a4, (a5, (a6, (a7, (a8, u))))))))) k =
      elim k as (λ k. s.is_set k ≡ false) [
        | custom_info ↦ a0
        | listener ↦ a1
        | pub_listener ↦ a2
        | reader_topic ↦ a3
        | writer_topic ↦ a4
        | data_reader ↦ a5
        | data_writer ↦ a6
        | handle ↦ a7
        | service_name ↦ a8
      ]

  kinds_set :
      (s : Entities) → All (λ k. s.is_set k ≡ true) made_kinds → (k : Kind) → s.is_set k ≡ true
  kinds_set s (a8, (a7, (a6, (a5, (a4, (a3, (a2, (a1, (a0, u))))))))) k =
      elim k as (λ k. s.is_set k ≡ true) [
        | custom_info ↦ a0
        | listener ↦ a1
        | pub_listener ↦ a2
        | reader_topic ↦ a3
        | writer_topic ↦ a4
        | data_reader ↦ a5
        | data_writer ↦ a6
        | handle ↦ a7
        | service_name ↦ a8
      ]

  pub owning-IsSame : (s : Entities) → IsOwning a rn wn start [] all_kinds s → IsSame start s
  owning-IsSame s o =
      let off = kinds_unset s o.all_pending in
      record {
        objects = λ k. ground (arith, o.counted k, off k);
        topics = λ name. ground (arith, o.tallied name, off reader_topic, off writer_topic);
      }

  owning-IsMore : (s : Entities) → IsOwning a rn wn start made_kinds [] s → IsMore rn wn start s
  owning-IsMore s o =
      let on = kinds_set s o.all_made in
      record {
        objects = λ k. ground (arith, o.counted k, on k);
        topics = λ name. ground (arith, o.tallied name, on reader_topic, on writer_topic);
      }

  end-IsAllOrNothing :
      (t : Outcome × Entities)
      → IsEnd
          (Crash a rn wn start)
          (IsOwning a rn wn start made_kinds [])
          (Deleted a rn wn start h.bound all_kinds)
          t
      → a.reader_deleted ≡ true
      → a.writer_deleted ≡ true
      → IsAllOrNothing t
  end-IsAllOrNothing (done, s) e r w = owning-IsMore s e
  end-IsAllOrNothing (failed, s) e r w = owning-IsSame s (e r w)
  end-IsAllOrNothing (crashed, s) e r w = e

  create_endpoints-IsAllOrNothing :
      (is_client : Bool)
      → a.reader_deleted ≡ true
      → a.writer_deleted ≡ true
      → IsAllOrNothing (create_endpoints a rn wn is_client start)
  create_endpoints-IsAllOrNothing is_client r w =
      end-IsAllOrNothing (create_endpoints a rn wn is_client start)
        ((created a rn wn start h.bound is_client).ends start start-IsOwning) r w

-- The result by the checked arguments, where the two functions are the names of the topics.
abbrev pub IsCreated :
    Answers
    → (Bool → Text → Text)
    → (Bool → Text → Text)
    → (start : Entities) → IsStart start
    → Option (Bool × Text)
    → Outcome × Entities
    → Type 0
IsCreated a reader writer start h none t = t ≡ (failed, start)
IsCreated a reader writer start h (some (avoid, name)) t =
    IsAllOrNothing a (reader avoid name) (writer avoid name) start h t

-- The creation of a client or a service is all or nothing, whatever else the allocator, Fast DDS and
-- the graph cache answer, provided that Fast DDS deletes the reader and the writer where a scope exit
-- asks for it, for a start at which none of its pointers is set, every topic in the map is used, and
-- no use count is near 2 ^ 64. If an argument is refused nothing changes. Otherwise, either
-- it succeeds and there is one object of each kind more, and one use more of the topics of its reader
-- and its writer; or it returns null and there are as many objects of each kind, and uses of each
-- topic, as before; or it crashes, and there is a topic that Fast DDS does not create.
pub create-IsCreated :
    (e : Environment) (identifier : ℕ) (a : Answers) (args : Arguments) (start : Entities)
    (h : IsStart start)
    → a.reader_deleted ≡ true
    → a.writer_deleted ≡ true
    → IsCreated a
        (response_topic_name e identifier)
        (request_topic_name e identifier)
        start
        h
        (check_arguments e identifier args)
        (create_client e identifier a args start)
      × IsCreated a
          (request_topic_name e identifier)
          (response_topic_name e identifier)
          start
          h
          (check_arguments e identifier args)
          (create_service e identifier a args start)
unfolding create_client create_service
create-IsCreated e identifier a args start h r w =
    elim (Option-cases (check_arguments e identifier args)) [
      | inl none_checked ↦ rw (create_client, create_service, none_checked) (refl, refl)
      | inr (checked, given) ↦
          rw (create_client, create_service, given)
            (
              create_endpoints-IsAllOrNothing a _ _ start h true r w,
              create_endpoints-IsAllOrNothing a _ _ start h false r w,
            )
    ]
