-- ===== src/Creation/TopicSteps.antt =====
-- The topics that a creation uses, and drops where it fails (rmw_fastrtps_cpp/src/rmw_client.cpp,
-- src/rmw_service.cpp).
use rmw_fastrtps.Prelude.{
  ◌+◌, ◌-◌, ◌^◌, ◌<◌, ◌≡◌, refl, subst, ◌∙◌, Bool, true, false, ◌&&◌, none, some, List, [], ◌∷◌,
  arith, if◌then◌else◌, ◌==◌, nat_eq, list_eq, inl, inr, Option-cases,
}
use rmw_fastrtps.Text.{Text}
use rmw_fastrtps.Participant.{TopicMap, find_or_create_topic, remove_topic_and_type}
use rmw_fastrtps.Participant.Topics.{
  IsUsed, uses, one_if, IsUseResult, IsOneMore, find_or_create_topic-IsUseResult,
  delete_topic-IsOneLess,
}
use rmw_fastrtps.Creation.Triples.{Triple}
use rmw_fastrtps.Creation.Client.{
  Kind, reader_topic, writer_topic, Entities, Answers, acquire, use_topic, drop_topic,
}
use rmw_fastrtps.Creation.Owned.{
  IsOwning, IsApart, acquired_counted, acquired_made, acquired_pending, released_count,
  released_flag, released_pending, release_topics,
}

-- What the removal of a topic that may be null makes of the map.
pub record IsDropped (b : Bool) (name : Text) (topics t : TopicMap) : Type 0 where
  pub used : IsUsed t
  pub less : (n : Text) → uses n t ≡ uses n topics - one_if (b && (name == n))

remove-IsDropped :
    (b : Bool) (name : Text) (topics : TopicMap)
    → IsUsed topics
    → IsDropped b name topics (remove_topic_and_type none (if b then some name else none) topics)
unfolding remove_topic_and_type
remove-IsDropped true name topics used =
    let d = delete_topic-IsOneLess name none topics used in record { used = d.used; less = d.less }
remove-IsDropped false name topics used = record { used = used; less = λ n. omega arith }

module _ (a : Answers) (reader_topic_name writer_topic_name : Text) (start : Entities) where
  abbrev IsOurs : List Kind → List Kind → Entities → Type 0
  IsOurs = IsOwning a reader_topic_name writer_topic_name start

  abbrev without : Kind → Text → Entities → Entities
  without k name s = record s {
    topics = remove_topic_and_type none (if s.is_set k then some name else none) s.topics;
  }

  pub drop_reader-IsOwning :
      (pending : List Kind) (s : Entities)
      → IsOurs [] pending s
      → IsOurs [] (reader_topic ∷ pending) (drop_topic reader_topic reader_topic_name s)
  unfolding drop_topic
  drop_reader-IsOwning pending s h =
      let t = without reader_topic reader_topic_name s in
      let d = remove-IsDropped (s.is_set reader_topic) reader_topic_name s.topics h.used in
      let flag = released_flag a reader_topic_name writer_topic_name start reader_topic in
      record {
        counted = λ j.
            released_count a reader_topic_name writer_topic_name start reader_topic j t
              (h.counted j);
        used =
            rw (release_topics a reader_topic_name writer_topic_name start reader_topic t) d.used;
        tallied = λ n.
            rw
              (
                release_topics a reader_topic_name writer_topic_name start reader_topic t,
                flag reader_topic t,
                flag writer_topic t,
              )
              (ground (arith, d.less n, h.tallied n));
        all_made = tt;
        all_pending = (
          flag reader_topic t ∙ ground arith,
          released_pending a reader_topic_name writer_topic_name start reader_topic t pending
              h.all_pending,
        );
      }

  pub drop_writer-IsOwning :
      (pending : List Kind) (s : Entities)
      → IsOurs [] pending s
      → IsOurs [] (writer_topic ∷ pending) (drop_topic writer_topic writer_topic_name s)
  unfolding drop_topic
  drop_writer-IsOwning pending s h =
      let t = without writer_topic writer_topic_name s in
      let d = remove-IsDropped (s.is_set writer_topic) writer_topic_name s.topics h.used in
      let flag = released_flag a reader_topic_name writer_topic_name start writer_topic in
      record {
        counted = λ j.
            released_count a reader_topic_name writer_topic_name start writer_topic j t
              (h.counted j);
        used =
            rw (release_topics a reader_topic_name writer_topic_name start writer_topic t) d.used;
        tallied = λ n.
            rw
              (
                release_topics a reader_topic_name writer_topic_name start writer_topic t,
                flag reader_topic t,
                flag writer_topic t,
              )
              (ground (arith, d.less n, h.tallied n));
        all_made = tt;
        all_pending = (
          flag writer_topic t ∙ ground arith,
          released_pending a reader_topic_name writer_topic_name start writer_topic t pending
              h.all_pending,
        );
      }

  -- Where the code crashes, Fast DDS has not created a topic.
  abbrev pub Crash : Type 0
  Crash = (name : Text) × (a.create_topic name ≡ false)

  module _ (bound : (name : Text) → uses name start.topics + 2 < 2 ^ 64) where
    used_reader-IsOwning :
        (made pending : List Kind) (s : Entities) (t : TopicMap)
        → IsApart a reader_topic_name writer_topic_name start reader_topic pending
        → IsOurs made (reader_topic ∷ pending) s
        → IsOneMore reader_topic_name s.topics t
        → IsOurs (reader_topic ∷ made) pending (acquire reader_topic (record s { topics = t }))
    used_reader-IsOwning made pending s t apart h m =
        let u = record s { topics = t } in
        record {
          counted = λ j.
              acquired_counted a reader_topic_name writer_topic_name start reader_topic u h.counted
                h.all_pending.0 j;
          used = m.used;
          tallied = λ n. ground (arith, m.more n, h.tallied n, h.all_pending.0);
          all_made = (
            refl,
            acquired_made a reader_topic_name writer_topic_name start reader_topic u made
                h.all_made,
          );
          all_pending =
              acquired_pending a reader_topic_name writer_topic_name start reader_topic u pending
                apart h.all_pending.1;
        }

    pub use_reader-Triple :
        {F : Entities → Type 0} {made pending : List Kind}
        → IsApart a reader_topic_name writer_topic_name start reader_topic pending
        → Triple Crash
            (IsOurs made (reader_topic ∷ pending))
            (use_topic a reader_topic reader_topic_name)
            (IsOurs (reader_topic ∷ made) pending)
            F
    unfolding use_topic
    use_reader-Triple {F} {made} {pending} apart = record {
      ends = λ s h.
          let room : uses reader_topic_name s.topics + 1 < 2 ^ 64 =
            ground (arith, h.tallied reader_topic_name, bound reader_topic_name, h.all_pending.0) in
          let made_one =
            find_or_create_topic-IsUseResult a.create_topic reader_topic_name none s.topics h.used
              room in
          elim (Option-cases
            (find_or_create_topic a.create_topic reader_topic_name none s.topics)) [
              | inl e ↦
                  rw (use_topic, e)
                    (
                      reader_topic_name,
                      subst (IsUseResult a.create_topic reader_topic_name s.topics) e made_one,
                    )
              | inr (t, e) ↦
                  rw (use_topic, e)
                    (used_reader-IsOwning made pending s t apart h
                      (subst (IsUseResult a.create_topic reader_topic_name s.topics) e made_one))
            ];
    }

    used_writer-IsOwning :
        (made pending : List Kind) (s : Entities) (t : TopicMap)
        → IsApart a reader_topic_name writer_topic_name start writer_topic pending
        → IsOurs made (writer_topic ∷ pending) s
        → IsOneMore writer_topic_name s.topics t
        → IsOurs (writer_topic ∷ made) pending (acquire writer_topic (record s { topics = t }))
    used_writer-IsOwning made pending s t apart h m =
        let u = record s { topics = t } in
        record {
          counted = λ j.
              acquired_counted a reader_topic_name writer_topic_name start writer_topic u h.counted
                h.all_pending.0 j;
          used = m.used;
          tallied = λ n. ground (arith, m.more n, h.tallied n, h.all_pending.0);
          all_made = (
            refl,
            acquired_made a reader_topic_name writer_topic_name start writer_topic u made
                h.all_made,
          );
          all_pending =
              acquired_pending a reader_topic_name writer_topic_name start writer_topic u pending
                apart h.all_pending.1;
        }

    pub use_writer-Triple :
        {F : Entities → Type 0} {made pending : List Kind}
        → IsApart a reader_topic_name writer_topic_name start writer_topic pending
        → Triple Crash
            (IsOurs made (writer_topic ∷ pending))
            (use_topic a writer_topic writer_topic_name)
            (IsOurs (writer_topic ∷ made) pending)
            F
    unfolding use_topic
    use_writer-Triple {F} {made} {pending} apart = record {
      ends = λ s h.
          let room : uses writer_topic_name s.topics + 1 < 2 ^ 64 =
            ground (arith, h.tallied writer_topic_name, bound writer_topic_name, h.all_pending.0) in
          let made_one =
            find_or_create_topic-IsUseResult a.create_topic writer_topic_name none s.topics h.used
              room in
          elim (Option-cases
            (find_or_create_topic a.create_topic writer_topic_name none s.topics)) [
              | inl e ↦
                  rw (use_topic, e)
                    (
                      writer_topic_name,
                      subst (IsUseResult a.create_topic writer_topic_name s.topics) e made_one,
                    )
              | inr (t, e) ↦
                  rw (use_topic, e)
                    (used_writer-IsOwning made pending s t apart h
                      (subst (IsUseResult a.create_topic writer_topic_name s.topics) e made_one))
            ];
    }
