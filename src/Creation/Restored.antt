-- ===== src/Creation/Restored.antt =====
-- All or nothing: what `rmw_create_client` and `rmw_create_service` leave
-- (rmw_fastrtps_cpp/src/rmw_client.cpp, src/rmw_service.cpp).
use rmw_fastrtps.Prelude.{
  Bool, true, false, ◌+◌, ◌^◌, ◌<◌, ◌≡◌, refl, false, ◌||◌, nat_eq, list_eq, List, [], ◌∷◌, drop,
}
use rmw_fastrtps.Text.{Text}
use rmw_fastrtps.Participant.Topics.{uses}
use rmw_fastrtps.Creation.Triples.{Triple, then-Triple, check-Triple, scope_exit-Triple}
use rmw_fastrtps.Creation.Client.{
  Kind, custom_info, listener, pub_listener, reader_topic, writer_topic, data_reader, data_writer,
  handle, service_name, same_kind, Entities, Answers, release, delete_answered, drop_topic,
  drop_topics, cleanup_info, free_handle, create_handle, create_writer, create_reader, fill_info,
  create_endpoints,
}
use rmw_fastrtps.Creation.Owned.{
  IsObject, IsOwning, drop-IsOwning, allocate-Triple, release-IsOwning, all_kinds,
}
use rmw_fastrtps.Creation.TopicSteps.{
  drop_reader-IsOwning, drop_writer-IsOwning, Crash, use_reader-Triple, use_writer-Triple,
}

pub object :
    (k : Kind) → same_kind k reader_topic ≡ false → same_kind k writer_topic ≡ false → IsObject k
object k r w = record { no_reader_topic = r; no_writer_topic = w }

abbrev pub made_kinds : List Kind
made_kinds =
    service_name ∷ handle ∷ data_writer ∷ data_reader ∷ writer_topic ∷ reader_topic ∷ pub_listener
    ∷ listener ∷ custom_info ∷ []

module _ (a : Answers) (rn wn : Text) (start : Entities)
    (bound : (name : Text) → uses name start.topics + 2 < 2 ^ 64) where
  abbrev pub Own : List Kind → List Kind → Entities → Type 0
  Own = IsOwning a rn wn start

  abbrev pub Fails : List Kind → Entities → Type 0
  Fails = Own []

  -- The same where Fast DDS deletes the reader and the writer in the scope exits.
  abbrev pub Deleted : List Kind → Entities → Type 0
  Deleted pending s = a.reader_deleted ≡ true → a.writer_deleted ≡ true → Fails pending s

  abbrev pub Crashes : Type 0
  Crashes = Crash a rn wn start

  deleted-IsOwning :
      (deleted : Bool) (k : Kind) (pending : List Kind) (s : Entities)
      → IsObject k
      → deleted ≡ true
      → Fails pending s
      → Fails (k ∷ pending) (delete_answered deleted k s)
  unfolding delete_answered
  deleted-IsOwning true k pending s o e h = release-IsOwning a rn wn start k pending s o h
  deleted-IsOwning false k pending s o e h = cc

  made_handle :
      (made : List Kind)
      → Triple Crashes
          (Own made (handle ∷ service_name ∷ []))
          (create_handle a rn wn)
          (Own (service_name ∷ handle ∷ made) [])
          (Fails (handle ∷ service_name ∷ []))
  unfolding create_handle free_handle
  made_handle made =
      then-Triple Crashes
        (allocate-Triple a rn wn start (object handle refl refl) (refl, tt)
          (drop-IsOwning a rn wn start 0 _ _))
        (scope_exit-Triple Crashes (free_handle a rn wn)
          (λ s h.
            release-IsOwning a rn wn start handle _ _ (object handle refl refl)
              (release-IsOwning a rn wn start service_name _ s (object service_name refl refl) h))
          (then-Triple Crashes
            (allocate-Triple a rn wn start (object service_name refl refl) tt
              (drop-IsOwning a rn wn start 1 _ _))
            (check-Triple Crashes a.added_to_graph (drop-IsOwning a rn wn start 0 _ _))))

  made_writer :
      (made : List Kind)
      → Triple Crashes
          (Own made (data_writer ∷ handle ∷ service_name ∷ []))
          (create_writer a rn wn)
          (Own (service_name ∷ handle ∷ data_writer ∷ made) [])
          (Deleted (data_writer ∷ handle ∷ service_name ∷ []))
  unfolding create_writer
  made_writer made =
      then-Triple Crashes
        (check-Triple Crashes a.writer_qos_set (λ s h r w. drop-IsOwning a rn wn start 0 _ _ s h))
        (then-Triple Crashes
          (allocate-Triple a rn wn start (object data_writer refl refl) (refl, (refl, tt))
            (λ s h r w. drop-IsOwning a rn wn start 0 _ _ s h))
          (scope_exit-Triple Crashes (delete_answered a.writer_deleted data_writer)
            (λ s h r w.
              deleted-IsOwning a.writer_deleted data_writer _ s (object data_writer refl refl) w h)
            (made_handle (data_writer ∷ made))))

  made_reader :
      (made : List Kind)
      → Triple Crashes
          (Own made (data_reader ∷ data_writer ∷ handle ∷ service_name ∷ []))
          (create_reader a rn wn)
          (Own (service_name ∷ handle ∷ data_writer ∷ data_reader ∷ made) [])
          (Deleted (data_reader ∷ data_writer ∷ handle ∷ service_name ∷ []))
  unfolding create_reader
  made_reader made =
      then-Triple Crashes
        (check-Triple Crashes a.reader_qos_set (λ s h r w. drop-IsOwning a rn wn start 0 _ _ s h))
        (then-Triple Crashes
          (allocate-Triple a rn wn start (object data_reader refl refl) (refl, (refl, (refl, tt)))
            (λ s h r w. drop-IsOwning a rn wn start 0 _ _ s h))
          (scope_exit-Triple Crashes (delete_answered a.reader_deleted data_reader)
            (λ s h r w.
              deleted-IsOwning a.reader_deleted data_reader _ s (object data_reader refl refl) r
                (h r w))
            (made_writer (data_reader ∷ made))))

  filled :
      Triple Crashes
        (Own (custom_info ∷ []) (drop 1 all_kinds))
        (fill_info a rn wn)
        (Own made_kinds [])
        (Deleted (drop 5 all_kinds))
  unfolding fill_info
  filled =
      let unchanged : (s : Entities)
          → Own (custom_info ∷ []) (drop 1 all_kinds) s
          → Deleted (drop 5 all_kinds) s =
        λ s h r w. drop-IsOwning a rn wn start 4 (custom_info ∷ []) (drop 1 all_kinds) s h in
      then-Triple Crashes
        (check-Triple Crashes (a.request_type_found || a.request_support_allocated) unchanged)
        (then-Triple Crashes
          (check-Triple Crashes (a.response_type_found || a.response_support_allocated) unchanged)
          (then-Triple Crashes (check-Triple Crashes a.request_type_registered unchanged) (
            then-Triple Crashes (check-Triple Crashes a.response_type_registered unchanged) (
              then-Triple Crashes
                (allocate-Triple a rn wn start (object listener refl refl)
                  (refl, (refl, (refl, (refl, (refl, (refl, (refl, tt))))))) unchanged)
                (then-Triple Crashes
                  (allocate-Triple a rn wn start (object pub_listener refl refl)
                    (refl, (refl, (refl, (refl, (refl, (refl, tt))))))
                    (λ s h r w. drop-IsOwning a rn wn start 3 _ _ s h))
                  (then-Triple Crashes
                    (check-Triple Crashes a.topic_qos_set
                      (λ s h r w. drop-IsOwning a rn wn start 2 _ _ s h))
                    (then-Triple Crashes
                      (use_reader-Triple a rn wn start bound
                        (refl, (refl, (refl, (refl, (refl, tt))))))
                      (then-Triple Crashes
                        (use_writer-Triple a rn wn start bound (refl, (refl, (refl, (refl, tt)))))
                        (made_reader (
                          writer_topic ∷ reader_topic ∷ pub_listener ∷ listener ∷ custom_info
                          ∷ []))))))))))

  swapped :
      (rest : List Kind) (s : Entities)
      → Fails (writer_topic ∷ reader_topic ∷ rest) s
      → Fails (reader_topic ∷ writer_topic ∷ rest) s
  swapped rest s h = record {
    counted = h.counted;
    used = h.used;
    tallied = h.tallied;
    all_made = tt;
    all_pending = (h.all_pending.1.0, (h.all_pending.0, h.all_pending.1.1));
  }

  no_topics :
      (is_client : Bool) (s : Entities)
      → Fails (drop 5 all_kinds) s
      → Fails (drop 3 all_kinds) (drop_topics a rn wn is_client s)
  no_topics true s h =
      let no_reader = drop_reader-IsOwning a rn wn start (drop 5 all_kinds) s h in
      let s1 = drop_topic reader_topic rn s in
      swapped (drop 5 all_kinds) (drop_topic writer_topic wn s1)
        (drop_writer-IsOwning a rn wn start (reader_topic ∷ drop 5 all_kinds) s1 no_reader)
  no_topics false s h =
      let no_writer = drop_writer-IsOwning a rn wn start (drop 5 all_kinds) s h in
      drop_reader-IsOwning a rn wn start (writer_topic ∷ drop 5 all_kinds)
        (drop_topic writer_topic wn s) no_writer

  cleaned :
      (is_client : Bool) (s : Entities)
      → Fails (drop 5 all_kinds) s
      → Fails all_kinds (cleanup_info a rn wn is_client s)
  unfolding cleanup_info
  cleaned is_client s h =
      let s1 = drop_topics a rn wn is_client s in
      let no_pub =
        release-IsOwning a rn wn start pub_listener _ s1 (object pub_listener refl refl)
          (no_topics is_client s h) in
      let no_listener =
        release-IsOwning a rn wn start listener _ (release pub_listener s1)
          (object listener refl refl) no_pub in
      release-IsOwning a rn wn start custom_info _ (release listener (release pub_listener s1))
        (object custom_info refl refl) no_listener

  pub created :
      (is_client : Bool)
      → Triple Crashes
          (Own [] all_kinds)
          (create_endpoints a rn wn is_client)
          (Own made_kinds [])
          (Deleted all_kinds)
  unfolding create_endpoints
  created is_client =
      then-Triple Crashes
        (check-Triple Crashes a.request_type_compatible
          (λ s h r w. drop-IsOwning a rn wn start 0 [] all_kinds s h))
        (then-Triple Crashes
          (check-Triple Crashes a.response_type_compatible
            (λ s h r w. drop-IsOwning a rn wn start 0 [] all_kinds s h))
          (then-Triple Crashes
            (allocate-Triple a rn wn start (object custom_info refl refl)
              (refl, (refl, (refl, (refl, (refl, (refl, (refl, (refl, tt))))))))
              (λ s h r w. drop-IsOwning a rn wn start 0 [] all_kinds s h))
            (scope_exit-Triple Crashes (cleanup_info a rn wn is_client)
              (λ s h r w. cleaned is_client s (h r w)) filled)))
