-- ===== src/Creation/Destruction.antt =====
-- A client that is created and destroyed: rmw_fastrtps_cpp/src/rmw_client.cpp and
-- `__rmw_destroy_client` of rmw_fastrtps_shared_cpp/src/rmw_client.cpp.
use rmw_fastrtps.Prelude.{◌≡◌, refl, subst, true, nat_eq, list_eq, List, [], ◌∷◌}
use rmw_fastrtps.Rmw.{RmwRet}
use rmw_fastrtps.Text.{Text}
use rmw_fastrtps.Creation.{done}
use rmw_fastrtps.Creation.Triples.{IsEnd}
use rmw_fastrtps.Creation.Client.{
  Kind, custom_info, listener, pub_listener, reader_topic, writer_topic, data_reader, data_writer,
  handle, service_name, Entities, Answers, Deletions, release, drop_topic, create_endpoints,
  free_client, destroy_client,
}
use rmw_fastrtps.Creation.Owned.{IsOwning, drop-IsOwning, release-IsOwning, all_kinds}
use rmw_fastrtps.Creation.TopicSteps.{Crash, drop_reader-IsOwning, drop_writer-IsOwning}
use rmw_fastrtps.Creation.Restored.{object, made_kinds, Deleted, created}
use rmw_fastrtps.Creation.AllOrNothing.{IsStart, IsSame, start-IsOwning, owning-IsSame}

-- Fast DDS deletes the reader and the writer.
abbrev pub deleting : RmwRet → Deletions
deleting ret = record { removed_from_graph = ret; reader_deleted = true; writer_deleted = true }

module _ (a : Answers) (rn wn : Text) (start : Entities) where
  abbrev Fails : List Kind → Entities → Type 0
  Fails = IsOwning a rn wn start []

  freed_client :
      (s : Entities)
      → Fails (data_writer ∷ listener ∷ data_reader ∷ []) s
      → Fails
          (handle ∷ service_name ∷ custom_info ∷ reader_topic ∷ writer_topic ∷ pub_listener
            ∷ data_writer ∷ listener ∷ data_reader ∷ [])
          (free_client rn wn s)
  freed_client s o =
      let o1 = release-IsOwning a rn wn start pub_listener _ s (object pub_listener refl refl) o in
      let o2 = drop_writer-IsOwning a rn wn start _ (release pub_listener s) o1 in
      let s3 = drop_topic writer_topic wn (release pub_listener s) in
      let o3 = drop_reader-IsOwning a rn wn start _ s3 o2 in
      let s4 = drop_topic reader_topic rn s3 in
      let o4 = release-IsOwning a rn wn start custom_info _ s4 (object custom_info refl refl) o3 in
      let s5 = release custom_info s4 in
      let o5 =
        release-IsOwning a rn wn start service_name _ s5 (object service_name refl refl) o4 in
      release-IsOwning a rn wn start handle _ (release service_name s5) (object handle refl refl) o5

  destroyed :
      (ret : RmwRet) (s : Entities)
      → Fails [] s
      → Fails
          (handle ∷ service_name ∷ custom_info ∷ reader_topic ∷ writer_topic ∷ pub_listener
            ∷ data_writer ∷ listener ∷ data_reader ∷ [])
          (destroy_client (deleting ret) rn wn s).1
  unfolding destroy_client
  destroyed ret s o =
      let o1 = release-IsOwning a rn wn start data_reader [] s (object data_reader refl refl) o in
      let s1 = release data_reader s in
      let o2 = release-IsOwning a rn wn start listener _ s1 (object listener refl refl) o1 in
      let s2 = release listener s1 in
      let o3 = release-IsOwning a rn wn start data_writer _ s2 (object data_writer refl refl) o2 in
      freed_client (release data_writer s2) o3

  reordered :
      (s : Entities)
      → Fails
          (handle ∷ service_name ∷ custom_info ∷ reader_topic ∷ writer_topic ∷ pub_listener
            ∷ data_writer ∷ listener ∷ data_reader ∷ [])
          s
      → Fails all_kinds s
  reordered s o =
      let (h7, (h8, (h0, (h3, (h4, (h2, (h6, (h1, (h5, u))))))))) = o.all_pending in
      record {
        counted = o.counted;
        used = o.used;
        tallied = o.tallied;
        all_made = tt;
        all_pending = (h0, (h1, (h2, (h3, (h4, (h5, (h6, (h7, (h8, tt)))))))));
      }

  -- A creation that succeeds and then the destruction, where Fast DDS deletes the reader and the
  -- writer, leave as many objects of each kind and as many uses of each topic as there were before,
  -- and the destruction returns what the graph cache does, for a start at which no pointer of the
  -- creation is set, every topic in the map is used, and no use count is near 2 ^ 64.
  pub destroy-create :
      (ret : RmwRet) (s : Entities)
      → IsStart start
      → create_endpoints a rn wn true start ≡ (done, s)
      → ((destroy_client (deleting ret) rn wn s).0 ≡ ret)
        × IsSame start (destroy_client (deleting ret) rn wn s).1
  unfolding destroy_client
  destroy-create ret s h e =
      let made = (created a rn wn start h.bound true).ends start (start-IsOwning a rn wn start h) in
      let owned : IsOwning a rn wn start made_kinds [] s =
        subst
          (IsEnd (Crash a rn wn start) (IsOwning a rn wn start made_kinds [])
            (Deleted a rn wn start h.bound all_kinds))
          e made in
      let left = destroyed ret s (drop-IsOwning a rn wn start 0 made_kinds [] s owned) in
      (
        refl,
        owning-IsSame a rn wn start h (destroy_client (deleting ret) rn wn s).1
            (reordered (destroy_client (deleting ret) rn wn s).1 left),
      )
