-- ===== src/Participant/Topics.antt =====
-- How often each topic is used: the counts that `find_or_create_topic` and `delete_topic` of
-- rmw_fastrtps_shared_cpp/src/custom_participant_info.cpp keep.
use rmw_fastrtps.Prelude.{
  ℕ, ◌+◌, ◌-◌, ◌^◌, ◌<◌, ◌≤◌, ◌≡◌, refl, Bool, true, false, Option, none, some, arith, eqb,
  if◌then◌else◌, ◌==◌, eq_iff, nat_eq, list_eq, inl, inr, Option-cases, Bool-cases,
}
use rmw_fastrtps.Prelude.Assoc.{find, erase, assign, find-erase, find-assign}
use rmw_fastrtps.Text.{Text}
use rmw_fastrtps.Participant.{
  UseCountTopic, TopicMap, find_or_create_topic, decremented, delete_topic,
}

abbrev pub count_of : Option UseCountTopic → ℕ
count_of none = 0
count_of (some it) = it.use_count

-- How often a topic is used.
abbrev pub uses : Text → TopicMap → ℕ
uses name topics = count_of (find name topics)

-- Every topic of the map is used.
abbrev pub IsUsed : TopicMap → Type 0
IsUsed topics =
    (name : Text) (it : UseCountTopic)
    → find name topics ≡ some it
    → (0 < it.use_count) × (it.use_count < 2 ^ 64)

abbrev pub one_if : Bool → ℕ
one_if true = 1
one_if false = 0

-- What a use makes of a map.
pub record IsOneMore (topic_name : Text) (topics t : TopicMap) : Type 0 where
  pub used : IsUsed t
  pub more : (name : Text) → uses name t ≡ uses name topics + one_if (topic_name == name)

pub record IsOneLess (topic_name : Text) (topics t : TopicMap) : Type 0 where
  pub used : IsUsed t
  pub less : (name : Text) → uses name t ≡ uses name topics - one_if (topic_name == name)

assign-IsUsed :
    (k : Text) (v : UseCountTopic) (topics : TopicMap)
    → (0 < v.use_count) × (v.use_count < 2 ^ 64)
    → IsUsed topics
    → IsUsed (assign k v topics)
assign-IsUsed k v topics h used name it e =
    ground (arith, find-assign k name v topics, used name it)

erase-IsUsed : (k : Text) (topics : TopicMap) → IsUsed topics → IsUsed (erase k topics)
erase-IsUsed k topics used name it e = ground (arith, find-erase k name topics, used name it)

assign-uses :
    (k name : Text) (v : UseCountTopic) (topics : TopicMap)
    → uses name (assign k v topics) ≡ (if k == name then v.use_count else uses name topics)
assign-uses k name v topics = ground (arith, find-assign k name v topics)

erase-uses :
    (k name : Text) (topics : TopicMap)
    → uses name (erase k topics) ≡ (if k == name then 0 else uses name topics)
erase-uses k name topics = ground (arith, find-erase k name topics)

assign-more :
    (k : Text) (v : UseCountTopic) (topics : TopicMap)
    → v.use_count ≡ uses k topics + 1
    → v.use_count < 2 ^ 64
    → IsUsed topics
    → IsOneMore k topics (assign k v topics)
assign-more k v topics e h used = record {
  used = assign-IsUsed k v topics (omega (arith, e), h) used;
  more = λ name. elim (Bool-cases (k == name)) [
    | inl same ↦
        let name_same : k ≡ name = (eq_iff k name).0 same in
        rw (assign-uses k name v topics, same, ← name_same) e
    | inr other ↦ rw (assign-uses k name v topics, other) (omega arith)
  ];
}

assign-less :
    (k : Text) (v : UseCountTopic) (topics : TopicMap)
    → v.use_count ≡ uses k topics - 1
    → (0 < v.use_count) × (v.use_count < 2 ^ 64)
    → IsUsed topics
    → IsOneLess k topics (assign k v topics)
assign-less k v topics e h used = record {
  used = assign-IsUsed k v topics h used;
  less = λ name. elim (Bool-cases (k == name)) [
    | inl same ↦
        let name_same : k ≡ name = (eq_iff k name).0 same in
        rw (assign-uses k name v topics, same, ← name_same) e
    | inr other ↦ rw (assign-uses k name v topics, other) (omega arith)
  ];
}

erase-less :
    (k : Text) (topics : TopicMap)
    → uses k topics ≤ 1
    → IsUsed topics
    → IsOneLess k topics (erase k topics)
erase-less k topics h used = record {
  used = erase-IsUsed k topics used;
  less = λ name. elim (Bool-cases (k == name)) [
    | inl same ↦
        let name_same : k ≡ name = (eq_iff k name).0 same in
        rw (erase-uses k name topics, same, ← name_same) (omega (arith, h))
    | inr other ↦ rw (erase-uses k name topics, other) (omega arith)
  ];
}

-- A topic that Fast DDS does not create has no result.
abbrev pub IsUseResult : (Text → Bool) → Text → TopicMap → Option TopicMap → Type 0
IsUseResult create_topic k topics none = create_topic k ≡ false
IsUseResult create_topic k topics (some t) = IsOneMore k topics t

pub find_or_create_topic-IsUseResult :
    (create_topic : Text → Bool) (k : Text) (l : Option ℕ) (topics : TopicMap)
    → IsUsed topics
    → uses k topics + 1 < 2 ^ 64
    → IsUseResult create_topic k topics (find_or_create_topic create_topic k l topics)
unfolding find_or_create_topic
find_or_create_topic-IsUseResult create_topic k l topics used h =
    elim (Option-cases (find k topics)) [
      | inl absent ↦ elim (Bool-cases (create_topic k)) [
        | inl created ↦
            rw (find_or_create_topic, absent, created)
              (assign-more k _ topics (rw (absent) refl) (omega arith) used)
        | inr failed ↦ rw (find_or_create_topic, absent, failed) failed
      ]
      | inr (it, there) ↦
          let count : uses k topics ≡ it.use_count = rw (there) refl in
          rw (find_or_create_topic, there)
            (assign-more k _ topics (omega (arith, count, h)) (omega (arith, count, h)) used)
    ]

absent-IsOneLess :
    (k : Text) (topics : TopicMap)
    → find k topics ≡ none
    → IsUsed topics
    → IsOneLess k topics topics
absent-IsOneLess k topics absent used = record {
  used = used;
  less = λ name. elim (Bool-cases (k == name)) [
    | inl same ↦
        let name_same : k ≡ name = (eq_iff k name).0 same in
        let unused : uses name topics ≡ 0 = rw (← name_same, absent) refl in
        rw (same) (omega (arith, unused))
    | inr other ↦ rw (other) (omega arith)
  ];
}

pub delete_topic-IsOneLess :
    (k : Text) (l : Option ℕ) (topics : TopicMap)
    → IsUsed topics
    → IsOneLess k topics (delete_topic k l topics)
unfolding delete_topic
delete_topic-IsOneLess k l topics used = elim (Option-cases (find k topics)) [
  | inl absent ↦ rw (delete_topic, absent) (absent-IsOneLess k topics absent used)
  | inr (it, there) ↦
      let count : uses k topics ≡ it.use_count = rw (there) refl in
      let n : decremented it.use_count ≡ it.use_count - 1 = ground (arith, used k it there) in
      elim (Bool-cases (eqb (decremented it.use_count) 0)) [
        | inl last ↦
            rw (delete_topic, there, last) (erase-less k topics (ground (arith, count, n)) used)
        | inr left ↦
            rw (delete_topic, there, left)
              (assign-less k _ topics (omega (arith, n, count)) (ground (arith, n, used k it there))
                used)
      ]
]
