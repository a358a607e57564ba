-- ===== src/Creation/Owned.antt =====
-- What a creation owns (rmw_fastrtps_cpp/src/rmw_client.cpp, src/rmw_service.cpp): beside the objects
-- and the uses of topics that there were, those whose pointers it has set.
use rmw_fastrtps.Prelude.{
  ℕ, zero, suc, ◌+◌, ◌≡◌, refl, sym, ap, ◌∙◌, true, false, ◌&&◌, none, some, List, [], ◌∷◌, All,
  drop, get_elem?, arith, if◌then◌else◌, ◌==◌, nat_eq, list_eq, inl, inr, Bool-cases,
}
use rmw_fastrtps.Text.{Text}
use rmw_fastrtps.Participant.Topics.{IsUsed, uses, one_if}
use rmw_fastrtps.Creation.Triples.{Triple}
use rmw_fastrtps.Creation.Client.{
  Kind, custom_info, listener, pub_listener, data_reader, data_writer, handle, service_name,
  number_of, reader_topic, writer_topic, same_kind, Entities, Answers, acquire, release, allocate,
}

drop-All : {A : Type 0} (P : A → Type 0) (n : ℕ) (xs : List A) → All P xs → All P (drop n xs)
drop-All P zero xs h = h
drop-All P (suc n) [] h = h
drop-All P (suc n) (x ∷ xs) h = drop-All P n xs h.1

-- A kind that is no topic.
pub record IsObject (k : Kind) : Type 0 where
  pub no_reader_topic : same_kind k reader_topic ≡ false
  pub no_writer_topic : same_kind k writer_topic ≡ false

abbrev pub all_kinds : List Kind
all_kinds =
    custom_info ∷ listener ∷ pub_listener ∷ reader_topic ∷ writer_topic ∷ data_reader ∷ data_writer
    ∷ handle ∷ service_name ∷ []

abbrev kind_of : ℕ → Kind
kind_of n = elim (get_elem? all_kinds n) [ none ↦ service_name | some k ↦ k ]

kind_of-number_of : (k : Kind) → kind_of (number_of k) ≡ k
kind_of-number_of custom_info = refl
kind_of-number_of listener = refl
kind_of-number_of pub_listener = refl
kind_of-number_of reader_topic = refl
kind_of-number_of writer_topic = refl
kind_of-number_of data_reader = refl
kind_of-number_of data_writer = refl
kind_of-number_of handle = refl
kind_of-number_of service_name = refl

same_kind_eq : (k j : Kind) → same_kind k j ≡ true → k ≡ j
same_kind_eq k j e =
    let same : number_of k ≡ number_of j = ground (arith, e) in
    sym (kind_of-number_of k) ∙ ap kind_of same ∙ kind_of-number_of j

module _ (a : Answers) (reader_topic_name writer_topic_name : Text) (start : Entities) where
  -- The uses of a topic that the creation has.
  abbrev pub own_uses : Entities → Text → ℕ
  own_uses s name =
      one_if (s.is_set reader_topic && (reader_topic_name == name))
      + one_if (s.is_set writer_topic && (writer_topic_name == name))

  -- The pointers of the kinds in `made` are set, those of the kinds in `pending` are not.
  pub record IsOwning (made pending : List Kind) (s : Entities) : Type 0 where
    pub counted : (k : Kind) → s.objects k ≡ start.objects k + one_if (s.is_set k)
    pub used : IsUsed s.topics
    pub tallied : (name : Text) → uses name s.topics ≡ uses name start.topics + own_uses s name
    pub all_made : All (λ k. s.is_set k ≡ true) made
    pub all_pending : All (λ k. s.is_set k ≡ false) pending

  pub drop-IsOwning :
      (n : ℕ) (made pending : List Kind) (s : Entities)
      → IsOwning made pending s
      → IsOwning [] (drop n pending) s
  drop-IsOwning n made pending s h = record {
    counted = h.counted;
    used = h.used;
    tallied = h.tallied;
    all_made = tt;
    all_pending = drop-All (λ k. s.is_set k ≡ false) n pending h.all_pending;
  }

  abbrev pub IsApart : Kind → List Kind → Type 0
  IsApart k = All (λ j. same_kind k j ≡ false)

  pub acquired_pending :
      (k : Kind) (s : Entities) (pending : List Kind)
      → IsApart k pending
      → All (λ j. s.is_set j ≡ false) pending
      → All (λ j. (acquire k s).is_set j ≡ false) pending
  acquired_pending k s [] apart h = tt
  acquired_pending k s (j ∷ js) apart h = (rw (apart.0) (h.0), acquired_pending k s js apart.1 h.1)

  pub acquired_made :
      (k : Kind) (s : Entities) (made : List Kind)
      → All (λ j. s.is_set j ≡ true) made
      → All (λ j. (acquire k s).is_set j ≡ true) made
  acquired_made k s [] h = tt
  acquired_made k s (j ∷ js) h = (
    elim (Bool-cases (same_kind k j)) [ inl e ↦ rw (e) refl | inr e ↦ rw (e) (h.0) ],
    acquired_made k s js h.1,
  )

  pub acquired_counted :
      (k : Kind) (s : Entities)
      → ((j : Kind) → s.objects j ≡ start.objects j + one_if (s.is_set j))
      → s.is_set k ≡ false
      → (j : Kind) → (acquire k s).objects j ≡ start.objects j + one_if ((acquire k s).is_set j)
  acquired_counted k s h unset j = elim (Bool-cases (same_kind k j)) [
    | inl e ↦
        let unset' = ap s.is_set (sym (same_kind_eq k j e)) ∙ unset in
        rw (e, h j, unset') (omega arith)
    | inr e ↦ rw (e) (h j)
  ]

  acquire-IsOwning :
      (k : Kind) (made pending : List Kind) (s : Entities)
      → IsObject k
      → IsApart k pending
      → IsOwning made (k ∷ pending) s
      → IsOwning (k ∷ made) pending (acquire k s)
  acquire-IsOwning k made pending s o apart h = record {
    counted = acquired_counted k s h.counted (h.all_pending.0);
    used = h.used;
    tallied = λ name. rw (o.no_reader_topic, o.no_writer_topic) (h.tallied name);
    all_made = (ground arith, acquired_made k s made h.all_made);
    all_pending = acquired_pending k s pending apart (h.all_pending.1);
  }

  pub allocate-Triple :
      {Crash : Type 0} {F : Entities → Type 0} {k : Kind} {made pending : List Kind}
      → IsObject k
      → IsApart k pending
      → ((s : Entities) → IsOwning made (k ∷ pending) s → F s)
      → Triple Crash (IsOwning made (k ∷ pending)) (allocate a k) (IsOwning (k ∷ made) pending) F
  unfolding allocate
  allocate-Triple {Crash} {F} {k} {made} {pending} o apart u = record {
    ends = λ s h. elim (Bool-cases (a.allocated k)) [
      | inl e ↦ rw (allocate, e) (acquire-IsOwning k made pending s o apart h)
      | inr e ↦ rw (allocate, e) (u s h)
    ];
  }

  pub released_flag :
      (k j : Kind) (s : Entities)
      → (release k s).is_set j ≡ (if same_kind k j then false else s.is_set j)
  unfolding release
  released_flag k j s = elim (Bool-cases (s.is_set k)) [
    | inl e ↦ rw (release, e) refl
    | inr e ↦ elim (Bool-cases (same_kind k j)) [
      | inl same ↦ rw (release, e, same) (ap s.is_set (sym (same_kind_eq k j same)) ∙ e)
      | inr other ↦ rw (release, e, other) refl
    ]
  ]

  pub released_count :
      (k j : Kind) (s : Entities)
      → s.objects j ≡ start.objects j + one_if (s.is_set j)
      → (release k s).objects j ≡ start.objects j + one_if ((release k s).is_set j)
  unfolding release
  released_count k j s h = elim (Bool-cases (s.is_set k)) [
    | inl e ↦ elim (Bool-cases (same_kind k j)) [
      | inl same ↦
          let set = ap s.is_set (sym (same_kind_eq k j same)) ∙ e in
          rw (release, e, same, h, set) (omega arith)
      | inr other ↦ rw (release, e, other) h
    ]
    | inr e ↦ rw (release, e) h
  ]

  pub released_pending :
      (k : Kind) (s : Entities) (pending : List Kind)
      → All (λ j. s.is_set j ≡ false) pending
      → All (λ j. (release k s).is_set j ≡ false) pending
  released_pending k s [] h = tt
  released_pending k s (j ∷ js) h =
      (released_flag k j s ∙ ground (arith, h.0), released_pending k s js h.1)

  pub release_topics : (k : Kind) (s : Entities) → (release k s).topics ≡ s.topics
  unfolding release
  release_topics k s = elim (Bool-cases (s.is_set k)) [
    | inl e ↦ rw (release, e) refl
    | inr e ↦ rw (release, e) refl
  ]

  pub release-IsOwning :
      (k : Kind) (pending : List Kind) (s : Entities)
      → IsObject k
      → IsOwning [] pending s
      → IsOwning [] (k ∷ pending) (release k s)
  release-IsOwning k pending s o h = record {
    counted = λ j. released_count k j s (h.counted j);
    used = rw (release_topics k s) h.used;
    tallied = λ name.
        rw
          (
            release_topics k s,
            released_flag k reader_topic s,
            released_flag k writer_topic s,
            o.no_reader_topic,
            o.no_writer_topic,
          )
          (h.tallied name);
    all_made = tt;
    all_pending = (released_flag k k s ∙ ground arith, released_pending k s pending h.all_pending);
  }
