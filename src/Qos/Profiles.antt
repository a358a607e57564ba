-- ===== src/Qos/Profiles.antt =====
-- Profiles turned into the policies of an entity and back.
use rmw_fastrtps.Prelude.{
  ℕ, ◌≡◌, refl, ap, ◌∙◌, ◌⊎◌, inl, inr, Bool, true, false, ◌&&◌, ◌||◌, none, some, arith, leb, ltb,
  Option-cases, if◌then◌else◌,
}
use rmw_fastrtps.Rmw.{sign_extend}
use rmw_fastrtps.Qos.{
  DdsDurability, DdsHistory, DdsLiveliness, DdsReliability, Durability, Durations, EntityQos,
  History, Liveliness, Profile, Reliability, dds_depth, dds_durability, dds_history, dds_liveliness,
  dds_reliability, fill_entity_qos_from_profile, fill_lease_duration, fill_lifespan_and_deadline,
  int32_max, history_system_default, history_keep_last, history_keep_all, history_unknown,
  history_other, durability_system_default, durability_transient_local, durability_volatile,
  durability_unknown, durability_other, reliability_system_default, reliability_reliable,
  reliability_best_effort, reliability_unknown, reliability_other, liveliness_system_default,
  liveliness_automatic, liveliness_manual_by_topic, liveliness_unknown, liveliness_other,
  keep_last_history, keep_all_history, volatile_durability, transient_local_durability,
  best_effort_reliability, reliable_reliability, automatic_liveliness, manual_by_topic_liveliness,
}

-- Success of a step, and the policies that have one.
abbrev pub is_known_history : History → Bool
is_known_history history_unknown = false
is_known_history (history_other n) = false
is_known_history _ = true

abbrev pub is_known_durability : Durability → Bool
is_known_durability durability_unknown = false
is_known_durability (durability_other n) = false
is_known_durability _ = true

abbrev pub is_known_reliability : Reliability → Bool
is_known_reliability reliability_unknown = false
is_known_reliability (reliability_other n) = false
is_known_reliability _ = true

abbrev pub is_known_liveliness : Liveliness → Bool
is_known_liveliness liveliness_unknown = false
is_known_liveliness (liveliness_other n) = false
is_known_liveliness _ = true

-- The profiles that an entity of some history depth can take.
abbrev pub is_acceptable : Profile → ℕ → Bool
is_acceptable p entity_depth =
    is_known_history p.history
    && (is_known_durability p.durability
        && (is_known_reliability p.reliability
            && ((leb p.depth int32_max || leb p.depth (sign_extend entity_depth))
                && is_known_liveliness p.liveliness)))

known_history :
    (a : History) (k : DdsHistory)
    → ((is_known_history a ≡ false) × (dds_history a k ≡ none))
      ⊎ ((is_known_history a ≡ true) × ((h : DdsHistory) × (dds_history a k ≡ some h)))
unfolding dds_history
known_history history_system_default k = inr (refl, (k, refl))
known_history history_keep_last k = inr (refl, (keep_last_history, refl))
known_history history_keep_all k = inr (refl, (keep_all_history, refl))
known_history history_unknown k = inl (refl, refl)
known_history (history_other n) k = inl (refl, refl)

known_durability :
    (a : Durability) (k : DdsDurability)
    → ((is_known_durability a ≡ false) × (dds_durability a k ≡ none))
      ⊎ ((is_known_durability a ≡ true) × ((h : DdsDurability) × (dds_durability a k ≡ some h)))
unfolding dds_durability
known_durability durability_system_default k = inr (refl, (k, refl))
known_durability durability_transient_local k = inr (refl, (transient_local_durability, refl))
known_durability durability_volatile k = inr (refl, (volatile_durability, refl))
known_durability durability_unknown k = inl (refl, refl)
known_durability (durability_other n) k = inl (refl, refl)

known_reliability :
    (a : Reliability) (k : DdsReliability)
    → ((is_known_reliability a ≡ false) × (dds_reliability a k ≡ none))
      ⊎ ((is_known_reliability a ≡ true) × ((h : DdsReliability) × (dds_reliability a k ≡ some h)))
unfolding dds_reliability
known_reliability reliability_system_default k = inr (refl, (k, refl))
known_reliability reliability_reliable k = inr (refl, (reliable_reliability, refl))
known_reliability reliability_best_effort k = inr (refl, (best_effort_reliability, refl))
known_reliability reliability_unknown k = inl (refl, refl)
known_reliability (reliability_other n) k = inl (refl, refl)

known_liveliness :
    (a : Liveliness) (k : DdsLiveliness)
    → ((is_known_liveliness a ≡ false) × (dds_liveliness a k ≡ none))
      ⊎ ((is_known_liveliness a ≡ true) × ((h : DdsLiveliness) × (dds_liveliness a k ≡ some h)))
unfolding dds_liveliness
known_liveliness liveliness_system_default k = inr (refl, (k, refl))
known_liveliness liveliness_automatic k = inr (refl, (automatic_liveliness, refl))
known_liveliness liveliness_manual_by_topic k = inr (refl, (manual_by_topic_liveliness, refl))
known_liveliness liveliness_unknown k = inl (refl, refl)
known_liveliness (liveliness_other n) k = inl (refl, refl)

pub depth_result :
    (depth entity_depth : ℕ)
    → dds_depth depth entity_depth ≡ (
        if leb depth int32_max || leb depth (sign_extend entity_depth)
        then some (if ltb (sign_extend entity_depth) depth then depth else entity_depth)
        else none)
unfolding dds_depth
depth_result depth entity_depth = ground arith

module _ (env : Durations) where
  -- The entity that a profile is written into, where every step succeeds.
  abbrev pub filled :
      Profile
      → EntityQos
      → DdsHistory
      → DdsDurability
      → DdsReliability
      → ℕ
      → DdsLiveliness
      → EntityQos
  filled p q h d r n l =
      fill_lease_duration env p
        (record (fill_lifespan_and_deadline env p (record q {
          history_kind = h;
          durability_kind = d;
          reliability_kind = r;
          history_depth = n;
        })) { liveliness_kind = l })

  pub fill_all :
      (p : Profile) (q : EntityQos) {h : DdsHistory} {d : DdsDurability} {r : DdsReliability}
      {n : ℕ} {l : DdsLiveliness}
      → dds_history p.history q.history_kind ≡ some h
      → dds_durability p.durability q.durability_kind ≡ some d
      → dds_reliability p.reliability q.reliability_kind ≡ some r
      → dds_depth p.depth q.history_depth ≡ some n
      → dds_liveliness p.liveliness q.liveliness_kind ≡ some l
      → fill_entity_qos_from_profile env p q ≡ (filled p q h d r n l, true)
  unfolding fill_entity_qos_from_profile fill_lifespan_and_deadline
  fill_all p q eh ed er en el = rw (eh, ed, er, en, el, fill_entity_qos_from_profile)

  fails_at_history :
      (p : Profile) (q : EntityQos)
      → dds_history p.history q.history_kind ≡ none
      → (fill_entity_qos_from_profile env p q).1 ≡ false
  unfolding fill_entity_qos_from_profile
  fails_at_history p q e = rw (e, fill_entity_qos_from_profile)

  fails_at_durability :
      (p : Profile) (q : EntityQos) {h : DdsHistory}
      → dds_history p.history q.history_kind ≡ some h
      → dds_durability p.durability q.durability_kind ≡ none
      → (fill_entity_qos_from_profile env p q).1 ≡ false
  unfolding fill_entity_qos_from_profile
  fails_at_durability p q eh e = rw (eh, e, fill_entity_qos_from_profile)

  fails_at_reliability :
      (p : Profile) (q : EntityQos) {h : DdsHistory} {d : DdsDurability}
      → dds_history p.history q.history_kind ≡ some h
      → dds_durability p.durability q.durability_kind ≡ some d
      → dds_reliability p.reliability q.reliability_kind ≡ none
      → (fill_entity_qos_from_profile env p q).1 ≡ false
  unfolding fill_entity_qos_from_profile
  fails_at_reliability p q eh ed e = rw (eh, ed, e, fill_entity_qos_from_profile)

  fails_at_depth :
      (p : Profile) (q : EntityQos) {h : DdsHistory} {d : DdsDurability} {r : DdsReliability}
      → dds_history p.history q.history_kind ≡ some h
      → dds_durability p.durability q.durability_kind ≡ some d
      → dds_reliability p.reliability q.reliability_kind ≡ some r
      → dds_depth p.depth q.history_depth ≡ none
      → (fill_entity_qos_from_profile env p q).1 ≡ false
  unfolding fill_entity_qos_from_profile
  fails_at_depth p q eh ed er e = rw (eh, ed, er, e, fill_entity_qos_from_profile)

  fails_at_liveliness :
      (p : Profile) (q : EntityQos) {h : DdsHistory} {d : DdsDurability} {r : DdsReliability}
      {n : ℕ}
      → dds_history p.history q.history_kind ≡ some h
      → dds_durability p.durability q.durability_kind ≡ some d
      → dds_reliability p.reliability q.reliability_kind ≡ some r
      → dds_depth p.depth q.history_depth ≡ some n
      → dds_liveliness p.liveliness q.liveliness_kind ≡ none
      → (fill_entity_qos_from_profile env p q).1 ≡ false
  unfolding fill_entity_qos_from_profile fill_lifespan_and_deadline
  fails_at_liveliness p q eh ed er en e = rw (eh, ed, er, en, e, fill_entity_qos_from_profile)

  fill_depth_and_liveliness :
      (p : Profile) (q : EntityQos) {h : DdsHistory} {d : DdsDurability} {r : DdsReliability}
      → dds_history p.history q.history_kind ≡ some h
      → dds_durability p.durability q.durability_kind ≡ some d
      → dds_reliability p.reliability q.reliability_kind ≡ some r
      → (fill_entity_qos_from_profile env p q).1 ≡ (
          (leb p.depth int32_max || leb p.depth (sign_extend q.history_depth))
          && is_known_liveliness p.liveliness)
  fill_depth_and_liveliness p q eh ed er = elim (Option-cases (dds_depth p.depth q.history_depth)) [
    | inl e ↦
        fails_at_depth p q eh ed er e ∙ ground (arith, e, depth_result p.depth q.history_depth)
    | inr (n, en) ↦ elim (known_liveliness p.liveliness q.liveliness_kind) [
      | inl (b, e) ↦ fails_at_liveliness p q eh ed er en e ∙ ground (arith, b)
      | inr (b, (l, el)) ↦
          ap (λ (s : EntityQos × Bool). s.1) (fill_all p q eh ed er en el)
          ∙ ground (arith, b, en, depth_result p.depth q.history_depth)
    ]
  ]

  -- A profile is taken exactly if its policies have a translation and its depth fits into an
  -- `int32_t` or is no more than the depth that the entity has already.
  pub fill_entity_qos_result :
      (p : Profile) (q : EntityQos)
      → (fill_entity_qos_from_profile env p q).1 ≡ is_acceptable p q.history_depth
  fill_entity_qos_result p q = elim (known_history p.history q.history_kind) [
    | inl (b, e) ↦ fails_at_history p q e ∙ rw b refl
    | inr (b, (h, eh)) ↦ elim (known_durability p.durability q.durability_kind) [
      | inl (b', e) ↦ fails_at_durability p q eh e ∙ rw (b, b') refl
      | inr (b', (d, ed)) ↦ elim (known_reliability p.reliability q.reliability_kind) [
        | inl (b2, e) ↦ fails_at_reliability p q eh ed e ∙ rw (b, b', b2) refl
        | inr (b2, (r, er)) ↦ fill_depth_and_liveliness p q eh ed er ∙ rw (b, b', b2) refl
      ]
    ]
  ]
