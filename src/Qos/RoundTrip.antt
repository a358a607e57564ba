-- ===== src/Qos/RoundTrip.antt =====
-- A profile that is written into an entity is read back from it.
use rmw_fastrtps.Prelude.{
  ℕ, ◌^◌, ◌≤◌, ◌<◌, ◌≡◌, ◌≢◌, refl, ◌∙◌, ◌⊎◌, inl, inr, true, false, some, arith, Bool-cases,
}
use Prim.Native.Nat.{max}
use rmw_fastrtps.Rmw.{sign_extend}
use rmw_fastrtps.Qos.{
  DdsDurability, DdsHistory, DdsLiveliness, DdsReliability, Durability, Duration, Durations,
  EntityQos, History, Liveliness, Profile, Reliability, RmwTime, dds_depth, dds_durability,
  dds_duration_to_rmw, dds_history, dds_liveliness, dds_qos_to_rmw_qos, dds_reliability,
  fill_entity_qos_from_profile, fill_lease_duration, fill_lifespan_and_deadline, int32_max,
  rmw_durability, rmw_history, rmw_liveliness, rmw_reliability, rmw_time_to_fastrtps,
  history_keep_last, history_keep_all, durability_transient_local, durability_volatile,
  reliability_reliable, reliability_best_effort, liveliness_automatic, liveliness_manual_by_topic,
  keep_last_history, keep_all_history, volatile_durability, transient_local_durability,
  best_effort_reliability, reliable_reliability, automatic_liveliness, manual_by_topic_liveliness,
}
use rmw_fastrtps.Qos.Profiles.{filled, fill_all, depth_result}

-- What the durations promise: equality is reflexive, the infinite duration is known as such and no
-- other is, and a normal duration of at most the largest `int32_t` of seconds is not clamped.
pub record IsDurations (env : Durations) : Type 0 where
  pub equal_refl : (t : RmwTime) → env.rmw_time_equal t t ≡ true
  pub infinite_is_infinite : env.is_infinite env.infinite ≡ true
  pub only_infinite : (d : Duration) → env.is_infinite d ≡ true → d ≡ env.infinite
  pub clamp_small :
      (t : RmwTime) → t.sec ≤ int32_max → t.nsec < 10 ^ 9 → env.clamp_rmw_time_to_dds_time t ≡ t

-- A duration that Fast DDS can hold: specified, and infinite or normal and not the one that stands
-- for infinity.
pub record IsFinite (env : Durations) (t : RmwTime) : Type 0 where
  pub not_infinite : env.rmw_time_equal t env.rmw_infinite ≡ false
  pub small : t.sec ≤ int32_max
  pub normal : t.nsec < 10 ^ 9
  pub not_dds_infinite : record { seconds = t.sec; nanosec = t.nsec } ≢ env.infinite

abbrev pub IsDuration : Durations → RmwTime → Type 0
IsDuration env t =
    (env.rmw_time_equal t env.unspecified ≡ false) × ((t ≡ env.rmw_infinite) ⊎ IsFinite env t)

-- A profile that names every policy.
pub record IsExplicit (env : Durations) (p : Profile) : Type 0 where
  pub names_history : (p.history ≡ history_keep_last) ⊎ (p.history ≡ history_keep_all)
  pub names_durability :
      (p.durability ≡ durability_transient_local) ⊎ (p.durability ≡ durability_volatile)
  pub names_reliability :
      (p.reliability ≡ reliability_reliable) ⊎ (p.reliability ≡ reliability_best_effort)
  pub names_liveliness :
      (p.liveliness ≡ liveliness_automatic) ⊎ (p.liveliness ≡ liveliness_manual_by_topic)
  pub small_depth : p.depth ≤ int32_max
  pub names_deadline : IsDuration env p.deadline
  pub names_lifespan : IsDuration env p.lifespan
  pub names_lease : IsDuration env p.liveliness_lease_duration

history_back :
    (a : History) (k : DdsHistory)
    → (a ≡ history_keep_last) ⊎ (a ≡ history_keep_all)
    → (h : DdsHistory) × ((dds_history a k ≡ some h) × (rmw_history h ≡ a))
unfolding dds_history rmw_history
history_back a k (inl e) = rw e (keep_last_history, (refl, refl))
history_back a k (inr e) = rw e (keep_all_history, (refl, refl))

durability_back :
    (a : Durability) (k : DdsDurability)
    → (a ≡ durability_transient_local) ⊎ (a ≡ durability_volatile)
    → (h : DdsDurability) × ((dds_durability a k ≡ some h) × (rmw_durability h ≡ a))
unfolding dds_durability rmw_durability
durability_back a k (inl e) = rw e (transient_local_durability, (refl, refl))
durability_back a k (inr e) = rw e (volatile_durability, (refl, refl))

reliability_back :
    (a : Reliability) (k : DdsReliability)
    → (a ≡ reliability_reliable) ⊎ (a ≡ reliability_best_effort)
    → (h : DdsReliability) × ((dds_reliability a k ≡ some h) × (rmw_reliability h ≡ a))
unfolding dds_reliability rmw_reliability
reliability_back a k (inl e) = rw e (reliable_reliability, (refl, refl))
reliability_back a k (inr e) = rw e (best_effort_reliability, (refl, refl))

liveliness_back :
    (a : Liveliness) (k : DdsLiveliness)
    → (a ≡ liveliness_automatic) ⊎ (a ≡ liveliness_manual_by_topic)
    → (h : DdsLiveliness) × ((dds_liveliness a k ≡ some h) × (rmw_liveliness h ≡ a))
unfolding dds_liveliness rmw_liveliness
liveliness_back a k (inl e) = rw e (automatic_liveliness, (refl, refl))
liveliness_back a k (inr e) = rw e (manual_by_topic_liveliness, (refl, refl))

depth_back :
    (depth entity_depth : ℕ)
    → depth ≤ int32_max
    → entity_depth ≤ int32_max
    → (dds_depth depth entity_depth ≡ some (max depth entity_depth))
      × (sign_extend (max depth entity_depth) ≡ max depth entity_depth)
depth_back depth entity_depth small small' = ground (arith, depth_result depth entity_depth)

module _ (env : Durations) (laws : IsDurations env) where
  infinite_back :
      dds_duration_to_rmw env (rmw_time_to_fastrtps env env.rmw_infinite) ≡ env.rmw_infinite
  unfolding dds_duration_to_rmw rmw_time_to_fastrtps
  infinite_back = rw (
    laws.equal_refl env.rmw_infinite,
    laws.infinite_is_infinite,
    rmw_time_to_fastrtps,
    dds_duration_to_rmw,
  )

  finite_out :
      (t : RmwTime)
      → IsFinite env t
      → rmw_time_to_fastrtps env t ≡ record { seconds = t.sec; nanosec = t.nsec }
  unfolding rmw_time_to_fastrtps
  finite_out t f =
      rw (f.not_infinite, laws.clamp_small t f.small f.normal, rmw_time_to_fastrtps)
        (ground (arith, f.small, f.normal))

  finite_in :
      (t : RmwTime)
      → IsFinite env t
      → dds_duration_to_rmw env (record { seconds = t.sec; nanosec = t.nsec }) ≡ t
  unfolding dds_duration_to_rmw
  finite_in t f =
      elim (Bool-cases (env.is_infinite (record { seconds = t.sec; nanosec = t.nsec }))) [
        | inl e ↦ absurd (f.not_dds_infinite (laws.only_infinite _ e))
        | inr e ↦ rw (e, dds_duration_to_rmw) (ground (arith, f.small))
      ]

  duration_back :
      (t : RmwTime) → IsDuration env t → dds_duration_to_rmw env (rmw_time_to_fastrtps env t) ≡ t
  duration_back t (specified, inl e) = rw e infinite_back
  duration_back t (specified, inr f) = rw (finite_out t f) (finite_in t f)

  filled_back :
      (p : Profile) (q : EntityQos) (h : DdsHistory) (d : DdsDurability) (r : DdsReliability)
      (n : ℕ) (l : DdsLiveliness)
      → IsExplicit env p
      → dds_qos_to_rmw_qos env (filled env p q h d r n l) ≡ record p {
        history = rmw_history h;
        depth = sign_extend n;
        reliability = rmw_reliability r;
        durability = rmw_durability d;
        liveliness = rmw_liveliness l;
      }
  unfolding fill_lease_duration fill_lifespan_and_deadline dds_qos_to_rmw_qos
  filled_back p q h d r n l x =
      rw
        (
          x.names_lease.0,
          x.names_deadline.0,
          x.names_lifespan.0,
          dds_qos_to_rmw_qos,
          fill_lease_duration,
          fill_lifespan_and_deadline,
          duration_back p.deadline x.names_deadline,
          duration_back p.lifespan x.names_lifespan,
          duration_back p.liveliness_lease_duration x.names_lease,
        )
        refl

  -- A profile that names every policy is taken, and the policies read back from the entity are
  -- those of the profile, with the larger of its depth and the depth that the entity had.
  pub dds_qos_to_rmw_qos-fill :
      (p : Profile) (q : EntityQos)
      → IsExplicit env p
      → q.history_depth ≤ int32_max
      → let filling = fill_entity_qos_from_profile env p q in
        (filling.1 ≡ true)
        × (dds_qos_to_rmw_qos env filling.0 ≡ record p { depth = max p.depth q.history_depth })
  dds_qos_to_rmw_qos-fill p q x small =
      let (h, (eh, bh)) = history_back p.history q.history_kind x.names_history in
      let (d, (ed, bd)) = durability_back p.durability q.durability_kind x.names_durability in
      let (r, (er, br)) = reliability_back p.reliability q.reliability_kind x.names_reliability in
      let (l, (el, bl)) = liveliness_back p.liveliness q.liveliness_kind x.names_liveliness in
      let (en, bn) = depth_back p.depth q.history_depth x.small_depth small in
      rw (fill_all env p q eh ed er en el)
        (refl, filled_back p q h d r _ l x ∙ rw (bh, bd, br, bl, bn) refl)
