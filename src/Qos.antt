-- ===== src/Qos.antt =====
-- The policies of a profile and those of a Fast DDS entity: fill_entity_qos_from_profile and
-- get_topic_qos of rmw_fastrtps_shared_cpp/src/qos.cpp, dds_qos_to_rmw_qos and rtps_qos_to_rmw_qos of
-- include/rmw_fastrtps_shared_cpp/qos.hpp, and src/time_utils.cpp. The durations of rmw and Fast DDS
-- are the parameters in `Durations`; an `int32_t` is its bit pattern. A switch on a policy has its
-- `default` for the values that no constructor names.
pub mod Profiles
pub mod RoundTrip
pub mod Backends
pub mod Data
mod Tests
use rmw_fastrtps.Prelude.{
  ℕ, ◌+◌, ◌-◌, ◌%◌, ◌^◌, Bool, true, false, not, ◌&&◌, Option, none, some, List, ltb, eqb,
  if◌then◌else◌,
}
use rmw_fastrtps.Rmw.{sign_extend}

-- The policies of `rmw_qos_profile_t`.
pub data History : Type 0 where
  history_system_default history_keep_last history_keep_all history_unknown : History
  history_other : ℕ → History

pub data Durability : Type 0 where
  durability_system_default durability_transient_local durability_volatile : Durability
  durability_unknown : Durability
  durability_other : ℕ → Durability

pub data Reliability : Type 0 where
  reliability_system_default reliability_reliable reliability_best_effort : Reliability
  reliability_unknown : Reliability
  reliability_other : ℕ → Reliability

pub data Liveliness : Type 0 where
  liveliness_system_default liveliness_automatic liveliness_manual_by_topic : Liveliness
  liveliness_unknown : Liveliness
  liveliness_other : ℕ → Liveliness

-- `rmw_time_t` and `Duration_t`.
pub record RmwTime : Type 0 where
  pub sec : ℕ
  pub nsec : ℕ

pub record Duration : Type 0 where
  pub seconds : ℕ
  pub nanosec : ℕ

pub record Profile : Type 0 where
  pub history : History
  pub depth : ℕ
  pub reliability : Reliability
  pub durability : Durability
  pub deadline : RmwTime
  pub lifespan : RmwTime
  pub liveliness : Liveliness
  pub liveliness_lease_duration : RmwTime

-- The kinds of the policies of Fast DDS.
pub data DdsHistory : Type 0 where
  keep_last_history keep_all_history : DdsHistory
  dds_history_other : ℕ → DdsHistory

pub data DdsDurability : Type 0 where
  volatile_durability transient_local_durability : DdsDurability
  dds_durability_other : ℕ → DdsDurability

pub data DdsReliability : Type 0 where
  best_effort_reliability reliable_reliability : DdsReliability
  dds_reliability_other : ℕ → DdsReliability

pub data DdsLiveliness : Type 0 where
  automatic_liveliness manual_by_topic_liveliness : DdsLiveliness
  dds_liveliness_other : ℕ → DdsLiveliness

-- What `TopicQos`, `DataReaderQos` and `DataWriterQos` have in common.
pub record EntityQos : Type 0 where
  pub history_kind : DdsHistory
  pub history_depth : ℕ
  pub durability_kind : DdsDurability
  pub reliability_kind : DdsReliability
  pub lifespan_duration : Duration
  pub deadline_period : Duration
  pub liveliness_kind : DdsLiveliness
  pub lease_duration : Duration
  pub announcement_period : Duration

-- What the code takes from the headers of rmw, rmw_dds_common and Fast DDS: `rmw_time_equal`,
-- `RMW_DURATION_UNSPECIFIED`, `RMW_DURATION_INFINITE`, `clamp_rmw_time_to_dds_time`,
-- `c_RTPSTimeInfinite` with the comparison to it, and two thirds of a duration, which the code
-- computes in floating point.
pub record Durations : Type 0 where
  pub rmw_time_equal : RmwTime → RmwTime → Bool
  pub unspecified : RmwTime
  pub rmw_infinite : RmwTime
  pub clamp_rmw_time_to_dds_time : RmwTime → RmwTime
  pub infinite : Duration
  pub is_infinite : Duration → Bool
  pub two_thirds : Duration → Duration

abbrev pub depth_system_default : ℕ
depth_system_default = 0

abbrev pub int32_max : ℕ
int32_max = 2 ^ 31 - 1

module _ (env : Durations) where
  unfoldable pub rmw_time_to_fastrtps : RmwTime → Duration
  rmw_time_to_fastrtps time =
      if env.rmw_time_equal time env.rmw_infinite
      then env.infinite
      else let clamped_time = env.clamp_rmw_time_to_dds_time time in
        record { seconds = clamped_time.sec % 2 ^ 32; nanosec = clamped_time.nsec % 2 ^ 32 }

  unfoldable pub dds_duration_to_rmw : Duration → RmwTime
  dds_duration_to_rmw duration =
      if env.is_infinite duration
      then env.rmw_infinite
      else record { sec = sign_extend duration.seconds; nsec = duration.nanosec }

  abbrev pub is_rmw_duration_unspecified : RmwTime → Bool
  is_rmw_duration_unspecified time = env.rmw_time_equal time env.unspecified

-- What the switches set; `none` is the error of an unknown policy.
unfoldable pub dds_history : History → DdsHistory → Option DdsHistory
dds_history history_keep_last kind = some keep_last_history
dds_history history_keep_all kind = some keep_all_history
dds_history history_system_default kind = some kind
dds_history _ kind = none

unfoldable pub dds_durability : Durability → DdsDurability → Option DdsDurability
dds_durability durability_transient_local kind = some transient_local_durability
dds_durability durability_volatile kind = some volatile_durability
dds_durability durability_system_default kind = some kind
dds_durability _ kind = none

unfoldable pub dds_reliability : Reliability → DdsReliability → Option DdsReliability
dds_reliability reliability_best_effort kind = some best_effort_reliability
dds_reliability reliability_reliable kind = some reliable_reliability
dds_reliability reliability_system_default kind = some kind
dds_reliability _ kind = none

unfoldable pub dds_liveliness : Liveliness → DdsLiveliness → Option DdsLiveliness
dds_liveliness liveliness_automatic kind = some automatic_liveliness
dds_liveliness liveliness_manual_by_topic kind = some manual_by_topic_liveliness
dds_liveliness liveliness_system_default kind = some kind
dds_liveliness _ kind = none

-- The history depth that is set, or `none` where the requested one exceeds an `int32_t`.
unfoldable pub dds_depth : ℕ → ℕ → Option ℕ
dds_depth depth entity_depth =
    if not (eqb depth depth_system_default) && ltb (sign_extend entity_depth) depth
    then if ltb int32_max depth then none else some depth
    else some entity_depth

-- One policy after the other: a failure leaves those set that came before it.
abbrev pub then_fill : EntityQos × Bool → (EntityQos → EntityQos × Bool) → EntityQos × Bool
then_fill (q, false) next = (q, false)
then_fill (q, true) next = next q

abbrev pub set_or_fail : {A : Type 0} → Option A → (A → EntityQos) → EntityQos → EntityQos × Bool
set_or_fail none set q = (q, false)
set_or_fail (some a) set q = (set a, true)

module _ (env : Durations) where
  unfoldable pub fill_lifespan_and_deadline : Profile → EntityQos → EntityQos
  fill_lifespan_and_deadline p q = record q {
    lifespan_duration =
        if not (is_rmw_duration_unspecified env p.lifespan)
        then rmw_time_to_fastrtps env p.lifespan
        else q.lifespan_duration;
    deadline_period =
        if not (is_rmw_duration_unspecified env p.deadline)
        then rmw_time_to_fastrtps env p.deadline
        else q.deadline_period;
  }

  unfoldable pub fill_lease_duration : Profile → EntityQos → EntityQos
  fill_lease_duration p q =
      if not (is_rmw_duration_unspecified env p.liveliness_lease_duration)
      then (let lease = rmw_time_to_fastrtps env p.liveliness_lease_duration in
          record q { lease_duration = lease; announcement_period = env.two_thirds lease })
      else q

  unfoldable pub fill_entity_qos_from_profile : Profile → EntityQos → EntityQos × Bool
  fill_entity_qos_from_profile p q0 =
      then_fill
        (set_or_fail (dds_history p.history q0.history_kind) (λ k. record q0 { history_kind = k })
          q0)
        (λ q1.
          then_fill
            (set_or_fail (dds_durability p.durability q1.durability_kind)
              (λ k. record q1 { durability_kind = k }) q1)
            (λ q2.
              then_fill
                (set_or_fail (dds_reliability p.reliability q2.reliability_kind)
                  (λ k. record q2 { reliability_kind = k }) q2)
                (λ q3.
                  then_fill
                    (set_or_fail (dds_depth p.depth q3.history_depth)
                      (λ d. record q3 { history_depth = d }) q3)
                    (λ q4.
                      let q5 = fill_lifespan_and_deadline p q4 in
                      then_fill
                        (set_or_fail (dds_liveliness p.liveliness q5.liveliness_kind)
                          (λ k. record q5 { liveliness_kind = k }) q5)
                        (λ q6. (fill_lease_duration p q6, true))))))

  abbrev pub get_topic_qos : Profile → EntityQos → EntityQos × Bool
  get_topic_qos = fill_entity_qos_from_profile

-- The way back.
unfoldable pub rmw_history : DdsHistory → History
rmw_history keep_last_history = history_keep_last
rmw_history keep_all_history = history_keep_all
rmw_history _ = history_unknown

unfoldable pub rmw_durability : DdsDurability → Durability
rmw_durability transient_local_durability = durability_transient_local
rmw_durability volatile_durability = durability_volatile
rmw_durability _ = durability_unknown

unfoldable pub rmw_reliability : DdsReliability → Reliability
rmw_reliability best_effort_reliability = reliability_best_effort
rmw_reliability reliable_reliability = reliability_reliable
rmw_reliability _ = reliability_unknown

unfoldable pub rmw_liveliness : DdsLiveliness → Liveliness
rmw_liveliness automatic_liveliness = liveliness_automatic
rmw_liveliness manual_by_topic_liveliness = liveliness_manual_by_topic
rmw_liveliness _ = liveliness_unknown

module _ (env : Durations) where
  -- It sets every policy of the profile, so the one that is passed in does not show.
  unfoldable pub dds_qos_to_rmw_qos : EntityQos → Profile
  dds_qos_to_rmw_qos q = record {
    history = rmw_history q.history_kind;
    depth = sign_extend q.history_depth;
    reliability = rmw_reliability q.reliability_kind;
    durability = rmw_durability q.durability_kind;
    deadline = dds_duration_to_rmw env q.deadline_period;
    lifespan = dds_duration_to_rmw env q.lifespan_duration;
    liveliness = rmw_liveliness q.liveliness_kind;
    liveliness_lease_duration = dds_duration_to_rmw env q.lease_duration;
  }

  -- `history` is `none` where the announced data have none; the depth then stays as it is.
  unfoldable pub rtps_qos_to_rmw_qos : EntityQos → Option (DdsHistory × ℕ) → Profile → Profile
  unfolding dds_qos_to_rmw_qos
  rtps_qos_to_rmw_qos q history qos =
      let read = dds_qos_to_rmw_qos q in
      elim history [
        | some (kind, depth) ↦ record read { history = rmw_history kind; depth = sign_extend depth }
        | none ↦ record read { history = history_unknown; depth = qos.depth }
      ]
