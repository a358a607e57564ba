-- ===== src/Participant/Calls.antt =====
-- The calls that find, create and delete the topics of a participant, one after the other
-- (rmw_fastrtps_shared_cpp/src/custom_participant_info.cpp).
use rmw_fastrtps.Prelude.{
  ℕ, ◌+◌, ◌-◌, ◌^◌, ◌<◌, ◌≤◌, ◌≡◌, refl, subst, true, Option, none, some, List, [], ◌∷◌, length,
  arith, ◌==◌, nat_eq, list_eq, inl, inr, Option-cases,
}
use rmw_fastrtps.Prelude.Assoc.{find}
use rmw_fastrtps.Text.{Text}
use rmw_fastrtps.Participant.{TopicMap, find_or_create_topic, delete_topic}
use rmw_fastrtps.Participant.Topics.{
  IsUsed, uses, one_if, IsUseResult, find_or_create_topic-IsUseResult, delete_topic-IsOneLess,
}

-- The calls of a participant's clients, services, publishers and subscriptions.
pub data TopicCall : Type 0 where
  find_or_create : Text → Option ℕ → TopicCall
  delete : Text → Option ℕ → TopicCall

-- The calls, the last one first, for a participant whose topics can all be created.
unfoldable pub call_all : List TopicCall → TopicMap → Option TopicMap
unfolding find_or_create_topic delete_topic
call_all [] topics = some topics
call_all (find_or_create k l ∷ calls) topics = elim (call_all calls topics) [
  | none ↦ none
  | some t ↦ find_or_create_topic (λ name. true) k l t
]
call_all (delete k l ∷ calls) topics = elim (call_all calls topics) [
  | none ↦ none
  | some t ↦ some (delete_topic k l t)
]

-- How often a topic is used after the calls: a deletion of a topic that is not used is ignored.
abbrev pub tally : Text → List TopicCall → ℕ
tally name [] = 0
tally name (find_or_create k l ∷ calls) = tally name calls + one_if (k == name)
tally name (delete k l ∷ calls) = tally name calls - one_if (k == name)

abbrev pub IsTallied : List TopicCall → Option TopicMap → Type 0
IsTallied calls none = ⊥
IsTallied calls (some t) = IsUsed t × ((name : Text) → uses name t ≡ tally name calls)

tally_le : (name : Text) (calls : List TopicCall) → tally name calls ≤ length calls
tally_le name [] = omega arith
tally_le name (find_or_create k l ∷ calls) = ground (arith, tally_le name calls)
tally_le name (delete k l ∷ calls) = ground (arith, tally_le name calls)

-- Whatever fewer than 2 ^ 64 calls find or create topics and delete them, where Fast DDS creates each
-- topic that it is asked for, none of them fails, and from an empty map the use count of each topic
-- is that of the uses that are not deleted: a topic is in the map, with a positive count, exactly as
-- long as somebody uses it.
pub call_all-IsTallied :
    (calls : List TopicCall) → length calls < 2 ^ 64 → IsTallied calls (call_all calls [])
unfolding call_all find
call_all-IsTallied [] h = ((λ name it e. absurd (ground (arith, e))), λ name. refl)
call_all-IsTallied (find_or_create k l ∷ calls) h =
    let before = call_all-IsTallied calls (omega arith) in
    elim (Option-cases (call_all calls [])) [
      | inl e ↦ absurd (subst (IsTallied calls) e before)
      | inr (t, e) ↦
          let (used, tallied) = subst (IsTallied calls) e before in
          let bound : uses k t + 1 < 2 ^ 64 = omega (arith, tallied k, tally_le k calls) in
          let made = find_or_create_topic-IsUseResult (λ name. true) k l t used bound in
          elim (Option-cases (find_or_create_topic (λ name. true) k l t)) [
            | inl e' ↦ absurd (ground (arith, subst (IsUseResult (λ name. true) k t) e' made))
            | inr (t', e') ↦
                let more = subst (IsUseResult (λ name. true) k t) e' made in
                rw (call_all, e, e')
                  (more.used, λ name. omega (arith, more.more name, tallied name))
          ]
    ]
call_all-IsTallied (delete k l ∷ calls) h =
    let before = call_all-IsTallied calls (omega arith) in
    elim (Option-cases (call_all calls [])) [
      | inl e ↦ absurd (subst (IsTallied calls) e before)
      | inr (t, e) ↦
          let (used, tallied) = subst (IsTallied calls) e before in
          let less = delete_topic-IsOneLess k l t used in
          rw (call_all, e) (less.used, λ name. omega (arith, less.less name, tallied name))
    ]
