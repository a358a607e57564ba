-- ===== src/Event/Publisher/Matched.antt =====
-- What a notification of matched endpoints does to a publisher's events.
use rmw_fastrtps.Prelude.{◌≡◌, ap, ◌∙◌, ◌⊎◌, inl, inr, eqb, Bool-cases, if◌then◌else◌}
use rmw_fastrtps.Rmw.{Guid, guid_eq}
use rmw_fastrtps.Service.Listener.{minus_one}
use rmw_fastrtps.Event.{MatchedStatus}
use rmw_fastrtps.Event.Publisher.{
  PublisherEvent, update_publication_matched, track_unique_subscription,
  untrack_unique_subscription, on_publication_matched,
}

pub matched_cases :
    (s : MatchedStatus) (guid : Guid) (p : PublisherEvent)
    → (on_publication_matched s guid p
        ≡ update_publication_matched s (track_unique_subscription guid p))
      ⊎ (on_publication_matched s guid p
          ≡ update_publication_matched s (untrack_unique_subscription guid p))
      ⊎ (on_publication_matched s guid p ≡ p)
unfolding on_publication_matched
matched_cases s guid p = elim (Bool-cases (eqb s.current_count_change 1)) [
  | inl e ↦ inl (
      ap
        (λ b.
          if b
          then update_publication_matched s (track_unique_subscription guid p)
          else if eqb s.current_count_change minus_one
          then update_publication_matched s (untrack_unique_subscription guid p)
          else p)
        e)
  | inr e ↦ elim (Bool-cases (eqb s.current_count_change minus_one)) [
    | inl e' ↦ inr (
        inl (
          ap
            (λ b.
              if b
              then update_publication_matched s (track_unique_subscription guid p)
              else if eqb s.current_count_change minus_one
              then update_publication_matched s (untrack_unique_subscription guid p)
              else p)
            e
          ∙ ap
              (λ b.
                if b then update_publication_matched s (untrack_unique_subscription guid p) else p)
              e'))
    | inr e' ↦ inr (
        inr (
          ap
            (λ b.
              if b
              then update_publication_matched s (track_unique_subscription guid p)
              else if eqb s.current_count_change minus_one
              then update_publication_matched s (untrack_unique_subscription guid p)
              else p)
            e
          ∙ ap
              (λ b.
                if b then update_publication_matched s (untrack_unique_subscription guid p) else p)
              e'))
  ]
]
