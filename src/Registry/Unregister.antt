-- ===== src/Registry/Unregister.antt =====
-- What is left of the callbacks of a registrant that has been unregistered.
use rmw_fastrtps.Prelude.{
  ℕ, ◌≡◌, refl, sym, subst, Bool, false, not, if◌then◌else◌, List, [], ◌∷◌, arith, All, Bool-cases,
  inl, inr, list_eq, nat_eq,
}
use rmw_fastrtps.Prelude.Assoc.{find}
use rmw_fastrtps.Text.{Text}
use rmw_fastrtps.Gid.{Gid}
use rmw_fastrtps.Registry.{
  CallbackEntry, BufferEndpointRegistry, entries_of, same_gid, remove_entries, remove_from,
  unregister_callbacks,
}
use rmw_fastrtps.Registry.Fired.{entries_at}

-- The elements of a list that pass a test, in their order.
abbrev pub filter : {A : Type 0} → (A → Bool) → List A → List A
filter f [] = []
filter f (x ∷ xs) = let rest = filter f xs in if f x then x ∷ rest else rest

module _ (identifier : ℕ) (gid : Gid) where
  -- Entries of registrants other than the one with the gid.
  abbrev pub IsOthers : List CallbackEntry → Type 0
  IsOthers = All (λ (e : CallbackEntry). same_gid identifier e.registrant_gid gid ≡ false)

  abbrev pub is_other : CallbackEntry → Bool
  is_other e = not (same_gid identifier e.registrant_gid gid)

  filter-IsOthers : (es : List CallbackEntry) → IsOthers (filter is_other es)
  filter-IsOthers [] = tt
  filter-IsOthers (e ∷ es) =
      let ih = filter-IsOthers es in
      elim (Bool-cases (same_gid identifier e.registrant_gid gid)) [
        | inl h ↦ rw (h) ih
        | inr h ↦ rw (h) (h, ih)
      ]

  remove_entries-filter :
      (es : List CallbackEntry) → remove_entries identifier gid es ≡ filter is_other es
  unfolding remove_entries
  remove_entries-filter [] = refl
  remove_entries-filter (e ∷ es) = ground (arith, remove_entries-filter es)

  others_at :
      (topic : Text) (m : List (Text × List CallbackEntry))
      → entries_at topic (remove_from identifier gid m) ≡ filter is_other (entries_at topic m)
  unfolding remove_from find
  others_at topic [] = refl
  others_at topic ((t, es) ∷ m) = ground (arith, others_at topic m, remove_entries-filter es)

  -- After a registrant has left, no entry of its own is left for any topic, on either side, and for
  -- every topic the entries are those of before whose registrant has another gid, each as often as
  -- before and in the same order.
  pub unregister_callbacks-IsOthers :
      (r : BufferEndpointRegistry) (topic : Text)
      → let r' = unregister_callbacks identifier gid r in
        IsOthers (entries_of topic r'.subscribers)
        × IsOthers (entries_of topic r'.publishers)
        × (entries_of topic r'.subscribers ≡ filter is_other (entries_of topic r.subscribers))
        × (entries_of topic r'.publishers ≡ filter is_other (entries_of topic r.publishers))
  unfolding unregister_callbacks
  unregister_callbacks-IsOthers r topic = (
    subst IsOthers (sym (others_at topic r.subscribers.callbacks))
        (filter-IsOthers (entries_at topic r.subscribers.callbacks)),
    subst IsOthers (sym (others_at topic r.publishers.callbacks))
        (filter-IsOthers (entries_at topic r.publishers.callbacks)),
    others_at topic r.subscribers.callbacks,
    others_at topic r.publishers.callbacks,
  )
