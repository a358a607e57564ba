-- ===== src/TypeSupportRegistry/Refinement.antt =====
-- The registry counts the handles that its clients hold.
use rmw_fastrtps.Prelude.{
  ℕ, ◌+◌, ◌-◌, ◌%◌, ◌<◌, ◌^◌, ◌≡◌, false, refl, sym, ap, subst, ◌∙◌, Option, none, some, List, [],
  ◌∷◌, arith, ltb, eqb, nat_eq, eq_iff, Option-cases, Bool-cases, inl, inr,
}
use rmw_fastrtps.Prelude.Assoc.{find, assign, find-erase, find-assign}
use rmw_fastrtps.TypeSupportRegistry.{
  TypesupportIdentifier, Language, RefCountedTypeSupport, Types, creator_fun, item_at, release,
  counted, get_type_support_item, get_type_support, return_type_support,
}
use rmw_fastrtps.TypeSupportRegistry.Spec.{
  Call, get, give_back, Held, hold, count_of, pointer_of, run, held_after_get, replay, Implements,
}
use rmw_fastrtps.TypeSupportRegistry.Steps.{
  held_pos, Implements-same, Implements-recount, Implements-created, Implements-dropped,
}

module _ (identifier_of : ℕ → TypesupportIdentifier) where
  get_known :
      (f : Held) (r : Types) (key : ℕ) (item : RefCountedTypeSupport)
      → Implements identifier_of f r
      → find key r.entries ≡ some item
      → f key + 1 < 2 ^ 32
      → Implements identifier_of
          (held_after_get (creator_fun (identifier_of key)) key f)
          (get_type_support identifier_of key r).1
  unfolding get_type_support get_type_support_item
  get_known f r key item h there small =
      let (a, l, t, c, live) = h.alive key (held_pos identifier_of f r key item h there) in
      rw (there, c, nonzero, plus)
        (Implements-recount identifier_of f r key h (f key + 1) item there (omega arith) small)
    where
      same : item.ref_count ≡ f key
      same = sym (ap count_of there) ∙ h.counts key

      nonzero : eqb item.ref_count 0 ≡ false
      nonzero = ground (arith, held_pos identifier_of f r key item h there, same)

      plus : (item.ref_count + 1) % 2 ^ 32 ≡ f key + 1
      plus = omega (arith, same)

  get_new :
      (f : Held) (r : Types) (key : ℕ)
      → Implements identifier_of f r
      → find key r.entries ≡ none
      → (o : Option Language) → creator_fun (identifier_of key) ≡ o
      → Implements identifier_of
          (held_after_get o key f)
          (get_type_support_item o key (item_at none) r).1
  unfolding get_type_support_item
  get_new f r key h missing none e = Implements-same identifier_of f r _ h (λ k. ground (
    arith,
    find-erase key k (assign key (counted 1 (item_at none)) r.entries),
    find-assign key k (counted 1 (item_at none)) r.entries,
    missing,
    eq_iff key k,
  ))
  get_new f r key h missing (some l) e = rw unheld (
      Implements-created identifier_of f r key h l _ unheld e (λ k. ground (
        arith,
        find-assign key k (record { type_support = some r.heap.next; ref_count = 1 })
            (assign key (counted 1 (item_at none)) r.entries),
        find-assign key k (counted 1 (item_at none)) r.entries,
      )))
    where
      unheld : f key ≡ 0
      unheld = sym (h.counts key) ∙ ap count_of missing

  return_step :
      (f : Held) (r : Types) (key : ℕ) (item : RefCountedTypeSupport)
      → Implements identifier_of f r
      → find key r.entries ≡ some item
      → Implements identifier_of
          (hold key (f key - 1) f)
          (release key (counted (2 ^ 32 - 1) item) r)
  unfolding release
  return_step f r key item h there =
      elim (Bool-cases (eqb ((item.ref_count + (2 ^ 32 - 1)) % 2 ^ 32) 0)) [
        | inl e ↦
            let (a, l, t, c, live) = h.alive key (held_pos identifier_of f r key item h there) in
            let none_left : f key - 1 ≡ 0 = ground (arith, less, e) in
            rw (e, ap pointer_of (sym there) ∙ t, none_left)
              (Implements-dropped identifier_of f r key h a t)
        | inr e ↦
            rw (e, ← less)
              (Implements-recount identifier_of f r key h _ item there (ground (arith, e))
                (omega arith))
      ]
    where
      same : item.ref_count ≡ f key
      same = sym (ap count_of there) ∙ h.counts key

      less : (item.ref_count + (2 ^ 32 - 1)) % 2 ^ 32 ≡ f key - 1
      less = omega (arith, same, h.bounded key, held_pos identifier_of f r key item h there)

  return_found :
      (key : ℕ) (r : Types) (item : RefCountedTypeSupport)
      → find key r.entries ≡ some item
      → return_type_support key r ≡ some (release key (counted (2 ^ 32 - 1) item) r)
  unfolding return_type_support
  return_found key r item there = rw (return_type_support, there) refl

  get_step :
      (f : Held) (r : Types) (key : ℕ)
      → Implements identifier_of f r
      → f key + 1 < 2 ^ 32
      → Implements identifier_of
          (held_after_get (creator_fun (identifier_of key)) key f)
          (get_type_support identifier_of key r).1
  unfolding get_type_support
  get_step f r key h small = elim (Option-cases (find key r.entries)) [
    | inl missing ↦ rw missing (get_new f r key h missing (creator_fun (identifier_of key)) refl)
    | inr (item, there) ↦ get_known f r key item h there small
  ]

  -- Whatever the clients do, from a registry that implements the handles they hold: as long as they
  -- give back only what they hold, and hold no handle more than 2 ^ 32 - 1 times, no assertion fails,
  -- and the registry implements the handles that are then held.
  pub run-Implements :
      (calls : List Call) (f g : Held) (r : Types)
      → Implements identifier_of f r
      → replay identifier_of calls f ≡ some g
      → (r' : Types) × (run identifier_of calls r ≡ some r') × Implements identifier_of g r'
  unfolding run replay
  run-Implements [] f g r h e =
      (r, refl, subst (λ x. Implements identifier_of x r) (ground (arith, e)) h)
  run-Implements (get key ∷ calls) f g r h e = elim (Bool-cases (ltb (f key + 1) (2 ^ 32))) [
    | inl small ↦
        run-Implements calls _ g _ (get_step f r key h (ground (arith, small)))
          (ground (arith, e, small))
    | inr large ↦ absurd (ground (arith, e, large))
  ]
  run-Implements (give_back key ∷ calls) f g r h e = elim (Bool-cases (eqb (f key) 0)) [
    | inl unheld ↦ absurd (ground (arith, e, unheld))
    | inr held ↦ elim (Option-cases (find key r.entries)) [
      | inl missing ↦ absurd (ground (arith, h.counts key, missing, held))
      | inr (item, there) ↦
          rw (run, return_found key r item there)
            (run-Implements calls _ g _ (return_step f r key item h there)
              (ground (arith, e, held)))
    ]
  ]
