-- ===== src/TypeSupportRegistry/Steps.antt =====
-- The steps that the calls make on the entries and the heap.
use rmw_fastrtps.Prelude.{
  ℕ, ◌<◌, ◌^◌, ◌≡◌, refl, sym, ap, subst, ◌∙◌, none, some, List, arith, if◌then◌else◌, nat_eq, ◌==◌,
  eq_iff, eq_refl, Bool-cases, inl, inr,
}
use rmw_fastrtps.Prelude.Assoc.{find, erase, assign, find-erase, find-assign}
use rmw_fastrtps.TypeSupportRegistry.{
  TypesupportIdentifier, Language, RefCountedTypeSupport, Types, creator_fun, make, delete,
}
use rmw_fastrtps.TypeSupportRegistry.Spec.{Held, hold, count_of, pointer_of, type_at, Implements}

module _ (identifier_of : ℕ → TypesupportIdentifier) where
  pub held_pos :
      (f : Held) (r : Types) (key : ℕ) (item : RefCountedTypeSupport)
      → Implements identifier_of f r
      → find key r.entries ≡ some item
      → 0 < f key
  held_pos f r key item h there = grind (arith, h.absent key, there)

  typed_held :
      (f : Held) (r : Types) (k a : ℕ)
      → Implements identifier_of f r
      → type_at r k ≡ some a
      → 0 < f k
  typed_held f r k a h t = grind (arith, h.absent k, t)

  typed-live :
      (f : Held) (r : Types) (k a : ℕ)
      → Implements identifier_of f r
      → type_at r k ≡ some a
      → (l : Language) × (find a r.heap.live ≡ some l)
  typed-live f r k a h t =
      let (b, l, u, c, e) = h.alive k (typed_held f r k a h t) in
      (l, subst (λ x. find x r.heap.live ≡ some l) (ground (arith, u, t)) e)

  typed_fresh :
      (f : Held) (r : Types) (k a : ℕ)
      → Implements identifier_of f r
      → type_at r k ≡ some a
      → a < r.heap.next
  typed_fresh f r k a h t = let (l, e) = typed-live f r k a h t in h.fresh a l e

  pub Implements-same :
      (f : Held) (r : Types) (m : List (ℕ × RefCountedTypeSupport))
      → Implements identifier_of f r
      → ((k : ℕ) → find k m ≡ find k r.entries)
      → Implements identifier_of f (record r { entries = m })
  Implements-same f r m h e = record {
    counts = λ k. ap count_of (e k) ∙ h.counts k;
    absent = λ k z. e k ∙ h.absent k z;
    alive = λ k p. let (a, l, t, c, live) = h.alive k p in (a, l, ap pointer_of (e k) ∙ t, c, live);
    owned = λ a l g. let (k, t) = h.owned a l g in (k, ap pointer_of (e k) ∙ t);
    single = λ k j a t t'.
        h.single k j a (sym (ap pointer_of (e k)) ∙ t) (sym (ap pointer_of (e j)) ∙ t');
    bounded = h.bounded;
    fresh = h.fresh;
  }

  -- Another count for a handle that is held.
  module _ (f : Held) (r : Types) (key : ℕ) (h : Implements identifier_of f r) (n : ℕ)
      (item : RefCountedTypeSupport) (there : find key r.entries ≡ some item) (pos : 0 < n)
      (small : n < 2 ^ 32) where
    abbrev recounted : Types
    recounted = record r { entries = assign key (record item { ref_count = n }) r.entries }

    found_recounted :
        (k : ℕ)
        → find k recounted.entries
          ≡ (if key == k then some (record item { ref_count = n }) else find k r.entries)
    found_recounted k = find-assign key k (record item { ref_count = n }) r.entries

    typed_recounted : (k : ℕ) → type_at recounted k ≡ type_at r k
    typed_recounted k = ground (arith, found_recounted k, there, eq_iff key k)

    alive_recounted :
        (k : ℕ)
        → 0 < hold key n f k
        → (a : ℕ) × (l : Language) × (type_at recounted k ≡ some a)
          × (creator_fun (identifier_of k) ≡ some l)
          × (find a r.heap.live ≡ some l)
    alive_recounted k p =
        let (a, l, t, c, e) =
          h.alive k (ground (arith, held_pos f r key item h there, eq_iff key k, p)) in
        (a, l, typed_recounted k ∙ t, c, e)

    pub Implements-recount : Implements identifier_of (hold key n f) recounted
    Implements-recount = record {
      counts = λ k. ground (arith, found_recounted k, h.counts k, eq_iff key k);
      absent = λ k e. ground (arith, found_recounted k, h.absent k, eq_iff key k, e);
      alive = alive_recounted;
      owned = λ a l e. let (k, t) = h.owned a l e in (k, typed_recounted k ∙ t);
      single =
          λ k j a e e'. h.single k j a (sym (typed_recounted k) ∙ e) (sym (typed_recounted j) ∙ e');
      bounded = λ k. ground (arith, h.bounded k, small);
      fresh = h.fresh;
    }

  -- A new type support for a handle that is not held.
  module _ (f : Held) (r : Types) (key : ℕ) (h : Implements identifier_of f r) (l : Language)
      (m : List (ℕ × RefCountedTypeSupport)) (unheld : f key ≡ 0)
      (known : creator_fun (identifier_of key) ≡ some l)
      (found : (k : ℕ)
        → find k m ≡ (
            if key == k
            then some (record { type_support = some r.heap.next; ref_count = 1 })
            else find k r.entries)) where
    abbrev created : Types
    created = record { entries = m; heap = (make (some l) r.heap).1 }

    typed_created :
        (k : ℕ) → type_at created k ≡ (if key == k then some r.heap.next else type_at r k)
    typed_created k = ground (arith, found k)

    live_created :
        (a : ℕ)
        → find a created.heap.live ≡ (if r.heap.next == a then some l else find a r.heap.live)
    unfolding find
    live_created a = refl

    alive_created :
        (k : ℕ)
        → 0 < hold key 1 f k
        → (a : ℕ) × (l : Language) × (type_at created k ≡ some a)
          × (creator_fun (identifier_of k) ≡ some l)
          × (find a created.heap.live ≡ some l)
    unfolding find
    alive_created k p = elim (Bool-cases (key == k)) [
      | inl e ↦ (
        r.heap.next,
        l,
        ground (arith, typed_created k, e),
        subst (λ j. creator_fun (identifier_of j) ≡ some l) ((eq_iff key k).0 e) known,
        rw (eq_refl r.heap.next) refl,
      )
      | inr e ↦
          let (a, g, t, c, live) = h.alive k (ground (arith, e, p)) in
          (
            a,
            g,
            ground (arith, typed_created k, e, t),
            c,
            ground (arith, live_created a, h.fresh a g, eq_iff r.heap.next a, live),
          )
    ]

    owned_created :
        (a : ℕ) (g : Language)
        → find a created.heap.live ≡ some g
        → (k : ℕ) × (type_at created k ≡ some a)
    owned_created a g e = elim (Bool-cases (r.heap.next == a)) [
      | inl same ↦ (key, ground (arith, typed_created key, eq_refl key, eq_iff r.heap.next a, same))
      | inr other ↦
          let (k, t) = h.owned a g (ground (arith, live_created a, e, other)) in
          (k, ground (arith, typed_created k, t, typed_held f r k a h t, unheld, eq_iff key k))
    ]

    pub Implements-created : Implements identifier_of (hold key 1 f) created
    Implements-created = record {
      counts = λ k. ground (arith, found k, h.counts k, eq_iff key k);
      absent = λ k e. ground (arith, found k, h.absent k, eq_iff key k, e);
      alive = alive_created;
      owned = owned_created;
      single = λ k j a e e'. ground (
        arith,
        typed_created k,
        typed_created j,
        h.single k j a,
        typed_fresh f r k a h,
        typed_fresh f r j a h,
        eq_iff key k,
        eq_iff key j,
        e,
        e',
      );
      bounded = λ k. ground (arith, h.bounded k);
      fresh = λ a g e. ground (arith, live_created a, eq_iff r.heap.next a, h.fresh a g, e);
    }

  -- The last handle for a type support is given back.
  module _ (f : Held) (r : Types) (key : ℕ) (h : Implements identifier_of f r) (a : ℕ)
      (held : type_at r key ≡ some a) where
    abbrev dropped : Types
    dropped = record { entries = erase key r.entries; heap = delete (some a) r.heap }

    typed_dropped : (k : ℕ) → type_at dropped k ≡ (if key == k then none else type_at r k)
    typed_dropped k = ground (arith, find-erase key k r.entries)

    live_dropped :
        (b : ℕ) → find b dropped.heap.live ≡ (if a == b then none else find b r.heap.live)
    live_dropped b = find-erase a b r.heap.live

    alive_dropped :
        (k : ℕ)
        → 0 < hold key 0 f k
        → (a : ℕ) × (l : Language) × (type_at dropped k ≡ some a)
          × (creator_fun (identifier_of k) ≡ some l)
          × (find a dropped.heap.live ≡ some l)
    alive_dropped k p =
        let (b, g, t, c, live) = h.alive k (ground (arith, eq_iff key k, p)) in
        (
          b,
          g,
          ground (arith, typed_dropped k, t, p),
          c,
          ground
              (arith, live_dropped b, h.single key k a, eq_iff a b, eq_iff key k, live, t, p, held),
        )

    owned_dropped :
        (b : ℕ) (g : Language)
        → find b dropped.heap.live ≡ some g
        → (k : ℕ) × (type_at dropped k ≡ some b)
    owned_dropped b g e =
        let (k, t) = h.owned b g (ground (arith, live_dropped b, e)) in
        (k, ground (arith, typed_dropped k, live_dropped b, t, e, held, eq_iff a b, eq_iff key k))

    pub Implements-dropped : Implements identifier_of (hold key 0 f) dropped
    Implements-dropped = record {
      counts = λ k. ground (arith, find-erase key k r.entries, h.counts k);
      absent = λ k e. ground (arith, find-erase key k r.entries, h.absent k, e);
      alive = alive_dropped;
      owned = owned_dropped;
      single =
          λ k j b e e'. ground (arith, typed_dropped k, typed_dropped j, h.single k j b, e, e');
      bounded = λ k. ground (arith, h.bounded k);
      fresh = λ b g e. h.fresh b g (ground (arith, live_dropped b, e));
    }
