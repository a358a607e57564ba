-- ===== src/TypeSupportRegistry/Cleanup.antt =====
-- The registry from its construction to its destruction.
use rmw_fastrtps.Prelude.{
  ℕ, ◌≡◌, refl, Option, none, some, List, [], ◌∷◌, arith, nat_eq, ◌==◌, eq_iff, Option-cases, inl,
  inr, Bool-cases,
}
use rmw_fastrtps.Prelude.Assoc.{find, find-erase}
use rmw_fastrtps.TypeSupportRegistry.{
  TypesupportIdentifier, RefCountedTypeSupport, Heap, Types, delete, delete_all, cleanup,
}
use rmw_fastrtps.TypeSupportRegistry.Spec.{Call, Held, pointer_of, run, replay, Implements}
use rmw_fastrtps.TypeSupportRegistry.Refinement.{run-Implements}

abbrev pub empty_types : Types
empty_types = record { entries = []; heap = record { live = []; next = 0 } }

abbrev pub none_held : Held
none_held k = 0

pub empty-Implements :
    (identifier_of : ℕ → TypesupportIdentifier) → Implements identifier_of none_held empty_types
unfolding find
empty-Implements identifier_of = record {
  counts = λ k. refl;
  absent = λ k e. refl;
  alive = λ k p. absurd (omega (arith, p));
  owned = λ a l e. absurd (ground (arith, e));
  single = λ k j a e e'. absurd (ground (arith, e));
  bounded = λ k. omega arith;
  fresh = λ a l e. absurd (ground (arith, e));
}

delete_keeps :
    (o : Option ℕ) (h : Heap) (b : ℕ) → find b h.live ≡ none → find b (delete o h).live ≡ none
delete_keeps none h b e = e
delete_keeps (some a) h b e = ground (arith, find-erase a b h.live, e)

delete_all_keeps :
    (m : List (ℕ × RefCountedTypeSupport)) (h : Heap) (b : ℕ)
    → find b h.live ≡ none
    → find b (delete_all m h).live ≡ none
delete_all_keeps [] h b e = e
delete_all_keeps ((key, item) ∷ m) h b e =
    delete_all_keeps m _ b (delete_keeps item.type_support h b e)

delete_found : (o : Option ℕ) (h : Heap) (b : ℕ) → o ≡ some b → find b (delete o h).live ≡ none
delete_found none h b e = absurd (ground (arith, e))
delete_found (some a) h b e = ground (arith, find-erase a b h.live, eq_iff a b, e)

delete_all_found :
    (m : List (ℕ × RefCountedTypeSupport)) (h : Heap) (k b : ℕ)
    → pointer_of (find k m) ≡ some b
    → find b (delete_all m h).live ≡ none
unfolding find
delete_all_found [] h k b e = absurd (ground (arith, e))
delete_all_found ((key, item) ∷ m) h k b e = elim (Bool-cases (key == k)) [
  | inl same ↦ delete_all_keeps m _ b (delete_found item.type_support h b (ground (arith, e, same)))
  | inr other ↦ delete_all_found m _ k b (ground (arith, e, other))
]

cleanup-Implements :
    (identifier_of : ℕ → TypesupportIdentifier) (f : Held) (r : Types)
    → Implements identifier_of f r
    → (a : ℕ) → find a (cleanup r).heap.live ≡ none
unfolding cleanup
cleanup-Implements identifier_of f r h a = elim (Option-cases (find a r.heap.live)) [
  | inl dead ↦ delete_all_keeps r.entries r.heap a dead
  | inr (l, live) ↦ let (k, t) = h.owned a l live in delete_all_found r.entries r.heap k a t
]

-- No type support is leaked: after any calls of clients that give back only what they hold, and hold
-- no handle more than 2 ^ 32 - 1 times, the destruction of the registry leaves no type support alive,
-- and where the clients hold nothing any more, none is alive before it either.
pub run-cleanup :
    (identifier_of : ℕ → TypesupportIdentifier) (calls : List Call) (g : Held)
    → replay identifier_of calls none_held ≡ some g
    → (r : Types) × (run identifier_of calls empty_types ≡ some r)
      × ((a : ℕ) → find a (cleanup r).heap.live ≡ none)
      × (((k : ℕ) → g k ≡ 0) → (a : ℕ) → find a r.heap.live ≡ none)
run-cleanup identifier_of calls g e =
    let (r, done, h) =
      run-Implements identifier_of calls none_held g empty_types (empty-Implements identifier_of)
        e in
    (r, done, cleanup-Implements identifier_of g r h, λ free a. none_alive g r h free a)
  where
    none_alive :
        (g : Held) (r : Types)
        → Implements identifier_of g r
        → ((k : ℕ) → g k ≡ 0)
        → (a : ℕ) → find a r.heap.live ≡ none
    none_alive g r h free a = elim (Option-cases (find a r.heap.live)) [
      | inl dead ↦ dead
      | inr (l, live) ↦
          let (k, t) = h.owned a l live in absurd (ground (arith, h.absent k (free k), t))
    ]
