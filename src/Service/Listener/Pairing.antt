-- ===== src/Service/Listener/Pairing.antt =====
-- The map of endpoints pairs each reader of a client with its writer, and each writer with its
-- reader.
use rmw_fastrtps.Prelude.{
  ℕ, ◌≡◌, ◌≢◌, ◌⊎◌, inl, inr, none, some, List, [], arith, eqb, Bool-cases, Option-cases, ◌==◌,
  eq_iff, if◌then◌else◌,
}
use rmw_fastrtps.Prelude.Assoc.{find, erase, emplace, find-erase, find-emplace}
use rmw_fastrtps.Rmw.{Guid, guid_eq}
use rmw_fastrtps.Service.Listener.{
  ServicePubListener, ListenerCall, publication_matched, subscription_matched, request_taken,
  erase_pair, on_publication_matched, on_subscription_matched, endpoint_erase_if_exists, apply,
  minus_one,
}

pub record IsPaired (endpoints : List (Guid × Guid)) : Type 0 where
  pub back : (a b : Guid) → find a endpoints ≡ some b → find b endpoints ≡ some a

pub IsPaired-nil : IsPaired []
unfolding find
IsPaired-nil = record { back = λ a b h. cc }

pub find-erase_pair :
    (g h : Guid) (m : List (Guid × Guid))
    → find g m ≡ some h
    → (j : Guid)
    → find j (erase_pair g m) ≡ (if g == j then none else if h == j then none else find j m)
unfolding erase_pair
find-erase_pair g h m e j = rw (e, erase_pair) (rw (find-erase g j (erase h m), find-erase h j m))

pub erase_pair-IsPaired :
    (g : Guid) (m : List (Guid × Guid)) → IsPaired m → IsPaired (erase_pair g m)
unfolding erase_pair
erase_pair-IsPaired g m p = elim (Option-cases (find g m)) [
  | inl absent ↦ rw (absent, erase_pair) p
  | inr (h, e) ↦ record {
    back = λ a b found. ground (
      arith,
      e,
      p.back g h,
      p.back a b,
      find-erase_pair g h m e a,
      find-erase_pair g h m e b,
      eq_iff g a,
      eq_iff h a,
      eq_iff g b,
      eq_iff h b,
    );
  }
]

-- A reader and a writer that are both new, or are a pair already.
abbrev pub IsNewPair : Guid → Guid → List (Guid × Guid) → Type 0
IsNewPair reader writer m =
    (reader ≢ writer)
    × (((find reader m ≡ none) × (find writer m ≡ none)) ⊎ (find reader m ≡ some writer))

find-add_pair :
    (r w : Guid) (m : List (Guid × Guid))
    → IsNewPair r w m
    → IsPaired m
    → (j : Guid)
    → find j (emplace w r (emplace r w m))
      ≡ (if w == j then some r else if r == j then some w else find j m)
find-add_pair r w m (ne, inl (no_r, no_w)) p j =
    rw (find-emplace w j r (emplace r w m), find-emplace r w w m, find-emplace r j w m, no_r)
      (ground (arith, no_w, ne, eq_iff r w, eq_iff w j, eq_iff r j))
find-add_pair r w m (ne, inr pair) p j =
    rw (find-emplace w j r (emplace r w m), find-emplace r w w m, find-emplace r j w m, pair)
      (ground (arith, ne, pair, p.back r w, eq_iff r w, eq_iff w j, eq_iff r j))

add_pair-IsPaired :
    (r w : Guid) (m : List (Guid × Guid))
    → IsNewPair r w m
    → IsPaired m
    → IsPaired (emplace w r (emplace r w m))
add_pair-IsPaired r w m new p = record {
  back = λ a b found. ground (
    arith,
    find-add_pair r w m new p a,
    find-add_pair r w m new p b,
    new,
    p.back a b,
    p.back b a,
    p.back r w,
    eq_iff w a,
    eq_iff r a,
    eq_iff w b,
    eq_iff r b,
  );
}

-- What is asked of a call: a request that is taken names a pair that is new or known.
abbrev pub IsAllowed : ServicePubListener → ListenerCall → Type 0
IsAllowed l (request_taken reader writer) = IsNewPair reader writer l.clients_endpoints
IsAllowed l _ = Unit

-- A listener that such calls have led to.
pub data Reach (l : ServicePubListener) : ServicePubListener → Type 0 where
  here : Reach l l
  next :
      {m : ServicePubListener}
      → Reach l m
      → (c : ListenerCall) → IsAllowed m c
      → Reach l (apply m c)

matched-IsPaired :
    (l : ServicePubListener) (change : ℕ) (guid : Guid)
    → IsPaired l.clients_endpoints
    → IsPaired (on_publication_matched l change guid).clients_endpoints
unfolding on_publication_matched
matched-IsPaired l change guid p = elim (Bool-cases (eqb change 1)) [
  | inl e ↦ rw (e, on_publication_matched) p
  | inr e ↦ elim (Bool-cases (eqb change minus_one)) [
    | inl e' ↦ rw (e, e', on_publication_matched) (erase_pair-IsPaired guid l.clients_endpoints p)
    | inr e' ↦ rw (e, e', on_publication_matched) p
  ]
]

unmatched-IsPaired :
    (l : ServicePubListener) (change : ℕ) (guid : Guid)
    → IsPaired l.clients_endpoints
    → IsPaired (on_subscription_matched l change guid).clients_endpoints
unfolding on_subscription_matched endpoint_erase_if_exists
unmatched-IsPaired l change guid p = elim (Bool-cases (eqb change minus_one)) [
  | inl e ↦ rw (e, on_subscription_matched) (erase_pair-IsPaired guid l.clients_endpoints p)
  | inr e ↦ rw (e, on_subscription_matched) p
]

apply-IsPaired :
    (l : ServicePubListener) (c : ListenerCall)
    → IsAllowed l c
    → IsPaired l.clients_endpoints
    → IsPaired (apply l c).clients_endpoints
unfolding apply
apply-IsPaired l (publication_matched change guid) a p = matched-IsPaired l change guid p
apply-IsPaired l (subscription_matched change guid) a p = unmatched-IsPaired l change guid p
apply-IsPaired l (request_taken reader writer) a p =
    add_pair-IsPaired reader writer l.clients_endpoints a p

-- From a listener whose endpoints are paired, whatever the matched and unmatched endpoints and the
-- requests taken, they stay paired, as long as each request names a pair that is new or known.
pub Reach-IsPaired :
    {l m : ServicePubListener}
    → IsPaired l.clients_endpoints
    → Reach l m
    → IsPaired m.clients_endpoints
Reach-IsPaired p here = p
Reach-IsPaired p (next r c a) = apply-IsPaired _ c a (Reach-IsPaired p r)
