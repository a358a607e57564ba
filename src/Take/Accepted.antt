-- ===== src/Take/Accepted.antt =====
-- The loop of a take, against the queue of its reader (rmw_fastrtps_shared_cpp/src/rmw_take.cpp).
use mathlib.Core.Path.{fun_ext}
use rmw_fastrtps.Prelude.{
  ◌&&◌, not, same_list, nat_eq, list_eq, ℕ, ◌+◌, zero, suc, ◌<◌, ◌≤◌, ◌≡◌, refl, ap, Bool, false,
  Option, none, some, List, [], ◌∷◌, length, arith, if◌then◌else◌, Bool-cases, inl, inr,
}
use rmw_fastrtps.Take.{
  Subscription, SubscriberInfo, accepts_message, accepts_serialized, SampleInfo, DataReader,
  take_until,
}
use rmw_fastrtps.Take.Laws.{Sample, ReaderLaws}

abbrev pub Returns : {A : Type 0} → (A → Type 0) → Option A → Type 0
Returns P none = ⊥
Returns P (some a) = P a

pub Returns-map :
    {A : Type 0} (P Q : A → Type 0) (o : Option A)
    → ((a : A) → P a → Q a)
    → Returns P o
    → Returns Q o
Returns-map P Q none f p = p
Returns-map P Q (some a) f p = f a p

pub Returns-then :
    {A B : Type 0} (f : A → B) (P : A → Type 0) (Q : B → Type 0) (o : Option A)
    → ((a : A) → P a → Q (f a))
    → Returns P o
    → Returns Q (elim o [ none ↦ none | some a ↦ some (f a) ])
Returns-then f P Q none g p = p
Returns-then f P Q (some a) g p = g a p

-- The samples of a queue that a subscription wants.
abbrev pub wanted :
    {Message : Type 0} → (SampleInfo → Bool) → List (Sample Message) → List (Sample Message)
wanted accept [] = []
wanted accept (s ∷ q) = let rest = wanted accept q in if accept s.info then s ∷ rest else rest

-- A sample with data, and not of the subscription's own participant where those are ignored.
abbrev pub is_wanted : Subscription → SubscriberInfo → SampleInfo → Bool
is_wanted s info sinfo =
    sinfo.valid_data
    && not (
        s.ignore_local_publications
        && same_list sinfo.publication_guid.guid_prefix info.reader_guid.guid_prefix)

pub accepts_message_lem :
    (s : Subscription) (info : SubscriberInfo) → accepts_message s info ≡ is_wanted s info
accepts_message_lem s info = fun_ext λ sinfo. ground arith

pub accepts_serialized_lem :
    (s : Subscription) (info : SubscriberInfo) → accepts_serialized s info ≡ is_wanted s info
accepts_serialized_lem s info = fun_ext λ sinfo. ground arith

-- `Kept` holds of the argument until a sample is accepted.
module _ {Message R : Type 0} {reader : DataReader Message R} (laws : ReaderLaws reader)
    (accept : SampleInfo → Bool) (Kept : Message → Type 0) where
  -- What the loop stops with, by the wanted samples: the first one, with the rest left, or nothing,
  -- with the queue empty.
  abbrev pub IsStopped : ℕ → List (Sample Message) → Option SampleInfo × Message × R → Type 0
  IsStopped n [] (o, m, r) = (o ≡ none) × (laws.queue r ≡ [])
  IsStopped n (s ∷ ws) (o, m, r) =
      (o ≡ some s.info)
      × ((m' : Message) × Kept m' × (m ≡ laws.store s m'))
      × (wanted accept (laws.queue r) ≡ ws)
      × (length (laws.queue r) < n)

  IsStopped-le :
      (m n : ℕ) (ws : List (Sample Message)) (t : Option SampleInfo × Message × R)
      → m ≤ n
      → IsStopped m ws t
      → IsStopped n ws t
  IsStopped-le m n [] t h p = p
  IsStopped-le m n (s ∷ ws) t h p = (p.0, p.1, p.2, omega (arith, p.3))

  pub take_until-IsStopped :
      ((s : Sample Message) (m : Message) → accept s.info ≡ false → Kept m → Kept (laws.store s m))
      → (fuel : ℕ) (m : Message) (r : R) (q : List (Sample Message)) → laws.queue r ≡ q
      → length q < fuel
      → Kept m
      → Returns (IsStopped (length q + 1) (wanted accept q)) (take_until reader accept fuel m r)
  unfolding take_until
  take_until-IsStopped keep zero m r q e h k = absurd (omega arith)
  take_until-IsStopped keep (suc fuel) m r [] e h k = rw (take_until, laws.empty m r e) (refl, e)
  take_until-IsStopped keep (suc fuel) m r (s ∷ q) e h k =
      let rest = laws.advanced r s q e in
      elim (Bool-cases (accept s.info)) [
        | inl e1 ↦
            rw (take_until, laws.next m r s q e, e1)
              (refl, (m, k, refl), ap (wanted accept) rest, rw (rest) (omega arith))
        | inr e2 ↦
            rw (take_until, laws.next m r s q e, e2)
              (Returns-map _ _ _
                (λ t p.
                  IsStopped-le (length q + 1) (suc (length q) + 1) (wanted accept q) t (omega arith)
                    p)
                (take_until-IsStopped keep fuel (laws.store s m) (laws.advance r) q rest
                  (omega arith) (keep s m e2 k)))
      ]
