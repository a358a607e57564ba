-- ===== src/TypeSupportRegistry/Spec.antt =====
-- What the registry of type supports promises: the handles that its clients hold, call by call.
use rmw_fastrtps.Prelude.{
  ℕ, ◌+◌, ◌-◌, ◌<◌, ◌^◌, ◌≡◌, Option, none, some, List, [], ◌∷◌, ltb, eqb, if◌then◌else◌, nat_eq,
  ◌==◌,
}
use rmw_fastrtps.Prelude.Assoc.{find}
use rmw_fastrtps.TypeSupportRegistry.{
  TypesupportIdentifier, Language, RefCountedTypeSupport, Types, creator_fun, get_type_support,
  return_type_support,
}

pub data Call : Type 0 where
  get : ℕ → Call
  give_back : ℕ → Call

-- How often each handle is held.
abbrev pub Held : Type 0
Held = ℕ → ℕ

abbrev pub hold : ℕ → ℕ → Held → Held
hold key n f k = if key == k then n else f k

abbrev pub count_of : Option RefCountedTypeSupport → ℕ
count_of none = 0
count_of (some item) = item.ref_count

abbrev pub pointer_of : Option RefCountedTypeSupport → Option ℕ
pointer_of none = none
pointer_of (some item) = item.type_support

abbrev pub type_at : Types → ℕ → Option ℕ
type_at r k = pointer_of (find k r.entries)

abbrev pub held_after_get : Option Language → ℕ → Held → Held
held_after_get none key f = f
held_after_get (some l) key f = hold key (f key + 1) f

module _ (identifier_of : ℕ → TypesupportIdentifier) where
  unfoldable pub run : List Call → Types → Option Types
  run [] r = some r
  run (get key ∷ calls) r = run calls (get_type_support identifier_of key r).1
  run (give_back key ∷ calls) r = elim (return_type_support key r) [
    | none ↦ none
    | some r' ↦ run calls r'
  ]

  -- What the calls do to the handles held: `none` where one is given back that is not held, or is held
  -- more than `UINT32_MAX` times.
  unfoldable pub replay : List Call → Held → Option Held
  replay [] f = some f
  replay (get key ∷ calls) f =
      let rest = replay calls (held_after_get (creator_fun (identifier_of key)) key f) in
      if ltb (f key + 1) (2 ^ 32) then rest else none
  replay (give_back key ∷ calls) f =
      let rest = replay calls (hold key (f key - 1) f) in if eqb (f key) 0 then none else rest

  -- The registry implements `held`: an entry for each handle that is held, with its count and a type
  -- support of the right class, alive and no other handle's; and none is alive but these.
  pub record Implements (held : Held) (r : Types) : Type 0 where
    pub counts : (k : ℕ) → count_of (find k r.entries) ≡ held k
    pub absent : (k : ℕ) → held k ≡ 0 → find k r.entries ≡ none
    pub alive :
        (k : ℕ)
        → 0 < held k
        → (a : ℕ) × (l : Language) × (type_at r k ≡ some a)
          × (creator_fun (identifier_of k) ≡ some l)
          × (find a r.heap.live ≡ some l)
    pub owned :
        (a : ℕ) (l : Language) → find a r.heap.live ≡ some l → (k : ℕ) × (type_at r k ≡ some a)
    pub single : (k j a : ℕ) → type_at r k ≡ some a → type_at r j ≡ some a → k ≡ j
    pub bounded : (k : ℕ) → held k < 2 ^ 32
    pub fresh : (a : ℕ) (l : Language) → find a r.heap.live ≡ some l → a < r.heap.next
