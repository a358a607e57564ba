-- ===== src/TypeSupportRegistry.antt =====
-- rmw_fastrtps_dynamic_cpp/src/type_support_registry.cpp. The three maps of the registry (messages,
-- requests, responses) differ in the classes that are created, so that one of them is modelled. A
-- pointer is an address; `new` and `delete` act on a heap of the type supports that are alive. The
-- mutex makes each operation one step.
pub mod Spec
pub mod Steps
pub mod Refinement
pub mod Cleanup
mod Tests
use rmw_fastrtps.Prelude.{
  ℕ, ◌+◌, ◌-◌, ◌%◌, ◌^◌, Option, none, some, List, [], ◌∷◌, eqb, if◌then◌else◌, nat_eq,
}
use rmw_fastrtps.Prelude.Assoc.{find, erase, assign}

pub data TypesupportIdentifier : Type 0 where
  introspection_c introspection_cpp : TypesupportIdentifier
  identifier_other : ℕ → TypesupportIdentifier

-- The classes `…TypeSupport_c` and `…TypeSupport_cpp`.
pub data Language : Type 0 where
  c cpp : Language

pub record RefCountedTypeSupport : Type 0 where
  pub type_support : Option ℕ
  pub ref_count : ℕ

pub record Heap : Type 0 where
  pub live : List (ℕ × Language)
  pub next : ℕ

pub record Types : Type 0 where
  pub entries : List (ℕ × RefCountedTypeSupport)
  pub heap : Heap

-- `creator_fun`: the class it makes an object of, if any.
abbrev pub creator_fun : TypesupportIdentifier → Option Language
creator_fun introspection_c = some c
creator_fun introspection_cpp = some cpp
creator_fun (identifier_other n) = none

abbrev pub make : Option Language → Heap → Option ℕ × Heap
make none h = (none, h)
make (some l) h = (some h.next, record { live = (h.next, l) ∷ h.live; next = h.next + 1 })

abbrev pub delete : Option ℕ → Heap → Heap
delete none h = h
delete (some a) h = record h { live = erase a h.live }

-- `map()[key]` of a key that is missing.
abbrev pub item_at : Option RefCountedTypeSupport → RefCountedTypeSupport
item_at none = record { type_support = none; ref_count = 0 }
item_at (some item) = item

-- Behind the call of the creator.
abbrev pub store_created :
    ℕ
    → RefCountedTypeSupport
    → List (ℕ × RefCountedTypeSupport)
    → Option ℕ × Heap
    → Option ℕ × Types
store_created key item m (none, h) = (none, record { entries = erase key m; heap = h })
store_created key item m (some a, h) =
    (some a, record { entries = assign key (record item { type_support = some a }) m; heap = h })

-- `0 == --ref_count` and what follows, for the count that is left.
unfoldable pub release : ℕ → RefCountedTypeSupport → Types → Types
release key item r =
    if eqb item.ref_count 0
    then record { entries = erase key r.entries; heap = delete item.type_support r.heap }
    else record r { entries = assign key item r.entries }

abbrev pub counted : ℕ → RefCountedTypeSupport → RefCountedTypeSupport
counted n item = record item { ref_count = (item.ref_count + n) % 2 ^ 32 }

unfoldable pub get_type_support_item :
    Option Language → ℕ → RefCountedTypeSupport → Types → Option ℕ × Types
get_type_support_item created key item r =
    let m = assign key (counted 1 item) r.entries in
    if eqb item.ref_count 0
    then store_created key (counted 1 item) m (make created r.heap)
    else (item.type_support, record r { entries = m })

-- `identifier_of` reads the identifier that a type support handle points at.
module _ (identifier_of : ℕ → TypesupportIdentifier) where
  unfoldable pub get_type_support : ℕ → Types → Option ℕ × Types
  unfolding get_type_support_item
  get_type_support key r =
      get_type_support_item (creator_fun (identifier_of key)) key (item_at (find key r.entries)) r

-- `none` where the assertion fails.
unfoldable pub return_type_support : ℕ → Types → Option Types
unfolding release
return_type_support key r = elim (find key r.entries) [
  | none ↦ none
  | some item ↦ some (release key (counted (2 ^ 32 - 1) item) r)
]

abbrev pub delete_all : List (ℕ × RefCountedTypeSupport) → Heap → Heap
delete_all [] h = h
delete_all ((key, item) ∷ m) h = delete_all m (delete item.type_support h)

-- `cleanup`, which the destructor calls for each map.
unfoldable pub cleanup : Types → Types
cleanup r = record { entries = []; heap = delete_all r.entries r.heap }
