-- ===== src/Registry/Tests.antt =====
-- Runs of the registry, and its theorems at concrete requests.
use uringio.Base.{
  ℕ, ◌≡◌, ◌+◌, ◌<◌, ◌↔◌, refl, pos, negsuc, to_int, to_u64, true, none, some, [], ◌∷◌, length,
  arith,
}
use uringio.Enums.{oneshot, Opcode}
use uringio.Registry.{
  RequestSlot, RequestRegistry, Request, fresh, registry_new, registry_add, registry_get,
  registry_remove, releases, incref,
}
use uringio.Registry.Invariant.{
  IsValid, busy, slot, in_flight, removed, remove-removed, fresh-IsValid, add-IsValid,
}
use uringio.Registry.Releases.{GivesBack}
use uringio.Registry.InFlight.{
  Holds, Reach, Added, Removed, start, added, add-Added, add_fails_iff, remove-Removed, get-add,
  Reach-IsValid,
}
use uringio.Registry.References.{held, taken, dropped, add-held, remove-held}

-- The read of a file object at 7 for the future at 9.
abbrev request : Request
request = record {
  future = 9;
  buffer_payload = some 5;
  stream_strategy = oneshot;
  opcode = Opcode.read;
  file = some 7;
  socket = none;
  sockaddr = none;
  msghdr = none;
}

abbrev empty : RequestRegistry
empty = fresh 2

abbrev one : RequestRegistry
one = (registry_add empty request).1

empty-IsValid : IsValid empty
empty-IsValid = fresh-IsValid 2 (omega arith) (omega arith)

one-IsValid : IsValid one
one-IsValid = add-IsValid empty request empty-IsValid

one-in_flight : in_flight one 1 ≡ true
unfolding registry_add fresh
one-in_flight = refl

last_index_first : (registry_add empty request).0 ≡ pos 1
unfolding registry_add fresh
last_index_first = refl

references_taken : (registry_add empty request).2 ≡ incref 9 ∷ incref 7 ∷ []
unfolding registry_add fresh
references_taken = refl

default_size_new : registry_new true true true 0 ≡ some (fresh 25000)
unfolding registry_new
default_size_new = refl

-- After a request was added and removed.
Reach-IsValid_example : IsValid (removed one 1)
Reach-IsValid_example = Reach-IsValid 2 (omega arith) (omega arith) (
    Reach.dropped 1 (added start request) one-in_flight
      (remove-removed one 1 one-IsValid one-in_flight))

room : length (busy empty) < empty.size
unfolding fresh
room = omega arith

add-Added_example : (n : ℕ) × Added empty request n (registry_add empty request)
add-Added_example = add-Added empty request empty-IsValid room

add_fails_iff_example :
    (registry_add empty request ≡ (negsuc 0, empty, [])) ↔ (length (busy empty) ≡ empty.size)
add_fails_iff_example = add_fails_iff empty request empty-IsValid

remove-Removed_example :
    (reg' : RequestRegistry) × (registry_remove one (pos 1) ≡ some (reg', releases (slot one 1)))
    × Removed one 1 reg'
    × GivesBack (slot one 1) (releases (slot one 1))
remove-Removed_example = remove-Removed one 1 one-IsValid one-in_flight

get-add_example :
    let (idx, reg', effects) = registry_add empty request in
    (n : ℕ) × (s : RequestSlot) × (idx ≡ pos n)
    × (registry_get reg' (to_int (to_u64 idx)) ≡ some s)
    × Holds s n request
get-add_example = get-add empty request empty-IsValid room

add-held_example :
    let (idx, reg', effects) = registry_add empty request in
    held 7 reg'.slots ≡ held 7 empty.slots + taken 7 effects
add-held_example = add-held 7 empty request empty-IsValid

remove-held_example :
    held 7 (removed one 1).slots + dropped 7 (releases (slot one 1)) ≡ held 7 one.slots
remove-held_example =
    remove-held 7 one (removed one 1) 1 (releases (slot one 1)) one-IsValid one-in_flight
      (remove-removed one 1 one-IsValid one-in_flight)
