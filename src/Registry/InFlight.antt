-- ===== src/Registry/InFlight.antt =====
-- The registry as a map from the indices below its size to the requests in flight.
use mathlib.Core.Path.{subst}
use uringio.Base.{
  ℕ, ◌<◌, ◌^◌, ◌≡◌, ◌≢◌, ◌↔◌, refl, inl, inr, ℤ, pos, negsuc, is_neg, to_int, to_u64, true, false,
  none, some, List, [], length, get_or-set_self, get_or-set_ne, count, length-stack, arith,
  Bool-cases,
}
use uringio.Enums.{Opcode}
use uringio.Ring.{wakeup_fd_tag}
use uringio.Registry.{
  RequestSlot, RequestRegistry, Request, Effect, zero_slot, fresh, fill, registry_add, registry_get,
  registry_remove, slot_of, cleared, releases,
}
use uringio.Registry.Releases.{GivesBack, releases-GivesBack}
use uringio.Registry.Invariant.{
  busy, slot, in_flight, IsValid, Next, next, fresh-IsValid, add-IsValid, removed, remove-removed,
  removed-IsValid, in_flight-lt, in_flight-room,
}

-- `reg'` differs from `reg` at the index `n` alone.
abbrev pub ElsewhereSame : ℕ → RequestRegistry → RequestRegistry → Type 0
ElsewhereSame n reg reg' = (k : ℕ) → n ≢ k → slot reg' k ≡ slot reg k

-- The slot holds the request, under the index `n`.
pub record Holds (s : RequestSlot) (n : ℕ) (r : Request) : Type 0 where
  pub user_data : s.user_data ≡ n
  pub future : s.future ≡ some r.future
  pub stream_strategy : s.stream_strategy ≡ r.stream_strategy
  pub buffer_payload : s.buffer_payload ≡ r.buffer_payload
  pub opcode : s.opcode ≡ r.opcode
  pub file : s.file ≡ r.file
  pub socket : s.socket ≡ r.socket
  pub addr : s.addr ≡ r.sockaddr
  pub msghdr : s.msghdr ≡ r.msghdr

slot_of-Holds : (n : ℕ) (r : Request) → n < 2 ^ 64 → Holds (slot_of (pos n) r) n r
slot_of-Holds n r h = record {
  user_data = omega arith;
  future = refl;
  stream_strategy = refl;
  buffer_payload = refl;
  opcode = refl;
  file = refl;
  socket = refl;
  addr = refl;
  msghdr = refl;
}

-- What a successful `registry_add` does.
pub record Added (reg : RequestRegistry) (r : Request) (n : ℕ)
    (out : ℤ × RequestRegistry × List Effect) : Type 0 where
  pub index : out.0 ≡ pos n
  pub inside : n < reg.size
  pub was_free : in_flight reg n ≡ false
  pub filled : Holds (slot out.1 n) n r
  pub others : ElsewhereSame n reg out.1
  pub valid : IsValid out.1

-- A registry that is not full has a free slot on its stack.
not-empty :
    (reg : RequestRegistry) → IsValid reg → length (busy reg) < reg.size → is_neg reg.top ≡ false
not-empty reg v h = ground (arith, v.full, length-stack reg.available_indices (count reg.top))

pub add-fill :
    (reg : RequestRegistry) (r : Request) (n : ℕ) (rest : List ℤ)
    → is_neg reg.top ≡ false
    → Next reg n rest
    → registry_add reg r ≡ fill reg r (pos n)
unfolding registry_add
add-fill reg r n rest more x = rw (more, x.entry)

fill-Added :
    (reg : RequestRegistry) (r : Request) (n : ℕ) (rest : List ℤ)
    → IsValid reg
    → Next reg n rest
    → IsValid (fill reg r (pos n)).1
    → Added reg r n (fill reg r (pos n))
unfolding fill
fill-Added reg r n rest v x v' = record {
  index = refl;
  inside = x.inside;
  was_free = x.idle;
  filled =
      rw
        (get_or-set_self reg.slots n (slot_of (pos n) r) zero_slot
          (omega (arith, x.inside, v.wide)))
        (slot_of-Holds n r (omega (arith, x.inside, v.small)));
  others = λ k ne. get_or-set_ne reg.slots n k (slot_of (pos n) r) zero_slot ne;
  valid = v';
}

-- In a valid registry that has a free slot, `registry_add` puts the request, every field of it,
-- into a slot that held none, answers its index, and touches no other slot.
pub add-Added :
    (reg : RequestRegistry) (r : Request)
    → IsValid reg
    → length (busy reg) < reg.size
    → (n : ℕ) × Added reg r n (registry_add reg r)
add-Added reg r v h =
    let more = not-empty reg v h in
    let (n, x) = next v more in
    (
      n,
      rw (add-fill reg r n _ more x)
          (fill-Added reg r n _ v x (rw (add-fill reg r n _ more x) at (add-IsValid reg r v))),
    )

-- As above, with the index and the effects written out.
pub add-filled :
    (reg : RequestRegistry) (r : Request)
    → IsValid reg
    → is_neg reg.top ≡ false
    → (n : ℕ) × (registry_add reg r ≡ fill reg r (pos n)) × Added reg r n (fill reg r (pos n))
add-filled reg r v more =
    let (n, x) = next v more in
    let e : registry_add reg r ≡ fill reg r (pos n) = add-fill reg r n _ more x in
    (n, e, fill-Added reg r n _ v x (rw e at (add-IsValid reg r v)))

pub empty-of_full :
    (reg : RequestRegistry) → IsValid reg → length (busy reg) ≡ reg.size → is_neg reg.top ≡ true
empty-of_full reg v e = ground (arith, v.full, length-stack reg.available_indices (count reg.top))

fill-index : (reg : RequestRegistry) (r : Request) (n : ℕ) → (fill reg r (pos n)).0 ≡ pos n
unfolding fill
fill-index reg r n = refl

-- In a valid registry, `registry_add` answers -1, changes nothing and takes no reference exactly if
-- every slot holds a request.
pub add_fails_iff :
    (reg : RequestRegistry) (r : Request)
    → IsValid reg
    → (registry_add reg r ≡ (negsuc 0, reg, [])) ↔ (length (busy reg) ≡ reg.size)
unfolding registry_add fill
add_fails_iff reg r v = (
  λ e. elim (Bool-cases (is_neg reg.top)) [
    | inl empty ↦ ground (arith, v.full, length-stack reg.available_indices (count reg.top))
    | inr more ↦ let (n, x) = next v more in cc (e, add-fill reg r n _ more x, fill-index reg r n)
  ],
  λ e. rw (empty-of_full reg v e),
)

-- The slot has no future, payload, file, socket or message header.
pub record Emptied (s : RequestSlot) : Type 0 where
  pub future : s.future ≡ none
  pub buffer_payload : s.buffer_payload ≡ none
  pub opcode : s.opcode ≡ Opcode.nop
  pub file : s.file ≡ none
  pub socket : s.socket ≡ none
  pub msghdr : s.msghdr ≡ none

-- What a successful `registry_remove` does to the registry.
pub record Removed (reg : RequestRegistry) (n : ℕ) (reg' : RequestRegistry) : Type 0 where
  pub now_free : in_flight reg' n ≡ false
  pub emptied : Emptied (slot reg' n)
  pub others : ElsewhereSame n reg reg'
  pub valid : IsValid reg'
  pub next_index : (r : Request) → (registry_add reg' r).0 ≡ pos n

pub removed-Removed :
    (reg : RequestRegistry) (n : ℕ)
    → IsValid reg
    → in_flight reg n ≡ true
    → Removed reg n (removed reg n)
unfolding registry_add fill
removed-Removed reg n v e = record {
  now_free = rw (
      get_or-set_self reg.slots n (cleared (slot reg n)) zero_slot
        (omega (arith, v.wide, in_flight-lt reg n v e)));
  emptied =
      rw
        (get_or-set_self reg.slots n (cleared (slot reg n)) zero_slot
          (omega (arith, v.wide, in_flight-lt reg n v e)))
        (record {
          future = refl;
          buffer_payload = refl;
          opcode = refl;
          file = refl;
          socket = refl;
          msghdr = refl;
        });
  others = λ k ne. get_or-set_ne reg.slots n k (cleared (slot reg n)) zero_slot ne;
  valid = removed-IsValid reg n v e;
  next_index = λ r.
      get_or-set_self reg.available_indices (count reg.top) (pos n) (negsuc 0)
        (omega (arith, v.array, in_flight-room reg n v e));
}

-- `registry_remove` of a request in flight in a valid registry does not abort; it drops the
-- references to the slot's future, socket and file, frees its payload without force and its message
-- header, each once, and nothing else; the slot is then free, and points to none of these; no other
-- slot is touched, and the next request gets the same index.
pub remove-Removed :
    (reg : RequestRegistry) (n : ℕ)
    → IsValid reg
    → in_flight reg n ≡ true
    → (reg' : RequestRegistry) × (registry_remove reg (pos n) ≡ some (reg', releases (slot reg n)))
      × Removed reg n reg'
      × GivesBack (slot reg n) (releases (slot reg n))
remove-Removed reg n v e = (
  removed reg n,
  remove-removed reg n v e,
  removed-Removed reg n v e,
  releases-GivesBack (slot reg n),
)

pub get-at :
    (reg : RequestRegistry) (n : ℕ)
    → IsValid reg
    → n < reg.size
    → registry_get reg (to_int (to_u64 (pos n))) ≡ some (slot reg n)
unfolding registry_get
get-at reg n v h = ground (arith, v.small)

-- In a valid registry that has a free slot, the index that a completion carries back,
-- `(int)(uintptr_t)user_data`, finds the request that was added, with every field.
pub get-add :
    (reg : RequestRegistry) (r : Request)
    → IsValid reg
    → length (busy reg) < reg.size
    → let (idx, reg', effects) = registry_add reg r in
      (n : ℕ) × (s : RequestSlot) × (idx ≡ pos n)
      × (registry_get reg' (to_int (to_u64 idx)) ≡ some s)
      × Holds s n r
get-add reg r v h =
    let (n, a) = add-Added reg r v h in
    let out = registry_add reg r in
    (
      n,
      slot out.1 n,
      a.index,
      rw a.index (get-at out.1 n a.valid (in_flight-lt out.1 n a.valid (rw a.filled.future))),
      a.filled,
    )

-- The tag of the wakeup descriptor is cast to the index -1, which no slot has.
pub get-wakeup : (reg : RequestRegistry) → registry_get reg (to_int wakeup_fd_tag) ≡ none
unfolding registry_get
get-wakeup reg = refl

-- The histories of a registry: requests are added, and requests in flight are removed.
pub data Reach (size : ℕ) : RequestRegistry → Type 0 where
  start : Reach size (fresh size)
  added :
      {reg : RequestRegistry} → Reach size reg → (r : Request) → Reach size (registry_add reg r).1
  dropped :
      {reg reg' : RequestRegistry} (n : ℕ) {effects : List Effect}
      → Reach size reg
      → in_flight reg n ≡ true
      → registry_remove reg (pos n) ≡ some (reg', effects)
      → Reach size reg'

-- In every history of a registry of 0 < size < 2^31 slots that starts with the fresh one, it is
-- valid: its stack has no index twice and holds with the busy ones exactly the indices below the
-- size, and a slot that holds no request holds no payload and no object.
pub Reach-IsValid :
    (size : ℕ) {reg : RequestRegistry} → 0 < size → size < 2 ^ 31 → Reach size reg → IsValid reg
Reach-IsValid size h k start = fresh-IsValid size h k
Reach-IsValid size h k (added {reg} past r) = add-IsValid reg r (Reach-IsValid size h k past)
Reach-IsValid size h k (dropped {reg} {reg'} n past e q) =
    let v = Reach-IsValid size h k past in
    let (reg2, p, after, back) = remove-Removed reg n v e in
    let same : reg2 ≡ reg' = cc (p, q) in subst IsValid same after.valid
