-- ===== src/Registry.antt =====
-- src/registry: the requests in flight, one to a slot, and the stack of free slots.
-- Objects and allocations are addresses; `none` is NULL. What a function does to reference counts
-- and to the heap is the list of its effects, in order.
pub mod Busy
pub mod Invariant
pub mod Releases
pub mod InFlight
pub mod References
mod Tests
use uringio.Base.{
  ℕ, ◌-◌, ℤ, pos, negsuc, pos_part, is_neg, pred_ℤ, suc_ℤ, leb_ℤ, to_int, to_u64, Bool, true, false,
  ◌||◌, Option, none, some, is_some, List, [], ◌∷◌, ◌++◌, get_or, set, replicate, indices_from,
  ◌==◌, if◌then◌else◌,
}
use uringio.Enums.{StreamStrategy, oneshot, Opcode, nop}

pub record RequestSlot : Type 0 where
  pub user_data : ℕ
  pub future : Option ℕ
  pub stream_strategy : StreamStrategy
  pub buffer_payload : Option ℕ
  pub opcode : Opcode
  pub file : Option ℕ
  pub socket : Option ℕ
  pub addr : Option ℕ
  pub msghdr : Option ℕ

-- `available_indices` holds the initialised entries of the array.
pub record RequestRegistry : Type 0 where
  pub slots : List RequestSlot
  pub available_indices : List ℤ
  pub top : ℤ
  pub size : ℕ

pub data Effect : Type 0 where
  incref decref : ℕ → Effect
  free_payload : ℕ → (force : Bool) → Effect
  free_memory : ℕ → Effect
  free_slots free_available_indices free_registry : Effect

-- `Py_INCREF` and `Py_DECREF` under a test for NULL, and `free`, which ignores NULL.
abbrev pub incref? : Option ℕ → List Effect
incref? none = []
incref? (some o) = incref o ∷ []

abbrev pub decref? : Option ℕ → List Effect
decref? none = []
decref? (some o) = decref o ∷ []

abbrev pub free_payload? : Option ℕ → Bool → List Effect
free_payload? none force = []
free_payload? (some p) force = free_payload p force ∷ []

abbrev pub free? : Option ℕ → List Effect
free? none = []
free? (some p) = free_memory p ∷ []

-- A slot as `calloc` leaves it.
abbrev pub zero_slot : RequestSlot
zero_slot = record {
  user_data = 0;
  future = none;
  stream_strategy = oneshot;
  buffer_payload = none;
  opcode = nop;
  file = none;
  socket = none;
  addr = none;
  msghdr = none;
}

-- DEFAULT_REGISTRY_SIZE
abbrev pub default_registry_size : ℕ
default_registry_size = 25000

-- The registry once the memory is there.
unfoldable pub fresh : ℕ → RequestRegistry
fresh size = record {
  slots = replicate size zero_slot;
  available_indices = indices_from 0 (pos_part (to_int size));
  top = pred_ℤ (to_int size);
  size = size;
}

-- The flags say whether the allocations of the registry and of its two arrays succeed.
unfoldable pub registry_new : Bool → Bool → Bool → ℕ → Option RequestRegistry
unfolding fresh
registry_new true true true size = some (fresh (if size == 0 then default_registry_size else size))
registry_new self slots indices size = none

-- `&reg->slots[index]`, read and written. Out of bounds the model reads an empty slot and writes
-- nothing; `Invariant.IsValid` rules that out.
abbrev pub slot_at : List RequestSlot → ℤ → RequestSlot
slot_at slots index = get_or slots (pos_part index) zero_slot

-- The fields of a request, which are the arguments of `registry_add` after the registry.
pub record Request : Type 0 where
  pub future : ℕ
  pub buffer_payload : Option ℕ
  pub stream_strategy : StreamStrategy
  pub opcode : Opcode
  pub file : Option ℕ
  pub socket : Option ℕ
  pub sockaddr : Option ℕ
  pub msghdr : Option ℕ

abbrev pub slot_of : ℤ → Request → RequestSlot
slot_of index r = record {
  user_data = to_u64 index;
  future = some r.future;
  stream_strategy = r.stream_strategy;
  buffer_payload = r.buffer_payload;
  opcode = r.opcode;
  file = r.file;
  socket = r.socket;
  addr = r.sockaddr;
  msghdr = r.msghdr;
}

-- `registry_add` with the index that it takes from the stack.
unfoldable pub fill : RequestRegistry → Request → ℤ → ℤ × RequestRegistry × List Effect
fill reg r index = (
  index,
  record reg { slots = set reg.slots (pos_part index) (slot_of index r); top = pred_ℤ reg.top },
  incref r.future ∷ incref? r.socket ++ incref? r.file,
)

unfoldable pub registry_add : RequestRegistry → Request → ℤ × RequestRegistry × List Effect
unfolding fill
registry_add reg r =
    if is_neg reg.top
    then (negsuc 0, reg, [])
    else fill reg r (get_or reg.available_indices (pos_part reg.top) (negsuc 0))

abbrev pub out_of_range : RequestRegistry → ℤ → Bool
out_of_range reg index = is_neg index || leb_ℤ (to_int reg.size) index

unfoldable pub registry_get : RequestRegistry → ℤ → Option RequestSlot
registry_get reg index = if out_of_range reg index then none else some (slot_at reg.slots index)

-- The slot that `registry_remove` leaves. Its address, strategy and user data stay.
abbrev pub cleared : RequestSlot → RequestSlot
cleared slot = record slot {
  future = none;
  buffer_payload = none;
  socket = none;
  file = none;
  msghdr = none;
  opcode = nop;
}

abbrev pub releases : RequestSlot → List Effect
releases slot =
    decref? slot.future
    ++ (free_payload? slot.buffer_payload false
        ++ (decref? slot.socket ++ (decref? slot.file ++ free? slot.msghdr)))

-- `none` is a call of `abort`.
unfoldable pub registry_remove : RequestRegistry → ℤ → Option (RequestRegistry × List Effect)
registry_remove reg index =
    if out_of_range reg index
    then some (reg, [])
    else if leb_ℤ (pred_ℤ (to_int reg.size)) reg.top
    then none
    else some (
      record reg {
        slots = set reg.slots (pos_part index) (cleared (slot_at reg.slots index));
        available_indices = set reg.available_indices (pos_part (suc_ℤ reg.top)) index;
        top = suc_ℤ reg.top;
      },
      releases (slot_at reg.slots index),
    )

abbrev pub destroys : RequestSlot → List Effect
destroys slot =
    decref? slot.future
    ++ (free_payload? slot.buffer_payload true ++ (decref? slot.socket ++ decref? slot.file))

-- The loop of `registry_destroy` over the slots.
unfoldable pub destroy_slots : List RequestSlot → List Effect
destroy_slots [] = []
destroy_slots (slot ∷ slots) = destroys slot ++ destroy_slots slots

-- The slots are there whenever the registry is.
unfoldable pub registry_destroy : Option RequestRegistry → List Effect
unfolding destroy_slots
registry_destroy none = []
registry_destroy (some reg) =
    destroy_slots reg.slots ++ (free_slots ∷ free_available_indices ∷ free_registry ∷ [])
