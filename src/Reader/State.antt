-- ===== src/Reader/State.antt =====
-- The state that a completion changes, and the steps that its handling is made of.
use uringio.Base.{ℕ, ℤ, pos_part, Bool, Option, none, some, List, [], ◌∷◌, set, ◌==◌, if◌then◌else◌}
use uringio.Uring.{Call, Liburing}
use uringio.Payload.{BufferPayload, is_freed, is_fixed}
use uringio.Registry.{RequestSlot, RequestRegistry, Effect, free_payload, slot_at, registry_remove}
use uringio.BufferControllers.Index.{FixedBufferIdxRegistry, release_buffer_idx}
use uringio.Reader.Gather.{Memory}

pub record UringioFile : Type 0 where
  pub fd : ℤ
  pub closed : Bool

pub record UringioSocket : Type 0 where
  pub sock_fd : ℤ
  pub closed : Bool
  pub domain : ℤ
  pub loop : ℕ
  pub addr : Option ℕ

-- `struct io_uring_cqe`
pub record Cqe : Type 0 where
  pub user_data : ℕ
  pub res : ℤ
  pub flags : ℕ

-- What the program does to Python objects, to memory and to the completion queue. `new_bytes` has
-- the object's size, and the bytes written into it from its start on.
pub data Event : Type 0 where
  new_error : (errno : ℤ) → Event
  new_bytes : (size : ℤ) (content : List ℕ) → Event
  new_long : ℤ → Event
  new_socket : Event
  set_result set_exception : (future value : ℕ) → Event
  print_error : Event
  effect : Effect → Event
  read_fd : (fd : ℤ) → Event
  seen : Cqe → Event

-- The parts of the loop, and the heaps that it points into. The events are newest first.
pub record UringioLoop : Type 0 where
  pub registry : RequestRegistry
  pub payloads : ℕ → Option BufferPayload
  pub pools : ℕ → FixedBufferIdxRegistry
  pub files : ℕ → UringioFile
  pub sockets : ℕ → UringioSocket
  pub calls : List Call
  pub events : List Event
  pub wakeup_fd : ℤ
  pub wakeup_buf : ℕ

-- CPython, the kernel and liburing, as a completion meets them: the object that a constructor
-- returns after the events so far (`none` is NULL), the object None, the bytes in memory, what
-- `io_uring_recvmsg_validate` finds in a buffer (the payload's address and length), and constants.
pub record Env : Type 0 where
  pub liburing : Liburing
  pub new_object : List Event → Option ℕ
  pub py_none : ℕ
  pub memory : Memory
  pub recvmsg_validate : (buf : ℕ) (buf_len : ℤ) (msghdr : Option ℕ) → Option (ℕ × ℕ)
  pub etime : ℤ
  pub cqe_f_more : ℕ → Bool
  pub cqe_buffer_shift : ℕ

-- `fault` is a read through NULL or through freed memory; `aborted` is a call of `abort`.
pub data Outcome (A : Type 0) : Type 0 where
  ok : A → Outcome A
  fault aborted : Outcome A

abbrev pub R : Type 0 → Type 0
R A = UringioLoop → Outcome (A × UringioLoop)

abbrev pub pure : {A : Type 0} → A → R A
pure a s = ok (a, s)

abbrev pub run_next :
    {A B : Type 0} → Outcome (A × UringioLoop) → (A → R B) → Outcome (B × UringioLoop)
run_next (ok (a, s)) f = f a s
run_next fault f = fault
run_next aborted f = aborted

infixl 5 ◌>>=◌ ◌>>◌
abbrev pub ◌>>=◌ : {A B : Type 0} → R A → (A → R B) → R B
◌>>=◌ m f s = run_next (m s) f

abbrev pub ◌>>◌ : {A B : Type 0} → R A → R B → R B
m >> k = m >>= λ _. k

-- A read through a pointer that may be NULL.
abbrev pub deref : {A : Type 0} → Option A → R A
deref none s = fault
deref (some a) s = ok (a, s)

abbrev pub emit : Event → R (Unit {0})
emit e s = ok (tt, record s { events = e ∷ s.events })

abbrev pub modify : (UringioLoop → UringioLoop) → R (Unit {0})
modify f s = ok (tt, f s)

-- A call of an object's constructor.
abbrev pub create : Env → Event → R (Option ℕ)
create env e s = ok (env.new_object s.events, record s { events = e ∷ s.events })

abbrev pub update {ℓ} : {A : Type ℓ} → (ℕ → A) → ℕ → A → ℕ → A
update f p a q = if p == q then a else f q

-- `*slot->buffer_payload`
abbrev pub payload_at : Option ℕ → R BufferPayload
payload_at none s = fault
payload_at (some p) s = deref (s.payloads p) s

-- `free_buffer_payload` of a payload that is there.
abbrev pub drop_payload : ℕ → Bool → BufferPayload → R (Unit {0})
drop_payload p force b s =
    if is_freed b force
    then ok (
      tt,
      record s {
        payloads = update s.payloads p none;
        events = effect (free_payload p force) ∷ s.events;
      },
    )
    else ok (tt, record s { events = effect (free_payload p force) ∷ s.events })

-- `free_buffer_payload`: it ignores NULL, and reads the payload's mode.
unfoldable pub free_buffer_payload : Option ℕ → Bool → R (Unit {0})
free_buffer_payload none force = pure tt
free_buffer_payload (some p) force = do b ← payload_at (some p); drop_payload p force b

-- What `registry_remove` does outside the registry.
unfoldable pub apply_effects : List Effect → R (Unit {0})
unfolding free_buffer_payload
apply_effects [] = pure tt
apply_effects (free_payload p force ∷ es) = do free_buffer_payload (some p) force; apply_effects es
apply_effects (e ∷ es) = do emit (effect e); apply_effects es

abbrev pub removed_to : Option (RequestRegistry × List Effect) → R (Unit {0})
removed_to none s = aborted
removed_to (some (reg, es)) s = apply_effects es (record s { registry = reg })

unfoldable pub remove_request : ℤ → R (Unit {0})
unfolding apply_effects registry_remove
remove_request index s = removed_to (registry_remove s.registry index) s

-- An assignment to fields of the slot at `index`.
unfoldable pub update_slot : ℤ → (RequestSlot → RequestSlot) → R (Unit {0})
update_slot index f s = ok (
  tt,
  record s {
    registry = record s.registry {
      slots = set s.registry.slots (pos_part index) (f (slot_at s.registry.slots index));
    };
  },
)

-- `slot->buffer_payload = NULL`
abbrev pub without_payload : RequestSlot → RequestSlot
without_payload slot = record slot { buffer_payload = none }

-- `if (mode == FIXED) release_buffer_idx(payload->idx_registry, payload->buf_idx)`
unfoldable pub release_if_fixed : BufferPayload → R (Unit {0})
release_if_fixed b s =
    if is_fixed b.mode
    then ok (
      tt,
      record s {
        pools =
            update s.pools b.idx_registry (release_buffer_idx (s.pools b.idx_registry) b.buf_idx).1;
      },
    )
    else ok (tt, s)
