-- ===== src/Methods.antt =====
-- The methods of files of src/python_api/ops/files: what they share. A method runs on the loop's
-- registry and ring, on memory and on the references that it holds.
use uringio.Base.{
  ℕ, ℤ, pos, negsuc, is_neg, ltb_ℤ, eqb_ℤ, Bool, true, false, not, ◌||◌, Option, none, some, List,
  [], ◌∷◌, ◌==◌, if◌then◌else◌,
}
use uringio.Enums.{StreamStrategy, Opcode}
use uringio.Uring.{Call, Liburing}
use uringio.Timer.{TimeoutParams}
use uringio.Payload.{BufferPayload, is_freed}
use uringio.Registry.{
  RequestRegistry, Request, Effect, incref, decref, free_payload, free_memory, registry_add,
  registry_remove,
}
use uringio.BufferControllers.Index.{FixedBufferIdxRegistry}
use uringio.Buffers.Heap
use uringio.Buffers.Heap.{Resource, block, reference, got, Step, Heap, H, Host, give_back, log}
use uringio.Buffers.Free
use uringio.Buffers.Create.{Answer}
pub mod Dispatch
pub mod Files
pub mod Rules
pub mod Unsent
pub mod Laws
pub mod Submission
pub mod Plain
pub mod Buffered
pub mod Tests

-- The fields of a socket that the methods write.
pub record Socket : Type 0 where
  pub closed : Bool
  pub domain : ℤ

-- The loop, as a method meets it, and the payloads and the sockets by their addresses.
pub record Caller : Type 0 where
  pub registry : RequestRegistry
  pub heap : Heap
  pub payloads : ℕ → Option BufferPayload
  pub pools : ℕ → FixedBufferIdxRegistry
  pub calls : List Call
  pub sockets : ℕ → Socket

-- What a method of the file `self` is called with: the host, liburing, the new future (`none` for
-- NULL), the thread that calls and the loop's, the loop's attribute `_closed` (`none` if it is not
-- there), and the payload and the strategy of the current execution context.
pub record Site : Type 0 where
  pub host : Host
  pub liburing : Liburing
  pub create_future : List Step → Option ℕ
  pub gettid : ℤ
  pub loop_tid : ℤ
  pub is_closing : Option Bool
  pub context_payload : Option ℕ
  pub stream_strategy : StreamStrategy
  pub self : ℕ
  pub fd : ℤ
  pub closed : Bool

-- A run ends with `none` when it reads through NULL or through a freed payload, reads or writes
-- outside an array, or aborts.
abbrev pub S : Type 0 → Type 0
S A = Caller → Option (A × Caller)

abbrev pub pure : {A : Type 0} → A → S A
pure a s = some (a, s)

abbrev pub run_next : {A B : Type 0} → Option (A × Caller) → (A → S B) → Option (B × Caller)
run_next none f = none
run_next (some (a, s)) f = f a s

infixl 5 ◌>>=◌ ◌>>◌
abbrev pub ◌>>=◌ : {A B : Type 0} → S A → (A → S B) → S B
◌>>=◌ m f s = run_next (m s) f

abbrev pub ◌>>◌ : {A B : Type 0} → S A → S B → S B
m >> k = m >>= λ _. k

abbrev pub deref : {A : Type 0} → Option A → S A
deref none s = none
deref (some a) s = some (a, s)

abbrev pub on_heap : {A : Type 0} → Option (A × Heap) → S A
on_heap none s = none
on_heap (some (a, heap)) s = some (a, record s { heap = heap })

abbrev pub in_heap : {A : Type 0} → H A → S A
in_heap m s = on_heap (m s.heap) s

-- A call of src/ops, with its answer and the calls of liburing.
abbrev pub answered : {A : Type 0} → A × List Call → S A
answered (a, calls) s = some (a, record s { calls = calls })

abbrev pub in_ring : {A : Type 0} → (List Call → A × List Call) → S A
in_ring m s = answered (m s.calls) s

abbrev pub set_error : S (Unit {0})
set_error = in_heap Heap.set_error

-- `PyErr_SetString(…); return NULL;`
abbrev pub raise : S (Option ℕ)
raise = do set_error; pure none

abbrev pub update {ℓ} : {A : Type ℓ} → (ℕ → A) → ℕ → A → ℕ → A
update f p a q = if p == q then a else f q

abbrev pub kept : Answer → S (Option ℕ)
kept none s = some (none, s)
kept (some (p, b)) s = some (some p, record s { payloads = update s.payloads p (some b) })

-- A function of buffers.c that answers a payload.
abbrev pub make_payload : H Answer → S (Option ℕ)
make_payload m = do r ← in_heap m; kept r

abbrev pub stored_payload : ℕ → S BufferPayload
stored_payload p s = deref (s.payloads p) s

-- `free_buffer_payload` of a payload that is not NULL: a freed payload is there no more.
abbrev pub drop_stored : ℕ → Bool → BufferPayload → S (Unit {0})
drop_stored p force b s =
    in_heap (Free.free_buffer_payload p b force)
      (if is_freed b force then record s { payloads = update s.payloads p none } else s)

unfoldable pub free_payload_at : ℕ → Bool → S (Unit {0})
unfolding Free.free_buffer_payload
free_payload_at p force = do b ← stored_payload p; drop_stored p force b

abbrev pub free_if_there : Option ℕ → S (Unit {0})
free_if_there none = pure tt
free_if_there (some p) = free_payload_at p false

-- What `registry_add` and `registry_remove` do outside the registry. The other effects are those of
-- `registry_destroy`.
unfoldable pub carry_out : List Effect → S (Unit {0})
unfolding free_payload_at give_back
carry_out [] = pure tt
carry_out (incref x ∷ es) = do in_heap (λ s. some (tt, log (got (reference x)) s)); carry_out es
carry_out (decref x ∷ es) = do in_heap (give_back (reference x)); carry_out es
carry_out (free_payload p force ∷ es) = do free_payload_at p force; carry_out es
carry_out (free_memory p ∷ es) = do in_heap (give_back (block p)); carry_out es
carry_out (_ ∷ es) = carry_out es

abbrev pub added : ℤ × RequestRegistry × List Effect → S ℤ
added (index, reg, es) s = (carry_out es >> pure index) (record s { registry = reg })

unfoldable pub add_request : Request → S ℤ
unfolding registry_add carry_out
add_request r s = added (registry_add s.registry r) s

abbrev pub removed : Option (RequestRegistry × List Effect) → S (Unit {0})
removed none s = none
removed (some (reg, es)) s = carry_out es (record s { registry = reg })

unfoldable pub cancel_request : ℤ → S (Unit {0})
unfolding registry_remove carry_out
cancel_request index s = removed (registry_remove s.registry index) s

module _ (site : Site) where
  abbrev pub got_future : Option ℕ → S (Option ℕ)
  got_future none s = some (none, record s { heap = record s.heap { error = true } })
  got_future (some f) s = some (some f, record s { heap = log (got (reference f)) s.heap })

  -- `create_future`, which leaves an exception set when it answers NULL
  abbrev pub create_future : S (Option ℕ)
  create_future s = got_future (site.create_future s.heap.steps) s

  -- ASSERT_RING_LOOP_IS_CLOSING: without the attribute an exception is set, and the method goes on.
  abbrev pub refuse_closing : Option Bool → S (Option ℕ) → S (Option ℕ)
  refuse_closing none body = do set_error; body
  refuse_closing (some true) body = raise
  refuse_closing (some false) body = body

  -- ASSERT_LOOP_THREAD, ASSERT_RING_LOOP_IS_CLOSING and the test of `self->closed`
  abbrev pub guarded : S (Option ℕ) → S (Option ℕ)
  guarded body =
      if not (eqb_ℤ site.loop_tid site.gettid)
      then raise
      else refuse_closing site.is_closing (if site.closed then raise else body)

  -- `PyArg_ParseTupleAndKeywords` and `parse_timeout_params`: `none` is a failure, which sets an
  -- exception.
  abbrev pub with_args : {A : Type 0} → Option A → (A → S (Option ℕ)) → S (Option ℕ)
  with_args none body = raise
  with_args (some a) body = body a

  -- `if (!…) return NULL;`, after undoing what was done before
  abbrev pub or_null : {A : Type 0} → S (Unit {0}) → Option A → (A → S (Option ℕ)) → S (Option ℕ)
  or_null undo none body = do undo; pure none
  or_null undo (some x) body = body x

  abbrev pub drop_reference : ℕ → S (Unit {0})
  drop_reference x = in_heap (give_back (reference x))

  unfoldable pub check_file_result : ℤ → ℤ → ℕ → S (Option ℕ)
  unfolding cancel_request give_back
  check_file_result result request_idx future =
      if ltb_ℤ result (pos 1)
      then (do
        if eqb_ℤ result (negsuc 0) || eqb_ℤ result (pos 0) then set_error else pure tt
        drop_reference future
        cancel_request request_idx
        pure none)
      else pure (some future)

  abbrev pub request_of : ℕ → Option ℕ → StreamStrategy → Opcode → Request
  request_of future payload stream opcode = record {
    future = future;
    buffer_payload = payload;
    stream_strategy = stream;
    opcode = opcode;
    file = some site.self;
    socket = none;
    sockaddr = none;
    msghdr = none;
  }

  -- The branches after `registry_add`: `full` is the one for a full registry.
  abbrev pub registered :
      ℕ → S (Option ℕ) → (ℤ → S ℤ) → (ℤ → ℤ → ℕ → S (Option ℕ)) → ℤ → S (Option ℕ)
  registered future full submit check request_idx =
      if is_neg request_idx
      then full
      else (do result ← submit request_idx; check result request_idx future)

  -- The end of a method, from `registry_add` on.
  unfoldable pub send_request :
      Request → S (Option ℕ) → (ℤ → S ℤ) → (ℤ → ℤ → ℕ → S (Option ℕ)) → S (Option ℕ)
  unfolding add_request
  send_request r full submit check = do
    request_idx ← add_request r
    registered r.future full submit check request_idx

  -- The branch for a full registry in most methods.
  abbrev pub refuse : ℕ → S (Unit {0}) → S (Option ℕ)
  refuse future undo = do drop_reference future; undo; raise

  -- The end of every method of a file.
  unfoldable pub register_and_submit :
      ℕ → Option ℕ → StreamStrategy → Opcode → (ℤ → S ℤ) → S (Option ℕ)
  unfolding send_request check_file_result free_payload_at give_back
  register_and_submit future payload stream opcode submit =
      send_request (request_of future payload stream opcode) (refuse future (free_if_there payload))
        submit check_file_result
