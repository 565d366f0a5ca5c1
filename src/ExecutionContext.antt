-- ===== src/ExecutionContext.antt =====
-- src/python_api/execution_context: the execution context, which the context variable holds, and
-- its functions of contextvar.c. CPython's class `ContextVar` is a parameter.
use uringio.Base.{ℕ, ℤ, pos, negsuc, Bool, true, false, Option, none, some, if◌then◌else◌}
use uringio.Enums.{StreamStrategy, oneshot, TransferMode, normal_transfer, BufferMode, normal_buf}
use uringio.Uring.{Liburing}
use uringio.Methods
use uringio.Methods.{Caller, update}
pub mod Modes
pub mod Contexts
pub mod Laws
pub mod Nesting
pub mod Failure
mod Tests

pub record Context : Type 0 where
  pub buffer_mode : BufferMode
  pub stream : StreamStrategy
  pub transfer_mode : TransferMode
  pub buffer_payload : Option ℕ

-- A `ContextVar` whose states are `Var`. `get` is its value, a capsule, if it has one; `set`
-- answers a token, and the variable with the value; `reset` takes a token, and answers the variable
-- and the capsule that it was the last to refer to, if any; `none` is NULL, with an exception.
-- `create` makes the variable. Two allocators choose the address of a new context and of a new
-- capsule, by what there is; `is_capsule` is `PyCapsule_CheckExact`.
pub record Python (Var : Type 0) : Type 0 where
  pub create : Option Var
  pub get : Var → Option ℕ
  pub set : (value : ℕ) → Var → Option (ℕ × Var)
  pub reset : (token : ℕ) → Var → Option (Var × Option ℕ)
  pub malloc_context : (ℕ → Option Context) → Option ℕ
  pub new_capsule : (ℕ → Option ℕ) → Option ℕ
  pub is_capsule : ℕ → Bool
  pub liburing : Liburing
  pub registry_memory : Bool × Bool
  pub registry_address : ℕ

-- The loop's state; `execution_context_var`, `none` for NULL; the contexts by their addresses; and
-- the pointers that capsules hold.
pub record Env (Var : Type 0) : Type 0 where
  pub caller : Caller
  pub var : Option Var
  pub contexts : ℕ → Option Context
  pub capsules : ℕ → Option ℕ

-- A run ends with `none` when it reads through NULL, or frees a context that is not there.
abbrev pub X : Type 0 → Type 0 → Type 0
X Var A = Env Var → Option (A × Env Var)

module _ {Var : Type 0} where
  abbrev pub pure : {A : Type 0} → A → X Var A
  pure a s = some (a, s)

  abbrev pub run_next : {A B : Type 0} → Option (A × Env Var) → (A → X Var B) → Option (B × Env Var)
  run_next none f = none
  run_next (some (a, s)) f = f a s

  infixl 5 ◌>>=◌ ◌>>◌
  abbrev pub ◌>>=◌ : {A B : Type 0} → X Var A → (A → X Var B) → X Var B
  ◌>>=◌ m f s = run_next (m s) f

  abbrev pub ◌>>◌ : {A B : Type 0} → X Var A → X Var B → X Var B
  m >> k = m >>= λ _. k

  abbrev pub deref : {A : Type 0} → Option A → X Var A
  deref none s = none
  deref (some a) s = some (a, s)

  abbrev pub with_caller : {A : Type 0} → Env Var → Option (A × Caller) → Option (A × Env Var)
  with_caller s none = none
  with_caller s (some (a, c)) = some (a, record s { caller = c })

  abbrev pub in_caller : {A : Type 0} → Methods.S A → X Var A
  in_caller m s = with_caller s (m s.caller)

  abbrev pub set_error : X Var (Unit {0})
  set_error = in_caller Methods.set_error

  abbrev pub fail : {A : Type 0} → X Var (Option A)
  fail = do set_error; pure none

  -- `if (!…) return NULL;`
  abbrev pub or_null : {A B : Type 0} → Option A → (A → X Var (Option B)) → X Var (Option B)
  or_null none f = pure none
  or_null (some a) f = f a

  abbrev pub context_at : ℕ → X Var Context
  context_at p s = deref (s.contexts p) s

  abbrev pub write_context : ℕ → Context → X Var (Unit {0})
  write_context p c s = some (tt, record s { contexts = update s.contexts p (some c) })

  abbrev pub free_there : ℕ → Option Context → X Var (Unit {0})
  free_there p none s = none
  free_there p (some c) s = some (tt, record s { contexts = update s.contexts p none })

  -- `free` of a context
  abbrev pub free_context : ℕ → X Var (Unit {0})
  free_context p s = free_there p (s.contexts p) s

  abbrev pub save_capsule : (capsule pointer : ℕ) → X Var (Unit {0})
  save_capsule c p s = some (tt, record s { capsules = update s.capsules c (some p) })

  abbrev pub save_var : Var → X Var (Unit {0})
  save_var v s = some (tt, record s { var = some v })

  -- The destructor of a capsule, whose pointer is not NULL.
  unfoldable pub free_exec_context : (capsule : ℕ) → X Var (Unit {0})
  free_exec_context c s = (deref (s.capsules c) >>= free_context) s

  abbrev pub forget_capsule : ℕ → X Var (Unit {0})
  forget_capsule c s = some (tt, record s { capsules = update s.capsules c none })

  -- A capsule that loses its last reference goes, after its destructor.
  abbrev pub release_capsule : Option ℕ → X Var (Unit {0})
  release_capsule none = pure tt
  release_capsule (some c) = do free_exec_context c; forget_capsule c

  -- `Py_DECREF(capsule)`: the variable has a reference if it took the value; otherwise the capsule
  -- goes, with its destructor.
  abbrev pub drop_capsule : (capsule : ℕ) → (taken : Option ℕ) → X Var (Unit {0})
  drop_capsule c (some token) = pure tt
  drop_capsule c none = release_capsule (some c)

module _ {Var : Type 0} (py : Python Var) where
  -- NULL of `malloc` in `clone_execution_context` comes with an exception.
  abbrev pub cloned : Context → Option ℕ → X Var (Option ℕ)
  cloned c none = fail
  cloned c (some p) = do write_context p c; pure (some p)

  unfoldable pub clone_execution_context : (src : ℕ) → X Var (Option ℕ)
  clone_execution_context src s =
      (context_at src >>= λ c. cloned c (py.malloc_context s.contexts)) s

  abbrev pub made_capsule : (pointer : ℕ) → Option ℕ → X Var (Option ℕ)
  made_capsule p none = fail
  made_capsule p (some c) = do save_capsule c p; pure (some c)

  -- `PyCapsule_New(pointer, "ExecutionContext", free_exec_context)`
  abbrev pub capsule_new : (pointer : ℕ) → X Var (Option ℕ)
  capsule_new p s = made_capsule p (py.new_capsule s.capsules) s

  abbrev pub took : Option (ℕ × Var) → X Var (Option ℕ)
  took none = fail
  took (some (token, v)) = do save_var v; pure (some token)

  abbrev pub set_var : (value : ℕ) → Option Var → X Var (Option ℕ)
  set_var value none = fail
  set_var value (some v) = took (py.set value v)

  -- A failing `PyUnicode_FromString` counts as a failure of the call that it is for.
  unfoldable pub context_var_set : (value : ℕ) → X Var (Option ℕ)
  context_var_set value s = set_var value s.var s

  abbrev pub was_reset : Option (Var × Option ℕ) → X Var ℤ
  was_reset none = do set_error; pure (negsuc 0)
  was_reset (some (v, dropped)) = do save_var v; release_capsule dropped; pure (pos 0)

  -- Without a token, CPython's `reset` misses its argument.
  abbrev pub reset_to : Option ℕ → Var → X Var ℤ
  reset_to none v = was_reset none
  reset_to (some token) v = was_reset (py.reset token v)

  abbrev pub reset_var : Option ℕ → Option Var → X Var ℤ
  reset_var token none = was_reset none
  reset_var token (some v) = reset_to token v

  unfoldable pub context_var_reset : (token : Option ℕ) → X Var ℤ
  unfolding free_exec_context
  context_var_reset token s = reset_var token s.var s

  abbrev pub or_default : Option ℕ → Option ℕ → Option ℕ
  or_default (some c) default_val = some c
  or_default none default_val = default_val

  abbrev pub pointer_of : Option ℕ → X Var (Option ℕ)
  pointer_of none = fail
  pointer_of (some c) = if py.is_capsule c then (λ s. some (s.capsules c, s)) else fail

  abbrev pub get_var : Option ℕ → Option Var → X Var (Option ℕ)
  get_var default_val none = fail
  get_var default_val (some v) = pointer_of (or_default (py.get v) default_val)

  unfoldable pub context_var_get : (default_val : Option ℕ) → X Var (Option ℕ)
  context_var_get default_val s = get_var default_val s.var s

  -- The context that `ContextVar_init` makes.
  abbrev pub initial : Context
  initial = record {
    buffer_mode = normal_buf;
    stream = oneshot;
    transfer_mode = normal_transfer;
    buffer_payload = none;
  }

  abbrev pub is_set : Option ℕ → Bool
  is_set none = false
  is_set (some token) = true

  abbrev pub init_token : (capsule : ℕ) → Option ℕ → X Var Bool
  init_token c token = do drop_capsule c token; pure (is_set token)

  abbrev pub init_capsule : (pointer : ℕ) → Option ℕ → X Var Bool
  init_capsule p none = do free_context p; pure false
  init_capsule p (some c) = do token ← context_var_set c; init_token c token

  abbrev pub init_context : Option ℕ → X Var Bool
  init_context none = do set_error; pure false
  init_context (some p) = do
    write_context p initial
    capsule ← capsule_new p
    init_capsule p capsule

  abbrev pub create_var : Option Var → Option Var → X Var Bool
  create_var (some v) made = pure true
  create_var none none = do set_error; pure false
  create_var none (some v) = do save_var v; pure true

  abbrev pub init_created : Bool → X Var Bool
  init_created false = pure false
  init_created true = λ s. init_context (py.malloc_context s.contexts) s

  -- `true` stands for the variable, `false` for NULL.
  unfoldable pub context_var_init : X Var Bool
  unfolding context_var_set free_exec_context
  context_var_init s = (create_var s.var py.create >>= init_created) s

  abbrev pub get_context : X Var Context
  get_context = do p ← context_var_get none; q ← deref p; context_at q

  unfoldable pub get_buffer : X Var (Option ℕ)
  unfolding context_var_get
  get_buffer = do c ← get_context; pure c.buffer_payload

  unfoldable pub get_transfer_mode : X Var TransferMode
  unfolding context_var_get
  get_transfer_mode = do c ← get_context; pure c.transfer_mode

  unfoldable pub get_stream_strategy : X Var StreamStrategy
  unfolding context_var_get
  get_stream_strategy = do c ← get_context; pure c.stream
