-- ===== src/ExecutionContext/Contexts.antt =====
-- src/python_api/execution_context/execution_context.c: entering and leaving the context managers
-- of stream strategies and transfer modes, and those that give buffers to the ring. An answer is
-- the manager itself, with its new token, and the manager without it after `exit`; `none` is NULL.
-- The references to managers and tokens are not counted.
use uringio.Base.{ℕ, ℤ, is_neg, Bool, true, false, Option, none, some, if◌then◌else◌}
use uringio.Enums.{StreamStrategy, TransferMode, BufferMode}
use uringio.ExecutionContext.{
  Context, Python, X, pure, ◌>>=◌, ◌>>◌, set_error, fail, or_null, context_at, write_context,
  free_context, drop_capsule, clone_execution_context, capsule_new, context_var_set,
  context_var_reset, context_var_get, free_exec_context,
}
use uringio.ExecutionContext.Modes.{activate, deactivate}

pub record StreamStrategyCtx : Type 0 where
  pub payload : StreamStrategy
  pub token : Option ℕ

pub record TransferModeCtx : Type 0 where
  pub payload : TransferMode
  pub token : Option ℕ

pub record BufferModeCtx : Type 0 where
  pub payload : BufferMode
  pub token : Option ℕ
  pub buffer_payload : ℕ

pub record ExecutionContextCtx : Type 0 where
  pub payload : ℕ
  pub token : Option ℕ
  pub buffer_payload : ℕ

module _ {Var : Type 0} (py : Python Var) where
  -- A token, or NULL after the new context is freed.
  abbrev pub token_or_free : (pointer : ℕ) → Option ℕ → X Var (Option ℕ)
  token_or_free p none = do free_context p; pure none
  token_or_free p (some token) = pure (some token)

  abbrev pub set_capsule : (pointer : ℕ) → (capsule : ℕ) → X Var (Option ℕ)
  set_capsule p c = do token ← context_var_set py c; drop_capsule c token; token_or_free p token

  -- Without a capsule, all but the buffer modes free the new context.
  abbrev pub with_capsule : (frees : Bool) → (pointer : ℕ) → Option ℕ → X Var (Option ℕ)
  with_capsule true p none = do free_context p; pure none
  with_capsule false p none = pure none
  with_capsule frees p (some c) = set_capsule p c

  -- The part that the three managers share: a copy of the current context, changed, is the new
  -- value of the variable.
  abbrev pub push : (frees : Bool) → (Context → Context) → X Var (Option ℕ)
  push frees change = do
    current_context ← context_var_get py none
    or_null current_context λ src. do
      new_context ← clone_execution_context py src
      or_null new_context λ p. do
        c ← context_at p
        write_context p (change c)
        capsule ← capsule_new py p
        with_capsule frees p capsule

  -- `Py_CLEAR(self->token)`, and the end of every `exit`: -1 of `ContextVar_reset` is NULL, `true`
  -- is False.
  abbrev pub reset_or : X Var Bool → ℤ → X Var Bool
  reset_or rest result = if is_neg result then (do set_error; pure false) else rest

  unfoldable pub stream_strategy_ctx_enter : StreamStrategyCtx → X Var (Option StreamStrategyCtx)
  unfolding context_var_get clone_execution_context context_var_set free_exec_context
  stream_strategy_ctx_enter self = do
    token ← push true (λ c. record c { stream = self.payload })
    or_null token λ k. pure (some (record self { token = some k }))

  unfoldable pub stream_strategy_ctx_exit : StreamStrategyCtx → X Var (Bool × StreamStrategyCtx)
  unfolding context_var_reset
  stream_strategy_ctx_exit self = do
    result ← context_var_reset py self.token
    ok ← reset_or (pure true) result
    pure (ok, record self { token = none })

  unfoldable pub transfer_mode_ctx_enter : TransferModeCtx → X Var (Option TransferModeCtx)
  unfolding context_var_get clone_execution_context context_var_set free_exec_context
  transfer_mode_ctx_enter self = do
    token ← push true (λ c. record c { transfer_mode = self.payload })
    or_null token λ k. pure (some (record self { token = some k }))

  unfoldable pub transfer_mode_ctx_exit : TransferModeCtx → X Var (Bool × TransferModeCtx)
  unfolding context_var_reset
  transfer_mode_ctx_exit self = do
    result ← context_var_reset py self.token
    ok ← reset_or (pure true) result
    pure (ok, record self { token = none })

  -- `ContextVar_reset(token); PyErr_SetString(…); return NULL;` unless the mode is on.
  abbrev pub activated : {A : Type 0} → A → (token : ℕ) → Bool → X Var (Option A)
  activated self token true = pure (some self)
  activated self token false = do context_var_reset py (some token); fail

  unfoldable pub buffer_mode_ctx_enter : BufferModeCtx → X Var (Option BufferModeCtx)
  unfolding context_var_get clone_execution_context context_var_set free_exec_context activate
      context_var_reset
  buffer_mode_ctx_enter self = do
    token ←
        push false
          (λ c. record c { buffer_mode = self.payload; buffer_payload = some self.buffer_payload })
    or_null token λ k. do
      on ← activate py self.buffer_payload
      activated (record self { token = some k }) k on

  unfoldable pub buffer_mode_ctx_exit : BufferModeCtx → X Var (Bool × BufferModeCtx)
  unfolding context_var_reset deactivate
  buffer_mode_ctx_exit self = do
    result ← context_var_reset py self.token
    ok ← reset_or (do deactivate py self.buffer_payload; pure true) result
    pure (ok, record self { token = none })

  -- `ExecutionContextCtx_enter` from the capsule on; it frees nothing when the variable is not set.
  abbrev pub token_or_error : Option ℕ → X Var (Option ℕ)
  token_or_error none = fail
  token_or_error (some token) = pure (some token)

  unfoldable pub execution_context_ctx_enter :
      ExecutionContextCtx → X Var (Option ExecutionContextCtx)
  unfolding context_var_set free_exec_context activate context_var_reset
  execution_context_ctx_enter self = do
    capsule ← capsule_new py self.payload
    or_null capsule λ c. do
      token ← context_var_set py c
      drop_capsule c token
      checked ← token_or_error token
      or_null checked λ k. do
        on ← activate py self.buffer_payload
        activated (record self { token = some k }) k on

  unfoldable pub execution_context_ctx_exit :
      ExecutionContextCtx → X Var (Bool × ExecutionContextCtx)
  unfolding context_var_reset
  execution_context_ctx_exit self = do
    result ← context_var_reset py self.token
    ok ← reset_or (pure true) result
    pure (ok, record self { token = none })
