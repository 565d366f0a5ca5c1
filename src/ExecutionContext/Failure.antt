-- ===== src/ExecutionContext/Failure.antt =====
-- What `enter` selects, and how it fails when the context variable does not take the value.
use uringio.Base.{ℕ, ◌≡◌, refl, Bool, true, false, Option, none, some}
use uringio.ExecutionContext.{
  Context, Python, Env, clone_execution_context, context_var_set, free_exec_context,
  get_stream_strategy, get_transfer_mode, get_buffer,
}
use uringio.ExecutionContext.Contexts.{
  StreamStrategyCtx, TransferModeCtx, BufferModeCtx, push, stream_strategy_ctx_enter,
  transfer_mode_ctx_enter, buffer_mode_ctx_enter,
}
use uringio.ExecutionContext.Laws.{Behaves, Ends, Ends-weaken, At, get-At, ==-self}
use uringio.ExecutionContext.Nesting.{
  strategy_of, transfer_of, ctx_of, transfer_ctx_of, Entered, stream_strategy_ctx_enter-Entered,
  transfer_mode_ctx_enter-Entered,
}

module _ {Var : Type 0} (py : Python Var) where
  -- What the methods read from the current context.
  pub record Reads (u : Env Var) (ctx : Context) : Type 0 where
    pub stream : get_stream_strategy py u ≡ some (ctx.stream, u)
    pub transfer : get_transfer_mode py u ≡ some (ctx.transfer_mode, u)
    pub buffer : get_buffer py u ≡ some (ctx.buffer_payload, u)

  At-Reads : (u : Env Var) (v : Var) (c p : ℕ) (ctx : Context) → At py u v c p ctx → Reads u ctx
  unfolding get_stream_strategy get_transfer_mode get_buffer
  At-Reads u v c p ctx a = record {
    stream = rw (get-At py u v c p ctx a) (rw (a.context) refl);
    transfer = rw (get-At py u v c p ctx a) (rw (a.context) refl);
    buffer = rw (get-At py u v c p ctx a) (rw (a.context) refl);
  }

  -- What the methods read afterwards: the context changed if there is a manager, and as it was on
  -- NULL.
  abbrev pub Selects : {C : Type 0} → Context → (Context → Context) → Option C → Env Var → Type 0
  Selects ctx change none u = Reads u ctx
  Selects ctx change (some self) u = Reads u (change ctx)

  Entered-Selects :
      (law : Behaves py) (s : Env Var) (v : Var) (c p : ℕ) (ctx : Context) (a : At py s v c p ctx)
      {C : Type 0} (self : C) (keep : C → ℕ → C) (change : Context → Context) (r : Option C)
      (u : Env Var)
      → Entered py law self keep s v c p ctx a change r u
      → Selects ctx change r u
  Entered-Selects law s v c p ctx a self keep change none u (b, x) = At-Reads u v c p ctx b
  Entered-Selects law s v c p ctx a self keep change (some k) u
        (token, same, (v', c', q, set, b, x, _, _, _)) =
      At-Reads u v' c' q (change ctx) b

  -- With a `ContextVar` that behaves and whose `set` does not fail, on every other path of entering
  -- a stream strategy or a transfer mode, the methods then read from the current context: if a
  -- manager is answered, its strategy or its mode, and the rest as before; on NULL, all as before.
  pub enter-Selects :
      (law : Behaves py) (s : Env Var) (v : Var) (c p : ℕ) (ctx : Context)
      → At py s v c p ctx
      → ((self : StreamStrategyCtx)
          → Ends
              (stream_strategy_ctx_enter py self s)
              (Selects ctx (λ x. record x { stream = self.payload })))
        × ((self : TransferModeCtx)
            → Ends
                (transfer_mode_ctx_enter py self s)
                (Selects ctx (λ x. record x { transfer_mode = self.payload })))
  enter-Selects law s v c p ctx a = (
    (λ self.
        Ends-weaken
          (Entered py law self (ctx_of py law) s v c p ctx a (strategy_of py law self.payload)) _
          (stream_strategy_ctx_enter py self s)
          (stream_strategy_ctx_enter-Entered py law self s v c p ctx a)
          (Entered-Selects law s v c p ctx a self (ctx_of py law)
            (strategy_of py law self.payload))),
    (λ self.
        Ends-weaken
          (Entered py law self (transfer_ctx_of py law) s v c p ctx a
            (transfer_of py law self.payload))
          _ (transfer_mode_ctx_enter py self s)
          (transfer_mode_ctx_enter-Entered py law self s v c p ctx a)
          (Entered-Selects law s v c p ctx a self (transfer_ctx_of py law)
            (transfer_of py law self.payload))),
  )

  push_fails :
      (s : Env Var) (v : Var) (c p c' q : ℕ) (ctx : Context) (frees : Bool)
      (change : Context → Context)
      → At py s v c p ctx
      → py.malloc_context s.contexts ≡ some q
      → py.new_capsule s.capsules ≡ some c'
      → py.set c' v ≡ none
      → push py frees change s ≡ none
  unfolding clone_execution_context context_var_set free_exec_context
  push_fails s v c p c' q ctx true change a m n e =
      rw (get-At py s v c p ctx a)
        (rw (a.context, m, ==-self q, n, a.var, e, ==-self c', ==-self q) (rw (==-self q) refl))
  push_fails s v c p c' q ctx false change a m n e =
      rw (get-At py s v c p ctx a)
        (rw (a.context, m, ==-self q, n, a.var, e, ==-self c', ==-self q) (rw (==-self q) refl))

  -- When `ContextVar.set` fails, entering a stream strategy, a transfer mode or a buffer mode frees
  -- the new context twice: the capsule's destructor frees it, and then the function does.
  pub enter_frees_twice :
      (s : Env Var) (v : Var) (c p c' q : ℕ) (ctx : Context)
      → At py s v c p ctx
      → py.malloc_context s.contexts ≡ some q
      → py.new_capsule s.capsules ≡ some c'
      → py.set c' v ≡ none
      → ((self : StreamStrategyCtx) → stream_strategy_ctx_enter py self s ≡ none)
        × ((self : TransferModeCtx) → transfer_mode_ctx_enter py self s ≡ none)
        × ((self : BufferModeCtx) → buffer_mode_ctx_enter py self s ≡ none)
  unfolding stream_strategy_ctx_enter transfer_mode_ctx_enter buffer_mode_ctx_enter
  enter_frees_twice s v c p c' q ctx a m n e = (
    (λ self.
        rw (push_fails s v c p c' q ctx true (λ x. record x { stream = self.payload }) a m n e)
          refl),
    (λ self.
        rw
          (push_fails s v c p c' q ctx true (λ x. record x { transfer_mode = self.payload }) a m n
            e)
          refl),
    (λ self.
        rw
          (push_fails s v c p c' q ctx false
            (λ x. record x {
              buffer_mode = self.payload;
              buffer_payload = some self.buffer_payload;
            })
            a m n e)
          refl),
  )
