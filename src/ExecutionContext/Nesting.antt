-- ===== src/ExecutionContext/Nesting.antt =====
-- Nested `with` blocks of stream strategies and transfer modes: what holds inside them, and that
-- they restore the context.
use uringio.Base.{
  ◌⊎◌, inl, inr, ℕ, ℤ, ◌≡◌, refl, ◌∙◌, ◌&&◌, Bool, true, false, Option, none, some, if◌then◌else◌,
}
use uringio.Enums.{StreamStrategy, TransferMode}
use uringio.ExecutionContext.{
  run_next, Context, Python, Env, X, pure, ◌>>=◌, or_null, free_exec_context, context_var_reset,
  was_reset,
}
use uringio.ExecutionContext.Contexts.{
  StreamStrategyCtx, TransferModeCtx, push, reset_or, stream_strategy_ctx_enter,
  stream_strategy_ctx_exit, transfer_mode_ctx_enter, transfer_mode_ctx_exit,
}
use uringio.ExecutionContext.Laws.{
  Behaves, Ends, Ends-weaken, bind-Ends, Extends, Extends-refl, Extends-trans, update-elsewhere, At,
  Pushed, push-Ends,
}

-- A client: `with loop.stream_strategy(m): body` or `with loop.transfer_mode(m): body`, and the
-- rest.
pub data Block : Type 0 where
  done : Block
  strategy : StreamStrategy → (body rest : Block) → Block
  transfer : TransferMode → (body rest : Block) → Block

module _ {Var : Type 0} (py : Python Var) where
  -- A `with` statement: an exception of `enter` passes the body by, and after the body, whether it
  -- raised or not, `exit` is run. `false` is an exception.
  abbrev within :
      {C : Type 0} → Option C → (C → X Var (Bool × C)) → X Var Bool → X Var Bool → X Var Bool
  within none exit body rest = pure false
  within (some self) exit body rest = do
    ok ← body
    (out, left) ← exit self
    if ok && out then rest else pure false

  unfoldable pub run : Block → X Var Bool
  unfolding stream_strategy_ctx_enter stream_strategy_ctx_exit transfer_mode_ctx_enter
      transfer_mode_ctx_exit
  run done = pure true
  run (strategy m body rest) = do
    self ← stream_strategy_ctx_enter py (record { payload = m; token = none })
    within self (stream_strategy_ctx_exit py) (run body) (run rest)
  run (transfer m body rest) = do
    self ← transfer_mode_ctx_enter py (record { payload = m; token = none })
    within self (transfer_mode_ctx_exit py) (run body) (run rest)

  -- What there was is there still, and the value of the variable is the capsule that it was, after
  -- an exception too.
  abbrev pub Restores : Env Var → (c p : ℕ) → Context → Bool → Env Var → Type 0
  Restores s c p ctx ok u = Extends s u × ((w : Var) × At py u w c p ctx)

  module _ (law : Behaves py) where
    -- `exit` with the token `k`.
    abbrev exited : {C : Type 0} → (left : C) → (k : ℕ) → X Var (Bool × C)
    exited left k = do
      result ← context_var_reset py (some k)
      out ← reset_or py (pure true) result
      pure (out, left)

    -- The end of `exit`, with the token of the `set` of the capsule `c'`, which is current: the
    -- capsule and its context may go.
    exit-Ends :
        (s u : Env Var) (v v' w : Var) (c c' p q k : ℕ) (ctx x : Context)
        → At py s v c p ctx
        → py.set c' v ≡ some (k, v')
        → s.contexts q ≡ none
        → s.capsules c' ≡ none
        → Extends s u
        → At py u w c' q x
        → Ends ((context_var_reset py (some k) >>= reset_or py (pure true)) u) (Restores s c p ctx)
    unfolding context_var_reset free_exec_context
    exit-Ends s u v v' w c c' p q k ctx x a set no_context no_capsule y b =
        let (z, dropped, e, value, last) = law.reset_token c' k v v' w set b.value in
        rw (b.var, e) (released z dropped value last)
      where
        released :
            (z : Var) (dropped : Option ℕ)
            → py.get z ≡ py.get v
            → (dropped ≡ none) ⊎ (dropped ≡ some c')
            → Ends
                (run_next
                  (was_reset py (some (z, dropped)) (record u { var = some w }))
                  (reset_or py (pure true)))
                (Restores s c p ctx)
        released z dropped value (inl e) = rw e (
          record { contexts = y.contexts; capsules = y.capsules },
          (
            z,
            record {
              var = refl;
              value = value ∙ a.value;
              is_capsule = a.is_capsule;
              pointer = y.capsules c p a.pointer;
              context = y.contexts p ctx a.context;
            },
          ),
        )
        released z dropped value (inr e) =
            rw (e, b.pointer, b.context)
              (
                record {
                  contexts = λ n m h.
                      update-elsewhere s.contexts u.contexts q n m none no_context h
                        (y.contexts n m h);
                  capsules = λ n m h.
                      update-elsewhere s.capsules u.capsules c' n m none no_capsule h
                        (y.capsules n m h);
                },
                (
                  z,
                  record {
                    var = refl;
                    value = value ∙ a.value;
                    is_capsule = a.is_capsule;
                    pointer =
                        update-elsewhere s.capsules u.capsules c' c p none no_capsule a.pointer
                          (y.capsules c p a.pointer);
                    context =
                        update-elsewhere s.contexts u.contexts q p ctx none no_context a.context
                          (y.contexts p ctx a.context);
                  },
                ),
              )

    abbrev leaving : {C : Type 0} → C → Bool → X Var (Bool × C)
    leaving left out = pure (out, left)

    exited-Ends :
        {C : Type 0} (left : C) (k : ℕ) (t : Env Var) (Q : Bool → Env Var → Type 0)
        → Ends ((context_var_reset py (some k) >>= reset_or py (pure true)) t) Q
        → Ends (exited left k t) (λ out. Q out.0)
    exited-Ends {C = C} left k t Q = go (context_var_reset py (some k) t)
      where
        kept :
            (r : Option (Bool × Env Var))
            → Ends r Q
            → Ends (run_next r (leaving left)) (λ out. Q out.0)
        kept none h = h
        kept (some (out, u)) h = h

        go :
            (r : Option (ℤ × Env Var))
            → Ends (run_next r (reset_or py (pure true))) Q
            → Ends
                (run_next r (λ result. reset_or py (pure true) result >>= leaving left))
                (λ out. Q out.0)
        go none h = h
        go (some (result, u)) h = kept (reset_or py (pure true) result u) h

    -- A `with` statement from its body on, with the token `k` of a `set` on the variable `v`.
    within-Ends :
        {C : Type 0} (self left : C) (exit : C → X Var (Bool × C)) (body rest : X Var Bool)
        (s u : Env Var) (v v' : Var) (c c' p q k : ℕ) (ctx ctx' : Context)
        → At py s v c p ctx
        → py.set c' v ≡ some (k, v')
        → s.contexts q ≡ none
        → s.capsules c' ≡ none
        → Extends s u
        → ((t : Env Var) → exit self t ≡ exited left k t)
        → Ends (body u) (Restores u c' q ctx')
        → ((t : Env Var) (w : Var) → At py t w c p ctx → Ends (rest t) (Restores t c p ctx))
        → Ends (within (some self) exit body rest u) (Restores s c p ctx)
    within-Ends self left exit body rest s u v v' c c' p q k ctx ctx' a set new new' x leave inner
          next =
        bind-Ends (Restores u c' q ctx') (Restores s c p ctx) body _ u inner (λ ok t (y, (w, b)).
          bind-Ends (λ out. Restores s c p ctx out.0) (Restores s c p ctx) (exit self) _ t
            (rw (leave t) (
              exited-Ends left k t (Restores s c p ctx)
                (exit-Ends s t v v' w c c' p q k ctx ctx' a set new new' (Extends-trans x y) b)))
            (λ out. ended ok out.0))
      where
        ended :
            (ok out : Bool) (t : Env Var)
            → Restores s c p ctx out t
            → Ends ((if ok && out then rest else pure false) t) (Restores s c p ctx)
        ended true true t (y, (w, b)) =
            Ends-weaken (Restores t c p ctx) (Restores s c p ctx) (rest t) (next t w b)
              (λ out r (z, g). (Extends-trans y z, g))
        ended true false t h = h
        ended false out t h = h

    abbrev pub strategy_of : StreamStrategy → Context → Context
    strategy_of m x = record x { stream = m }

    abbrev pub transfer_of : TransferMode → Context → Context
    transfer_of m x = record x { transfer_mode = m }

    abbrev pub ctx_of : StreamStrategyCtx → ℕ → StreamStrategyCtx
    ctx_of self k = record self { token = some k }

    abbrev pub transfer_ctx_of : TransferModeCtx → ℕ → TransferModeCtx
    transfer_ctx_of self k = record self { token = some k }

    abbrev stream_self : StreamStrategy → StreamStrategyCtx
    stream_self m = record { payload = m; token = none }

    abbrev transfer_self : TransferMode → TransferModeCtx
    transfer_self m = record { payload = m; token = none }

    -- The manager that is entered keeps the token; NULL leaves the current context.
    abbrev pub Entered :
        {C : Type 0}
        → C
        → (C → ℕ → C)
        → (s : Env Var) (v : Var) (c p : ℕ) (ctx : Context) → At py s v c p ctx
        → (Context → Context)
        → Option C
        → Env Var
        → Type 0
    Entered self keep s v c p ctx a change none u = Pushed py law s v c p ctx a change none u
    Entered self keep s v c p ctx a change (some self') u =
        (k : ℕ) × (self' ≡ keep self k) × Pushed py law s v c p ctx a change (some k) u

    module _ (s : Env Var) (v : Var) (c p : ℕ) (ctx : Context) (a : At py s v c p ctx) where
      kept-Entered :
          {C : Type 0} (self : C) (keep : C → ℕ → C) (change : Context → Context) (token : Option ℕ)
          (u : Env Var)
          → Pushed py law s v c p ctx a change token u
          → Ends
              (or_null token (λ k. pure (some (keep self k))) u)
              (Entered self keep s v c p ctx a change)
      kept-Entered self keep change none u h = h
      kept-Entered self keep change (some k) u h = (k, refl, h)

    pub stream_strategy_ctx_enter-Entered :
        (self : StreamStrategyCtx) (s : Env Var) (v : Var) (c p : ℕ) (ctx : Context)
        (a : At py s v c p ctx)
        → Ends
            (stream_strategy_ctx_enter py self s)
            (Entered self ctx_of s v c p ctx a (strategy_of self.payload))
    unfolding stream_strategy_ctx_enter
    stream_strategy_ctx_enter-Entered self s v c p ctx a =
        bind-Ends (Pushed py law s v c p ctx a (strategy_of self.payload))
          (Entered self ctx_of s v c p ctx a (strategy_of self.payload))
          (push py true (strategy_of self.payload)) _ s
          (push-Ends py law s v c p ctx a true (strategy_of self.payload))
          (kept-Entered s v c p ctx a self ctx_of (strategy_of self.payload))

    pub transfer_mode_ctx_enter-Entered :
        (self : TransferModeCtx) (s : Env Var) (v : Var) (c p : ℕ) (ctx : Context)
        (a : At py s v c p ctx)
        → Ends
            (transfer_mode_ctx_enter py self s)
            (Entered self transfer_ctx_of s v c p ctx a (transfer_of self.payload))
    unfolding transfer_mode_ctx_enter
    transfer_mode_ctx_enter-Entered self s v c p ctx a =
        bind-Ends (Pushed py law s v c p ctx a (transfer_of self.payload))
          (Entered self transfer_ctx_of s v c p ctx a (transfer_of self.payload))
          (push py true (transfer_of self.payload)) _ s
          (push-Ends py law s v c p ctx a true (transfer_of self.payload))
          (kept-Entered s v c p ctx a self transfer_ctx_of (transfer_of self.payload))

    Entered-Ends :
        {C : Type 0} (self left : C) (keep : C → ℕ → C) (exit : C → X Var (Bool × C))
        (body rest : Block) (s : Env Var) (v : Var) (c p : ℕ) (ctx : Context)
        (a : At py s v c p ctx) (change : Context → Context)
        → ((k : ℕ) (t : Env Var) → exit (keep self k) t ≡ exited left k t)
        → ((t : Env Var) (w : Var) (c' q : ℕ) (x : Context)
            → At py t w c' q x
            → Ends (run body t) (Restores t c' q x))
        → ((t : Env Var) (w : Var) (c' q : ℕ) (x : Context)
            → At py t w c' q x
            → Ends (run rest t) (Restores t c' q x))
        → (r : Option C) (u : Env Var) → Entered self keep s v c p ctx a change r u
        → Ends (within r exit (run body) (run rest) u) (Restores s c p ctx)
    Entered-Ends self left keep exit body rest s v c p ctx a change leave inner next none u (b, x) =
        (x, (v, b))
    Entered-Ends self left keep exit body rest s v c p ctx a change leave inner next (some self') u
          (k, same, (v', c', q, set, b, x, _, new, new')) =
        rw same (
          within-Ends (keep self k) left exit (run body) (run rest) s u v v' c c' p q k ctx
            (change ctx) a set new new' x (leave k) (inner u v' c' q (change ctx) b)
            (λ t w b. next t w c p ctx b))

    -- With a `ContextVar` whose `set` does not fail, and whose `reset` by the token of the current
    -- value neither fails nor drops another capsule than that value: however `with` blocks of
    -- stream strategies and transfer modes are nested and follow one another, and wherever the
    -- memory for a context or a capsule runs out, no destructor, free or read meets a context that
    -- is not there, the contexts and capsules that there were are still there, and the current
    -- context in the end is the one at the start, after an exception too.
    pub run-Restores :
        (b : Block) (s : Env Var) (v : Var) (c p : ℕ) (ctx : Context)
        → At py s v c p ctx
        → Ends (run b s) (Restores s c p ctx)
    unfolding run stream_strategy_ctx_enter stream_strategy_ctx_exit transfer_mode_ctx_enter
        transfer_mode_ctx_exit
    run-Restores done s v c p ctx a = (Extends-refl s, (v, a))
    run-Restores (strategy m body rest) s v c p ctx a =
        bind-Ends (Entered (stream_self m) ctx_of s v c p ctx a (strategy_of m))
          (Restores s c p ctx) (stream_strategy_ctx_enter py (stream_self m)) _ s
          (stream_strategy_ctx_enter-Entered (stream_self m) s v c p ctx a)
          (Entered-Ends (stream_self m) (stream_self m) ctx_of (stream_strategy_ctx_exit py) body
            rest s v c p ctx a (strategy_of m) (λ k t. refl) (run-Restores body)
            (run-Restores rest))
    run-Restores (transfer m body rest) s v c p ctx a =
        bind-Ends (Entered (transfer_self m) transfer_ctx_of s v c p ctx a (transfer_of m))
          (Restores s c p ctx) (transfer_mode_ctx_enter py (transfer_self m)) _ s
          (transfer_mode_ctx_enter-Entered (transfer_self m) s v c p ctx a)
          (Entered-Ends (transfer_self m) (transfer_self m) transfer_ctx_of
            (transfer_mode_ctx_exit py) body rest s v c p ctx a (transfer_of m) (λ k t. refl)
            (run-Restores body) (run-Restores rest))
