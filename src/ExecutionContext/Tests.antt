-- ===== src/ExecutionContext/Tests.antt =====
-- Execution contexts at concrete states.
use uringio.Base.{inr, ℕ, zero, suc, ◌≡◌, refl, true, Option, none, some, ◌==◌, if◌then◌else◌}
use uringio.Enums.{oneshot, multishot, normal_transfer, zero_copy, normal_buf}
use uringio.Methods.Tests.{liburing, start}
use uringio.ExecutionContext.{Context, Python, Env}
use uringio.ExecutionContext.Contexts.{
  StreamStrategyCtx, TransferModeCtx, BufferModeCtx, stream_strategy_ctx_enter,
  transfer_mode_ctx_enter, buffer_mode_ctx_enter,
}
use uringio.ExecutionContext.Laws.{Behaves, Ends, At}
use uringio.ExecutionContext.Nesting.{Block, done, strategy, transfer, run, Restores, run-Restores}
use uringio.ExecutionContext.Failure.{Selects, enter-Selects, enter_frees_twice}

-- A variable is its value; a token is the value before, plus one, or zero.
abbrev token_of : Option ℕ → ℕ
token_of none = 0
token_of (some c) = suc c

abbrev value_of : ℕ → Option ℕ
value_of zero = none
value_of (suc c) = some c

-- The first of three addresses that is free.
abbrev free_at {ℓ} : {A : Type ℓ} → ℕ → Option A → Option ℕ → Option ℕ
free_at p none rest = some p
free_at p (some a) rest = rest

abbrev first_free {ℓ} : {A : Type ℓ} → (ℕ → Option A) → Option ℕ
first_free m = free_at 21 (m 21) (free_at 22 (m 22) (free_at 23 (m 23) none))

abbrev python : Python (Option ℕ)
python = record {
  create = some none;
  get = λ v. v;
  set = λ c v. some (token_of v, some c);
  reset = λ k v. some (value_of k, v);
  malloc_context = first_free;
  new_capsule = first_free;
  is_capsule = λ c. true;
  liburing = liburing;
  registry_memory = (true, true);
  registry_address = 40;
}

value_of-token_of : (v : Option ℕ) → value_of (token_of v) ≡ v
value_of-token_of none = refl
value_of-token_of (some c) = refl

first_free-none : {A : Type 0} (m : ℕ → Option A) (p : ℕ) → first_free m ≡ some p → m p ≡ none
first_free-none m p e = go (m 21) (m 22) (m 23) refl refl refl e
  where
    go :
        (a b c : Option _)
        → m 21 ≡ a
        → m 22 ≡ b
        → m 23 ≡ c
        → free_at 21 a (free_at 22 b (free_at 23 c none)) ≡ some p
        → m p ≡ none
    go none b c h k l e = (let q : 21 ≡ p = cc e in rw (← q) h)
    go (some a) none c h k l e = (let q : 22 ≡ p = cc e in rw (← q) k)
    go (some a) (some b) none h k l e = (let q : 23 ≡ p = cc e in rw (← q) l)
    go (some a) (some b) (some c) h k l e = absurd (cc e)

python-Behaves : Behaves python
python-Behaves = record {
  set_token = λ c v. (token_of v, some c, refl);
  get-set = λ c k v v' e. cc e;
  reset_token = λ c k v v' w e g. (
    value_of k,
    w,
    refl,
    (let same : token_of v ≡ k = cc e in rw (← same) (value_of-token_of v)),
    inr g,
  );
  new_context = first_free-none;
  new_capsule = first_free-none;
  capsule_new = λ m c e. refl;
}

abbrev plain : Context
plain = record {
  buffer_mode = normal_buf;
  stream = oneshot;
  transfer_mode = normal_transfer;
  buffer_payload = none;
}

abbrev env : Env (Option ℕ)
env = record {
  caller = start;
  var = some (some 20);
  contexts = λ p. if p == 20 then some plain else none;
  capsules = λ c. if c == 20 then some 20 else none;
}

env-At : At python env (some 20) 20 20 plain
env-At = record { var = refl; value = refl; is_capsule = refl; pointer = refl; context = refl }

abbrev nested : Block
nested = strategy multishot (transfer zero_copy done done) (strategy oneshot done done)

run-Restores_example : Ends (run python nested env) (Restores python env 20 20 plain)
run-Restores_example = run-Restores python python-Behaves nested env (some 20) 20 20 plain env-At

enter-Selects_example :
    ((self : StreamStrategyCtx)
      → Ends
          (stream_strategy_ctx_enter python self env)
          (Selects python plain (λ x. record x { stream = self.payload })))
    × ((self : TransferModeCtx)
        → Ends
            (transfer_mode_ctx_enter python self env)
            (Selects python plain (λ x. record x { transfer_mode = self.payload })))
enter-Selects_example = enter-Selects python python-Behaves env (some 20) 20 20 plain env-At

-- A variable that takes no value.
abbrev stubborn : Python (Option ℕ)
stubborn = record python { set = λ c v. none }

env-At-stubborn : At stubborn env (some 20) 20 20 plain
env-At-stubborn = record {
  var = refl;
  value = refl;
  is_capsule = refl;
  pointer = refl;
  context = refl;
}

enter_frees_twice_example :
    ((self : StreamStrategyCtx) → stream_strategy_ctx_enter stubborn self env ≡ none)
    × ((self : TransferModeCtx) → transfer_mode_ctx_enter stubborn self env ≡ none)
    × ((self : BufferModeCtx) → buffer_mode_ctx_enter stubborn self env ≡ none)
enter_frees_twice_example =
    enter_frees_twice stubborn env (some 20) 20 20 21 21 plain env-At-stubborn refl refl refl
