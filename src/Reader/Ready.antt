-- ===== src/Reader/Ready.antt =====
-- `on_uring_ready`: one completion after the other.
use uringio.Base.{
  ℕ, ℤ, negate, is_neg, eqb_ℤ, to_int, Bool, true, false, not, ◌&&◌, Option, none, some, List, [],
  ◌∷◌, ◌==◌, if◌then◌else◌,
}
use uringio.Enums.{Opcode}
use uringio.Uring.{get_sqe, prep, set_data, Prep}
use uringio.Ring.{wakeup_fd_tag}
use uringio.Registry.{RequestSlot, decref, registry_get}
use uringio.Reader.State.{
  Cqe, new_error, set_result, set_exception, print_error, effect, read_fd, seen, Env, ok, R, pure,
  ◌>>=◌, ◌>>◌, emit, create, modify, remove_request,
}
use uringio.Reader.Results.{Next, complete, skip}
use uringio.Reader.Cases.{on_opcode}

abbrev pub is_timer : Opcode → Bool
is_timer Opcode.timeout = true
is_timer _ = false

module _ (env : Env) where
  -- `exc = PyObject_CallFunction(…)`, and what is done with it.
  unfoldable pub raise_in : ℕ → Option ℕ → R (Unit {0})
  raise_in future none = emit print_error
  raise_in future (some exc) = do emit (set_exception future exc); emit (effect (decref exc))

  unfoldable pub fail_future : ℕ → ℤ → R (Unit {0})
  unfolding raise_in
  fail_future future res = do exc ← create env (new_error (negate res)); raise_in future exc

  unfoldable pub resolve_future : ℕ → Option ℕ → R (Unit {0})
  resolve_future future none = pure tt
  resolve_future future (some result) = do
    emit (set_result future result)
    emit (effect (decref result))

  -- The completion of the read of the wakeup descriptor: read it, and queue the next read.
  rearm : Option ℕ → R (Unit {0})
  rearm none = pure tt
  rearm (some sqe) = modify λ s. record s {
    calls =
        set_data sqe wakeup_fd_tag ∷ prep sqe (Prep.read s.wakeup_fd s.wakeup_buf 8 0) ∷ s.calls;
  }

  unfoldable pub on_wakeup : Cqe → R (Unit {0})
  unfolding rearm
  on_wakeup cqe s =
      (do
        emit (read_fd s.wakeup_fd)
        sqe ← (λ t.
            ok (env.liburing.io_uring_get_sqe t.calls, record t { calls = get_sqe ∷ t.calls }))
        rearm sqe
        emit (seen cqe))
        s

  -- The end of the loop's body.
  unfoldable pub finish : ℤ → Cqe → ℕ → Next → R (Unit {0})
  unfolding resolve_future remove_request
  finish index cqe future skip = pure tt
  finish index cqe future (complete result) = do
    resolve_future future result
    remove_request index
    emit (seen cqe)

  -- `cqe->res < 0 && !timeout_expired`
  abbrev pub is_failure : Opcode → ℤ → Bool
  is_failure opcode res = is_neg res && not (is_timer opcode && eqb_ℤ res (negate env.etime))

  unfoldable pub fail_request : ℤ → Cqe → ℕ → R (Unit {0})
  unfolding fail_future remove_request
  fail_request index cqe future = do
    fail_future future cqe.res
    remove_request index
    emit (seen cqe)

  unfoldable pub complete_request : ℤ → Cqe → ℕ → RequestSlot → R (Unit {0})
  unfolding on_opcode finish
  complete_request index cqe future slot = do
    next ← on_opcode env index slot cqe slot.opcode
    finish index cqe future next

  -- A completion for a slot that holds a request.
  unfoldable pub on_request : ℤ → Cqe → RequestSlot → ℕ → R (Unit {0})
  unfolding fail_request complete_request on_wakeup
  on_request index cqe slot future =
      if is_failure slot.opcode cqe.res
      then fail_request index cqe future
      else if cqe.user_data == wakeup_fd_tag
      then on_wakeup cqe
      else complete_request index cqe future slot

  -- `if (!slot || !slot->future) { io_uring_cqe_seen(…); continue; }`
  unfoldable pub on_future : ℤ → Cqe → RequestSlot → Option ℕ → R (Unit {0})
  unfolding on_request
  on_future index cqe slot none = emit (seen cqe)
  on_future index cqe slot (some future) = on_request index cqe slot future

  unfoldable pub on_slot : ℤ → Cqe → Option RequestSlot → R (Unit {0})
  unfolding on_future
  on_slot index cqe none = emit (seen cqe)
  on_slot index cqe (some slot) = on_future index cqe slot slot.future

  unfoldable pub on_cqe : Cqe → R (Unit {0})
  unfolding on_slot registry_get
  on_cqe cqe s =
      on_slot (to_int cqe.user_data) cqe (registry_get s.registry (to_int cqe.user_data)) s

  -- The loop, over the completions that `io_uring_peek_cqe` gives until it has none.
  unfoldable pub on_uring_ready : List Cqe → R (Unit {0})
  on_uring_ready [] = pure tt
  on_uring_ready (cqe ∷ cqes) = do on_cqe cqe; on_uring_ready cqes
