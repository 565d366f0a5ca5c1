-- ===== src/Reader/Results.antt =====
-- How the cases of the switch of `on_uring_ready` end, and the results that several of them build.
use uringio.Base.{ℕ, ℤ, pos_part, Bool, true, false, Option, none, some, take}
use uringio.Enums.{StreamStrategy, oneshot, multishot, PayloadType, payload_linear}
use uringio.Payload.{VectoredBuffer}
use uringio.Registry.{RequestSlot, free_memory}
use uringio.Reader.Gather.{bytes_at, gather}
use uringio.Reader.State.{
  Cqe, new_bytes, new_long, effect, Env, R, pure, ◌>>=◌, ◌>>◌, emit, create, free_buffer_payload,
  update_slot, without_payload,
}

-- How a case ends: with `break` and the result (`none` is NULL), or with `continue`.
pub data Next : Type 0 where
  complete : Option ℕ → Next
  skip : Next

-- `free_buffer_payload(slot->buffer_payload, force); slot->buffer_payload = NULL;`
unfoldable pub free_slot_payload : ℤ → RequestSlot → Bool → R (Unit {0})
unfolding free_buffer_payload update_slot
free_slot_payload index slot force = do
  free_buffer_payload slot.buffer_payload force
  update_slot index without_payload

abbrev pub is_linear : PayloadType → Bool
is_linear payload_linear = true
is_linear _ = false

abbrev pub is_multishot : StreamStrategy → Bool
is_multishot multishot = true
is_multishot oneshot = false

unfoldable pub emit_free : Option ℕ → R (Unit {0})
emit_free none = pure tt
emit_free (some p) = emit (effect (free_memory p))

module _ (env : Env) (cqe : Cqe) where
  -- `PyLong_FromLong(cqe->res)` and `break`
  unfoldable pub complete_long : R Next
  complete_long = do result ← create env (new_long cqe.res); pure (complete result)

  -- The bytes object of the first `cqe->res` bytes at an address.
  unfoldable pub bytes_from : ℕ → R (Option ℕ)
  bytes_from buffer = create env (new_bytes cqe.res (bytes_at env.memory buffer (pos_part cqe.res)))

  -- The bytes object of what the iovecs hold.
  unfoldable pub gathered : VectoredBuffer → R (Option ℕ)
  gathered vec =
      create env
        (new_bytes cqe.res (gather env.memory (take vec.nr_vecs vec.iovecs) (pos_part cqe.res)))
