-- ===== src/Reader/Reads.antt =====
-- The completions of READ and RECV.
use uringio.Base.{
  ℕ, ◌≡◌, refl, ◌∙◌, ap, pos, pos_part, is_neg, Bool, false, some, ◌∷◌, ◌<◌, eqb_ℤ, arith,
  Bool-cases, inl, inr,
}
use uringio.Payload.{LinearBuffer, BufferPayload, is_freed}
use uringio.Enums.{Opcode}
use uringio.Registry.{free_payload, releases}
use uringio.Registry.Invariant.{slot}
use uringio.Reader.Gather.{bytes_at}
use uringio.Reader.State.{Cqe, Event, new_bytes, effect, Env, UringioLoop, ok, without_payload}
use uringio.Reader.Results.{complete, bytes_from}
use uringio.Reader.FileCases.{on_read}
use uringio.Reader.SocketCases.{recv_on, on_recv}
use uringio.Reader.Cases.{on_opcode}
use uringio.Reader.Ready.{on_cqe}
use uringio.Reader.Events.{made, made-logged}
use uringio.Reader.Removal.{unpaid, settled}
use uringio.Reader.Found.{Awaited}
use uringio.Reader.Success.{
  Completed, Paid, given_back, release_if_fixed-given_back, closed, closed-Completed, on_cqe-closed,
}

-- The request in slot `n` has the payload `b` at `p`.
pub record Pays (s : UringioLoop) (n p : ℕ) (b : BufferPayload) : Type 0 where
  pub points : (slot s.registry n).buffer_payload ≡ some p
  pub there : s.payloads p ≡ some b

-- The payload was given back: freed if it is the request's own or by force, and the index of a
-- fixed buffer returned to its registry.
pub record Returned (s : UringioLoop) (p : ℕ) (b : BufferPayload) (force : Bool) (s' : UringioLoop)
    : Type 0 where
  pub payloads : s'.payloads ≡ settled s.payloads p b force
  pub pools : s'.pools ≡ given_back s.pools b

-- The state after both were given back in a case of the switch.
abbrev pub paid : UringioLoop → ℕ → ℕ → BufferPayload → Bool → UringioLoop
paid s n p b force = record s {
  registry = unpaid s.registry n;
  payloads = settled s.payloads p b force;
  pools = given_back s.pools b;
  events = effect (free_payload p force) ∷ s.events;
}

-- The object that READ makes.
abbrev read_bytes : Env → Cqe → LinearBuffer → Event
read_bytes env cqe linear = new_bytes cqe.res (bytes_at env.memory linear.buffer (pos_part cqe.res))

abbrev pub after : Event → UringioLoop → UringioLoop
after e s = record s { events = e ∷ s.events }

on_read-paid :
    (env : Env) (s : UringioLoop) (n v p : ℕ) (cqe : Cqe) (b : BufferPayload)
    (linear : LinearBuffer)
    → Pays s n p b
    → b.linear ≡ some linear
    → 0 < linear.buffer
    → env.new_object s.events ≡ some v
    → on_read env (pos n) (slot s.registry n) cqe s
      ≡ ok (complete (some v), paid (after (read_bytes env cqe linear) s) n p b false)
unfolding on_read bytes_from
on_read-paid env s n v p cqe b linear h q real new =
    let null : eqb_ℤ (pos linear.buffer) (pos 0) ≡ false = ground arith in
    let back = release_if_fixed-given_back b (after (read_bytes env cqe linear) s) in
    elim (Bool-cases (is_freed b false)) [
      | inl freed ↦ rw (h.points, h.there, q, null, new, back, h.there, freed) refl
      | inr kept ↦ rw (h.points, h.there, q, null, new, back, h.there, kept) refl
    ]

-- A completed read, for a request in flight in a valid registry with a buffer in memory, when the
-- bytes object can be made: the future gets the bytes that were read, as many as the completion
-- reports, and nothing else; the payload and the index of a fixed buffer are given back; the
-- completion is acknowledged once, and the slot is freed.
pub on_cqe-read :
    (env : Env) (s : UringioLoop) (n f v p : ℕ) (cqe : Cqe) (b : BufferPayload)
    (linear : LinearBuffer)
    → Awaited s n f cqe
    → (slot s.registry n).opcode ≡ Opcode.read
    → Pays s n p b
    → b.linear ≡ some linear
    → 0 < linear.buffer
    → is_neg cqe.res ≡ false
    → env.new_object s.events ≡ some v
    → (s' : UringioLoop) × (on_cqe env cqe s ≡ ok (tt, s'))
      × Completed s n f v cqe s'
      × Returned s p b false s'
      × (made s'.events
          ≡ new_bytes cqe.res (bytes_at env.memory linear.buffer (pos_part cqe.res))
            ∷ made s.events)
unfolding on_opcode
on_cqe-read env s n f v p cqe b linear a op h q real fine new =
    let s1 = paid (after (read_bytes env cqe linear) s) n p b false in
    let kept : Paid s n s1 = record { registry = refl; verdicts = refl; acknowledged = refl } in
    (
      closed s s1 n f v cqe,
      on_cqe-closed env s s1 n f v cqe a (rw (op, fine) refl)
          (ap (λ o. on_opcode env (pos n) (slot s.registry n) cqe o s) op
            ∙ on_read-paid env s n v p cqe b linear h q real new)
          kept,
      closed-Completed s s1 n f v cqe a kept,
      record { payloads = refl; pools = refl },
      made-logged (releases (without_payload (slot s.registry n))) _,
    )

recv_on-paid :
    (env : Env) (s : UringioLoop) (n v p k : ℕ) (cqe : Cqe) (b : BufferPayload)
    (linear : LinearBuffer)
    → Pays s n p b
    → b.linear ≡ some linear
    → eqb_ℤ cqe.res (pos 0) ≡ false
    → env.new_object s.events ≡ some v
    → recv_on env (pos n) (slot s.registry n) cqe (some k) s
      ≡ ok (complete (some v), paid (after (read_bytes env cqe linear) s) n p b false)
unfolding recv_on bytes_from
recv_on-paid env s n v p k cqe b linear h q some_bytes new =
    let back = release_if_fixed-given_back b (after (read_bytes env cqe linear) s) in
    elim (Bool-cases (is_freed b false)) [
      | inl freed ↦ rw (some_bytes, h.points, h.there, q, new, h.there, back, h.there, freed) refl
      | inr kept ↦ rw (some_bytes, h.points, h.there, q, new, h.there, back, h.there, kept) refl
    ]

on_recv-recv_on :
    (env : Env) (s : UringioLoop) (n k : ℕ) (cqe : Cqe)
    → (slot s.registry n).opcode ≡ Opcode.recv
    → (slot s.registry n).socket ≡ some k
    → on_opcode env (pos n) (slot s.registry n) cqe (slot s.registry n).opcode s
      ≡ recv_on env (pos n) (slot s.registry n) cqe (some k) s
unfolding on_opcode on_recv
on_recv-recv_on env s n k cqe op sock =
    ap (λ o. on_opcode env (pos n) (slot s.registry n) cqe o s) op
    ∙ ap (λ x. recv_on env (pos n) (slot s.registry n) cqe x s) sock

-- A completed receive that reports some bytes, for a request on a socket, in flight in a valid
-- registry, with a buffer, when the bytes object can be made: the future gets these bytes and
-- nothing else; the payload and the index of a fixed buffer are given back; the completion is
-- acknowledged once, and the slot is freed.
on_cqe-recv :
    (env : Env) (s : UringioLoop) (n f v p k : ℕ) (cqe : Cqe) (b : BufferPayload)
    (linear : LinearBuffer)
    → Awaited s n f cqe
    → (slot s.registry n).opcode ≡ Opcode.recv
    → (slot s.registry n).socket ≡ some k
    → Pays s n p b
    → b.linear ≡ some linear
    → is_neg cqe.res ≡ false
    → eqb_ℤ cqe.res (pos 0) ≡ false
    → env.new_object s.events ≡ some v
    → (s' : UringioLoop) × (on_cqe env cqe s ≡ ok (tt, s'))
      × Completed s n f v cqe s'
      × Returned s p b false s'
      × (made s'.events ≡ read_bytes env cqe linear ∷ made s.events)
on_cqe-recv env s n f v p k cqe b linear a op sock h q fine some_bytes new =
    let s1 = paid (after (read_bytes env cqe linear) s) n p b false in
    let kept : Paid s n s1 = record { registry = refl; verdicts = refl; acknowledged = refl } in
    (
      closed s s1 n f v cqe,
      on_cqe-closed env s s1 n f v cqe a (rw (op, fine) refl)
          (on_recv-recv_on env s n k cqe op sock
            ∙ recv_on-paid env s n v p k cqe b linear h q some_bytes new)
          kept,
      closed-Completed s s1 n f v cqe a kept,
      record { payloads = refl; pools = refl },
      made-logged (releases (without_payload (slot s.registry n))) _,
    )
