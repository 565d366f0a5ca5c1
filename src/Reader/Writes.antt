-- ===== src/Reader/Writes.antt =====
-- The completions of WRITE, SEND and SENDMSG.
use uringio.Base.{ℕ, ◌≡◌, refl, ◌∙◌, ap, ◌⊎◌, pos, is_neg, true, false, some, ◌∷◌, arith, inl, inr}
use uringio.Payload.{BufferPayload, is_freed}
use uringio.Enums.{Opcode}
use uringio.Registry.{free_payload, releases}
use uringio.Registry.Invariant.{slot}
use uringio.Reader.State.{
  Cqe, new_long, effect, Env, UringioLoop, ok, run_next, update_slot, without_payload,
}
use uringio.Reader.Results.{complete, complete_long, free_slot_payload}
use uringio.Reader.FileCases.{on_write}
use uringio.Reader.SocketCases.{sent_payload, on_send}
use uringio.Reader.Cases.{on_opcode}
use uringio.Reader.Ready.{on_cqe}
use uringio.Reader.Events.{made, made-logged}
use uringio.Reader.Removal.{unpaid, settled, free_buffer_payload-settled}
use uringio.Reader.Found.{Awaited}
use uringio.Reader.Success.{
  Completed, Paid, given_back, release_if_fixed-given_back, closed, closed-Completed, on_cqe-closed,
}
use uringio.Reader.Reads.{Pays, Returned, paid, after}

forced : (b : BufferPayload) → is_freed b true ≡ true
forced b = ground arith

on_write-paid :
    (env : Env) (s : UringioLoop) (n v p : ℕ) (cqe : Cqe) (b : BufferPayload)
    → Pays s n p b
    → env.new_object s.events ≡ some v
    → on_write env (pos n) (slot s.registry n) cqe s
      ≡ ok (complete (some v), paid (after (new_long cqe.res) s) n p b true)
unfolding on_write
on_write-paid env s n v p cqe b h new =
    let back = release_if_fixed-given_back b (after (new_long cqe.res) s) in
    rw (h.points, h.there, new, back, h.there, forced b) refl

-- A completed write, for a request in flight in a valid registry with a payload, when the number
-- object can be made: the future gets the number of bytes that the completion reports and nothing
-- else; the payload is freed, whichever mode it has, and the index of a fixed buffer is given back;
-- the completion is acknowledged once, and the slot is freed.
pub on_cqe-write :
    (env : Env) (s : UringioLoop) (n f v p : ℕ) (cqe : Cqe) (b : BufferPayload)
    → Awaited s n f cqe
    → (slot s.registry n).opcode ≡ Opcode.write
    → Pays s n p b
    → is_neg cqe.res ≡ false
    → env.new_object s.events ≡ some v
    → (s' : UringioLoop) × (on_cqe env cqe s ≡ ok (tt, s'))
      × Completed s n f v cqe s'
      × Returned s p b true s'
      × (made s'.events ≡ new_long cqe.res ∷ made s.events)
unfolding on_opcode
on_cqe-write env s n f v p cqe b a op h fine new =
    let s1 = paid (after (new_long cqe.res) s) n p b true in
    let kept : Paid s n s1 = record { registry = refl; verdicts = refl; acknowledged = refl } in
    (
      closed s s1 n f v cqe,
      on_cqe-closed env s s1 n f v cqe a (rw (op, fine) refl)
          (ap (λ o. on_opcode env (pos n) (slot s.registry n) cqe o s) op
            ∙ on_write-paid env s n v p cqe b h new)
          kept,
      closed-Completed s s1 n f v cqe a kept,
      record { payloads = refl; pools = refl },
      made-logged (releases (without_payload (slot s.registry n))) _,
    )

free_slot_payload-settled :
    (t : UringioLoop) (n p : ℕ) (b : BufferPayload)
    → Pays t n p b
    → free_slot_payload (pos n) (slot t.registry n) false t
      ≡ ok (
        tt,
        record t {
          registry = unpaid t.registry n;
          payloads = settled t.payloads p b false;
          events = effect (free_payload p false) ∷ t.events;
        },
      )
unfolding free_slot_payload update_slot
free_slot_payload-settled t n p b h =
    rw (h.points, free_buffer_payload-settled p b false t h.there) refl

sent_payload-paid :
    (env : Env) (s : UringioLoop) (n p : ℕ) (cqe : Cqe) (b : BufferPayload)
    → Pays s n p b
    → sent_payload env (pos n) (slot s.registry n) cqe (some p) s ≡ ok (tt, paid s n p b false)
unfolding sent_payload
sent_payload-paid env s n p cqe b h =
    rw (h.there, release_if_fixed-given_back b s)
      (free_slot_payload-settled (record s { pools = given_back s.pools b }) n p b
        (record { points = h.points; there = h.there }))

on_send-paid :
    (env : Env) (s : UringioLoop) (n v p : ℕ) (cqe : Cqe) (b : BufferPayload)
    → Pays s n p b
    → env.new_object (effect (free_payload p false) ∷ s.events) ≡ some v
    → on_send env (pos n) (slot s.registry n) cqe s
      ≡ ok (complete (some v), after (new_long cqe.res) (paid s n p b false))
unfolding on_send complete_long
on_send-paid env s n v p cqe b h new =
    ap
      (λ x.
        run_next (sent_payload env (pos n) (slot s.registry n) cqe x s)
          (λ t. complete_long env cqe))
      h.points
    ∙ rw (sent_payload-paid env s n p cqe b h, new) refl

-- SEND and SENDMSG have the same case.
sends :
    (env : Env) (s : UringioLoop) (n : ℕ) (cqe : Cqe) (o : Opcode)
    → (o ≡ Opcode.send) ⊎ (o ≡ Opcode.sendmsg)
    → on_opcode env (pos n) (slot s.registry n) cqe o s
      ≡ on_send env (pos n) (slot s.registry n) cqe s
unfolding on_opcode
sends env s n cqe o (inl e) = ap (λ x. on_opcode env (pos n) (slot s.registry n) cqe x s) e
sends env s n cqe o (inr e) = ap (λ x. on_opcode env (pos n) (slot s.registry n) cqe x s) e

-- A completed send, in either form, for a request in flight in a valid registry with a payload,
-- when the number object can be made: the future gets the number of bytes that the completion
-- reports and nothing else; the payload and the index of a fixed buffer are given back; the
-- completion is acknowledged once, and the slot is freed.
on_cqe-send :
    (env : Env) (s : UringioLoop) (n f v p : ℕ) (cqe : Cqe) (b : BufferPayload)
    → Awaited s n f cqe
    → ((slot s.registry n).opcode ≡ Opcode.send) ⊎ ((slot s.registry n).opcode ≡ Opcode.sendmsg)
    → Pays s n p b
    → is_neg cqe.res ≡ false
    → env.new_object (effect (free_payload p false) ∷ s.events) ≡ some v
    → (s' : UringioLoop) × (on_cqe env cqe s ≡ ok (tt, s'))
      × Completed s n f v cqe s'
      × Returned s p b false s'
      × (made s'.events ≡ new_long cqe.res ∷ made s.events)
on_cqe-send env s n f v p cqe b a op h fine new =
    let s1 = after (new_long cqe.res) (paid s n p b false) in
    let kept : Paid s n s1 = record { registry = refl; verdicts = refl; acknowledged = refl } in
    (
      closed s s1 n f v cqe,
      on_cqe-closed env s s1 n f v cqe a (rw fine refl)
          (sends env s n cqe (slot s.registry n).opcode op ∙ on_send-paid env s n v p cqe b h new)
          kept,
      closed-Completed s s1 n f v cqe a kept,
      record { payloads = refl; pools = refl },
      made-logged (releases (without_payload (slot s.registry n))) _,
    )
