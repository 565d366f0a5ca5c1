-- ===== src/Reader/Events.antt =====
-- What the events of the reader tell: the futures that are completed, and the completions that are
-- acknowledged.
use uringio.Base.{◌≡◌, refl, List, [], ◌∷◌}
use uringio.Registry.{
  Effect, incref, decref, free_payload, free_memory, free_slots, free_available_indices,
  free_registry,
}
use uringio.Reader.State.{
  new_error, new_bytes, new_long, new_socket, Cqe, Event, set_result, set_exception, effect, seen,
  UringioLoop, ok, apply_effects,
}

-- The completions of futures, newest first.
abbrev pub verdicts : List Event → List Event
verdicts [] = []
verdicts (set_result f v ∷ es) = set_result f v ∷ verdicts es
verdicts (set_exception f v ∷ es) = set_exception f v ∷ verdicts es
verdicts (e ∷ es) = verdicts es

-- The completions that were handed back to the queue, newest first.
abbrev pub acknowledged : List Event → List Cqe
acknowledged [] = []
acknowledged (seen cqe ∷ es) = cqe ∷ acknowledged es
acknowledged (e ∷ es) = acknowledged es

-- The objects that were made, newest first.
abbrev pub made : List Event → List Event
made [] = []
made (new_error e ∷ es) = new_error e ∷ made es
made (new_bytes size content ∷ es) = new_bytes size content ∷ made es
made (new_long v ∷ es) = new_long v ∷ made es
made (new_socket ∷ es) = new_socket ∷ made es
made (e ∷ es) = made es

-- The events once the effects have happened.
abbrev pub logged : List Effect → List Event → List Event
logged [] es = es
logged (x ∷ xs) es = logged xs (effect x ∷ es)

pub verdicts-logged : (xs : List Effect) (es : List Event) → verdicts (logged xs es) ≡ verdicts es
verdicts-logged [] es = refl
verdicts-logged (x ∷ xs) es = verdicts-logged xs (effect x ∷ es)

pub acknowledged-logged :
    (xs : List Effect) (es : List Event) → acknowledged (logged xs es) ≡ acknowledged es
acknowledged-logged [] es = refl
acknowledged-logged (x ∷ xs) es = acknowledged-logged xs (effect x ∷ es)

pub made-logged : (xs : List Effect) (es : List Event) → made (logged xs es) ≡ made es
made-logged [] es = refl
made-logged (x ∷ xs) es = made-logged xs (effect x ∷ es)

-- No payload is freed.
abbrev pub IsPlain : List Effect → Type 0
IsPlain [] = Unit {0}
IsPlain (free_payload p f ∷ xs) = ⊥
IsPlain (x ∷ xs) = IsPlain xs

pub apply-IsPlain :
    (xs : List Effect) (s : UringioLoop)
    → IsPlain xs
    → apply_effects xs s ≡ ok (tt, record s { events = logged xs s.events })
unfolding apply_effects
apply-IsPlain [] s h = refl
apply-IsPlain (incref p ∷ xs) s h =
    apply-IsPlain xs (record s { events = effect (incref p) ∷ s.events }) h
apply-IsPlain (decref p ∷ xs) s h =
    apply-IsPlain xs (record s { events = effect (decref p) ∷ s.events }) h
apply-IsPlain (free_payload p f ∷ xs) s h = absurd h
apply-IsPlain (free_memory p ∷ xs) s h =
    apply-IsPlain xs (record s { events = effect (free_memory p) ∷ s.events }) h
apply-IsPlain (free_slots ∷ xs) s h =
    apply-IsPlain xs (record s { events = effect free_slots ∷ s.events }) h
apply-IsPlain (free_available_indices ∷ xs) s h =
    apply-IsPlain xs (record s { events = effect free_available_indices ∷ s.events }) h
apply-IsPlain (free_registry ∷ xs) s h =
    apply-IsPlain xs (record s { events = effect free_registry ∷ s.events }) h
