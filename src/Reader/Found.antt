-- ===== src/Reader/Found.antt =====
-- A completion that a request in flight waits for: the loop's way to its slot.
use uringio.Base.{ℕ, ◌≡◌, refl, ap₂, ◌∙◌, arith, ℤ, pos, to_int, to_u64, some}
use uringio.Registry.{RequestSlot, registry_get}
use uringio.Registry.Invariant.{slot, in_flight-lt, IsValid}
use uringio.Registry.InFlight.{get-at}
use uringio.Reader.State.{Cqe, Env, UringioLoop}
use uringio.Reader.Ready.{on_slot, on_future, on_request, on_cqe}

-- The completion `cqe` is that of the request for the future `f` in slot `n`.
pub record Awaited (s : UringioLoop) (n f : ℕ) (cqe : Cqe) : Type 0 where
  pub valid : IsValid s.registry
  pub waiting : (slot s.registry n).future ≡ some f
  pub tagged : cqe.user_data ≡ to_u64 (pos n)

on_slot-some :
    (env : Env) (index : ℤ) (cqe : Cqe) (s : UringioLoop) (held : RequestSlot) (f : ℕ)
    → held.future ≡ some f
    → on_slot env index cqe (some held) s ≡ on_request env index cqe held f s
unfolding on_slot on_future
on_slot-some env index cqe s held f e = rw e refl

found-slot :
    (s : UringioLoop) (n f : ℕ) (cqe : Cqe)
    → Awaited s n f cqe
    → registry_get s.registry (to_int cqe.user_data) ≡ some (slot s.registry n)
found-slot s n f cqe a =
    rw a.tagged (get-at s.registry n a.valid (in_flight-lt s.registry n a.valid (rw a.waiting)))

index-back :
    (s : UringioLoop) (n f : ℕ) (cqe : Cqe) → Awaited s n f cqe → to_int cqe.user_data ≡ pos n
index-back s n f cqe a =
    ground (arith, a.tagged, a.valid.small, in_flight-lt s.registry n a.valid (rw a.waiting))

pub on_cqe-on_request :
    (env : Env) (s : UringioLoop) (n f : ℕ) (cqe : Cqe)
    → Awaited s n f cqe
    → on_cqe env cqe s ≡ on_request env (pos n) cqe (slot s.registry n) f s
unfolding on_cqe
on_cqe-on_request env s n f cqe a =
    ap₂ (λ found index. on_slot env index cqe found s) (found-slot s n f cqe a)
      (index-back s n f cqe a)
    ∙ on_slot-some env (pos n) cqe s (slot s.registry n) f a.waiting
