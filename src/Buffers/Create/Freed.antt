-- ===== src/Buffers/Create/Freed.antt =====
-- The life of a payload: it is made, and freed.
use uringio.Base.{ℕ, ◌≡◌, refl, Bool, true, none, ◌⊎◌, inl, inr, some, List, []}
use uringio.Enums.{normal_buf}
use uringio.Payload.{BufferPayload, is_freed}
use uringio.Buffers.Heap.{Resource, Heap, Host, H, pure, ◌>>=◌}
use uringio.Buffers.Rules.{Has, After, After-weaken, Left, bind-After}
use uringio.Buffers.Free.{free_buffer_payload}
use uringio.Buffers.Free.Laws.{free_buffer_payload-Gives}
use uringio.Buffers.Create.{Answer, has_linear, create_buffer_payload_from_data}
use uringio.Buffers.Create.Contract.{
  MadePayload, MadeWith, Reads, create_buffer_payload_from_data-Made,
}

-- `free_buffer_payload` of an answer, which ignores NULL
abbrev pub free_answer : (force : Bool) → Answer → H (Unit {0})
free_answer force none = pure tt
free_answer force (some (p, b)) = free_buffer_payload p b force

abbrev pub Ended : List Resource → Bool → Unit {0} → Heap → Type 0
Ended rs e _ t = Has rs true t ⊎ Has rs e t

normal_freed : (b : BufferPayload) (force : Bool) → b.mode ≡ normal_buf → is_freed b force ≡ true
normal_freed b force n = rw n refl

freed-Left :
    (m : H Answer) (force : Bool) (s : Heap) (rs : List Resource) (e : Bool)
    → After (m s) (MadePayload has_linear [] rs e)
    → After ((m >>= free_answer force) s) (Ended rs e)
freed-Left m force s rs e h =
    bind-After (MadePayload has_linear [] rs e) (Ended rs e) m (free_answer force) s h done
  where
    done :
        (r : Answer) (t : Heap)
        → MadePayload has_linear [] rs e r t
        → After (free_answer force r t) (Ended rs e)
    done none t o = inl o
    done (some (p, b)) t (k, o) =
        After-weaken (Left rs e) (Ended rs e) (free_buffer_payload p b force t)
          ((free_buffer_payload-Gives p b force (normal_freed b force k.normal) k.whole).run t rs e
            o)
          (λ _ u o. inr o)

-- A payload made by `create_buffer_payload_from_data` and then freed leaves nothing to give back,
-- with `force` or without: each block and the loan of the data are freed, none twice. The same
-- holds when it answers NULL.
pub create_buffer_payload_from_data-free :
    (h : Host) (obj : ℕ) (force : Bool) (s : Heap) (rs : List Resource) (e : Bool)
    → Has rs e s
    → After ((create_buffer_payload_from_data h obj >>= free_answer force) s) (Ended rs e)
create_buffer_payload_from_data-free h obj force s rs e o =
    freed-Left (create_buffer_payload_from_data h obj) force s rs e (
      After-weaken (MadeWith (Reads h obj) has_linear [] rs e) (MadePayload has_linear [] rs e)
        (create_buffer_payload_from_data h obj s)
        (create_buffer_payload_from_data-Made h rs e obj s o) forget)
  where
    forget :
        (r : Answer) (t : Heap)
        → MadeWith (Reads h obj) has_linear [] rs e r t
        → MadePayload has_linear [] rs e r t
    forget none t o = o
    forget (some (p, b)) t (k, o, _) = (k, o)
