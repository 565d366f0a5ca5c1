-- ===== src/BufferControllers/Index/Tests.antt =====
-- Runs of the free list of registered buffers, and its theorems at a registry of three.
use mathlib.Core.List.{Nodup}
use uringio.Base.{◌≡◌, ◌<◌, refl, pos, [], ◌∷◌, ◌++◌, arith}
use uringio.BufferControllers.Index.{
  FixedBufferIdxRegistry, fresh, get_buffer_idx, release_buffer_idx,
}
use uringio.BufferControllers.Index.Laws.{
  IsValid, free, push, fresh-IsValid, release_refines, get-IsValid,
}
use uringio.BufferControllers.Index.Lending.{
  Lending, Reach, start, later, take, Reach-Nodup, Reach-release,
}

abbrev three : FixedBufferIdxRegistry
three = fresh 3

three-IsValid : IsValid three
three-IsValid = fresh-IsValid 3 (omega arith) (omega arith)

free-three : free three ≡ pos 2 ∷ pos 1 ∷ pos 0 ∷ []
unfolding fresh
free-three = refl

-- One buffer, lent.
abbrev used_up : FixedBufferIdxRegistry
used_up = (get_buffer_idx (fresh 1)).1

used_up-IsValid : IsValid used_up
used_up-IsValid = get-IsValid (fresh 1) (fresh-IsValid 1 (omega arith) (omega arith))

used_up_facts : record { size : 0 < used_up.size; free : free used_up ≡ [] }
unfolding fresh get_buffer_idx
used_up_facts = record { size = omega arith; free = refl }

release_refines_example :
    let (r, reg') = release_buffer_idx used_up (pos 0) in
    (r, free reg') ≡ push used_up.size (free used_up) (pos 0)
release_refines_example = release_refines used_up (pos 0) used_up-IsValid

abbrev lending : Lending
lending = record { reg = (get_buffer_idx three).1; lent = (get_buffer_idx three).0 ∷ [] }

lending-Reach : Reach 3 lending
lending-Reach =
    later start (take (record { reg = three; lent = [] }) (pos 2) (pos 1 ∷ pos 0 ∷ []) free-three)

Reach-Nodup_example : Nodup (free lending.reg ++ lending.lent)
Reach-Nodup_example = Reach-Nodup 3 lending (omega arith) (omega arith) lending-Reach

lent-lending : lending.lent ≡ [] ++ (pos 2 ∷ [])
unfolding fresh get_buffer_idx
lent-lending = refl

Reach-release_example :
    let (result, reg) = release_buffer_idx lending.reg (pos 2) in
    (result ≡ pos 0) × (free reg ≡ pos 2 ∷ free lending.reg)
Reach-release_example =
    Reach-release 3 lending [] [] (pos 2) (omega arith) (omega arith) lending-Reach lent-lending
