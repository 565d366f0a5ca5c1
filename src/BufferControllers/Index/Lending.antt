-- ===== src/BufferControllers/Index/Lending.antt =====
-- The registered buffers lent to requests: histories in which an index that is handed out comes
-- back at most once.
use mathlib.Core.List.{Nodup, Perm, perm_middle, append-nil, append_assoc}
use mathlib.Core.List.Perm
use uringio.Base.{
  countdown, stack-indices, length-countdown, countdown-Nodup, ℕ, suc, ◌+◌, ◌<◌, ◌^◌, ◌≡◌, refl, ap,
  ℤ, pos, List, [], ◌∷◌, ◌++◌, length, length-append, arith,
}
use uringio.BufferControllers.Index.{
  FixedBufferIdxRegistry, fresh, get_buffer_idx, release_buffer_idx,
}
use uringio.BufferControllers.Index.Laws.{
  IsValid, free, fresh-IsValid, get-IsValid, release-IsValid, get_refines, release_refines,
  size-get, size-release,
}

-- A registry, and the indices that requests hold.
pub record Lending : Type 0 where
  pub reg : FixedBufferIdxRegistry
  pub lent : List ℤ

pub data Step : Lending → Lending → Type 0 where
  take :
      (c : Lending) (i : ℤ) (is : List ℤ)
      → free c.reg ≡ i ∷ is
      → Step c (record { reg = (get_buffer_idx c.reg).1; lent = (get_buffer_idx c.reg).0 ∷ c.lent })
  give :
      (c : Lending) (before after : List ℤ) (i : ℤ)
      → c.lent ≡ before ++ (i ∷ after)
      → Step c (record { reg = (release_buffer_idx c.reg i).1; lent = before ++ after })

pub data Reach (size : ℕ) : Lending → Type 0 where
  start : Reach size (record { reg = fresh size; lent = [] })
  later : {c d : Lending} → Reach size c → Step c d → Reach size d

-- Every index of the registry is either free or lent, and is so once.
pub record Conserved (size : ℕ) (c : Lending) : Type 0 where
  pub valid : IsValid c.reg
  pub sized : c.reg.size ≡ size
  pub full : length (free c.reg) + length c.lent ≡ size
  pub split : Perm (free c.reg ++ c.lent) (countdown size)

free-fresh : (size : ℕ) → 0 < size → size < 2 ^ 31 → free (fresh size) ≡ countdown size
unfolding fresh
free-fresh size h k = ground (arith, stack-indices size size)

start-Conserved :
    (size : ℕ) → 0 < size → size < 2 ^ 31 → Conserved size (record { reg = fresh size; lent = [] })
unfolding fresh
start-Conserved size h k = record {
  valid = fresh-IsValid size h k;
  sized = refl;
  full = rw (free-fresh size h k) (omega (arith, length-countdown size));
  split = rw (free-fresh size h k, append-nil) (Perm.refl (countdown size));
}

take-free :
    (reg : FixedBufferIdxRegistry) (i : ℤ) (is : List ℤ)
    → free reg ≡ i ∷ is
    → ((get_buffer_idx reg).0 ≡ i) × (free (get_buffer_idx reg).1 ≡ is)
take-free reg i is e = (ground (arith, get_refines reg), ground (arith, get_refines reg))

give-free :
    (reg : FixedBufferIdxRegistry) (i : ℤ)
    → IsValid reg
    → length (free reg) < reg.size
    → ((release_buffer_idx reg i).0 ≡ pos 0) × (free (release_buffer_idx reg i).1 ≡ i ∷ free reg)
give-free reg i v h =
    (ground (arith, release_refines reg i v), ground (arith, release_refines reg i v))

-- What is lent leaves room in the registry.
lent-room :
    (size : ℕ) (c : Lending) (before after : List ℤ) (i : ℤ)
    → Conserved size c
    → c.lent ≡ before ++ (i ∷ after)
    → length (free c.reg) + suc (length (before ++ after)) ≡ c.reg.size
lent-room size c before after i v e = omega (
  arith,
  v.full,
  v.sized,
  ap length e,
  length-append before (i ∷ after),
  length-append before after,
)

pub Step-Conserved : (size : ℕ) {c d : Lending} → Step c d → Conserved size c → Conserved size d
Step-Conserved size (take c i is e) v = record {
  valid = get-IsValid c.reg v.valid;
  sized = ground (arith, size-get c.reg, v.sized);
  full = ground (arith, get_refines c.reg, v.full);
  split =
      rw ((take-free c.reg i is e).0, (take-free c.reg i is e).1)
        (Perm.trans (perm_middle is c.lent) (rw e at v.split));
}
Step-Conserved size (give c before after i e) v = record {
  valid = release-IsValid c.reg i v.valid;
  sized = ground (arith, size-release c.reg i, v.sized);
  full =
      let room = lent-room size c before after i v e in
      ground (arith, give-free c.reg i v.valid, v.sized, room);
  split =
      rw
        (
          (give-free c.reg i v.valid (omega (arith, lent-room size c before after i v e))).1,
          ← append_assoc,
        )
        (Perm.trans (Perm.symm (perm_middle (free c.reg ++ before) after))
          (rw append_assoc (rw e at v.split)));
}

pub Reach-Conserved :
    (size : ℕ) {c : Lending} → 0 < size → size < 2 ^ 31 → Reach size c → Conserved size c
Reach-Conserved size h k start = start-Conserved size h k
Reach-Conserved size h k (later r st) = Step-Conserved size st (Reach-Conserved size h k r)

-- After any history that starts at a new registry of 0 < size < 2^31 indices and gives back only
-- what it was lent, no index is lent twice, free twice, or lent while it is free.
pub Reach-Nodup :
    (size : ℕ) (c : Lending)
    → 0 < size
    → size < 2 ^ 31
    → Reach size c
    → Nodup (free c.reg ++ c.lent)
Reach-Nodup size c h k r =
    Perm.nodup (Perm.symm (Reach-Conserved size h k r).split) (countdown-Nodup size)

-- After any history that starts at a new registry of 0 < size < 2^31 indices and gives back only
-- what it was lent, every lent index can be given back, and becomes the next to be lent.
pub Reach-release :
    (size : ℕ) (c : Lending) (before after : List ℤ) (i : ℤ)
    → 0 < size
    → size < 2 ^ 31
    → Reach size c
    → c.lent ≡ before ++ (i ∷ after)
    → let (result, reg) = release_buffer_idx c.reg i in
      (result ≡ pos 0) × (free reg ≡ i ∷ free c.reg)
Reach-release size c before after i h k r e =
    let v = Reach-Conserved size h k r in
    give-free c.reg i v.valid (omega (arith, lent-room size c before after i v e))
