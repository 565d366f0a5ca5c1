-- ===== src/Reader/Gather.antt =====
-- The loop of on_ready.c that copies what a vectored request received into one bytes object.
use uringio.Base.{
  ℕ, zero, suc, ◌-◌, ◌≤◌, ◌≡◌, refl, ap, ◌∙◌, List, [], ◌∷◌, ◌++◌, length, take, arith, ltb,
  if◌then◌else◌,
}
use mathlib.Core.List.{append-nil}
use uringio.Uring.{Iovec}

-- The memory that the kernel has written to: a byte at each address.
abbrev pub Memory : Type 0
Memory = ℕ → ℕ

-- The `n` bytes from an address on.
abbrev pub bytes_at : Memory → ℕ → ℕ → List ℕ
bytes_at mem base zero = []
bytes_at mem base (suc n) = mem base ∷ bytes_at mem (suc base) n

-- `for (i = 0; i < nr_vecs && remaining > 0; i++)`, over the iovecs that are left; the bytes are
-- those that `memcpy` appends at `dst`. The lengths are those of buffers in memory, below 2^63, so
-- the cast of `chunk` keeps them.
unfoldable pub gather : Memory → List Iovec → ℕ → List ℕ
gather mem [] remaining = []
gather mem (v ∷ vs) remaining =
    let chunk : ℕ = if ltb remaining v.iov_len then remaining else v.iov_len in
    let rest = gather mem vs (remaining - chunk) in
    if ltb 0 remaining then bytes_at mem v.iov_base chunk ++ rest else []

-- What the iovecs hold, one after the other.
abbrev pub contents : Memory → List Iovec → List ℕ
contents mem [] = []
contents mem (v ∷ vs) = bytes_at mem v.iov_base v.iov_len ++ contents mem vs

length-bytes_at : (mem : Memory) (base n : ℕ) → length (bytes_at mem base n) ≡ n
length-bytes_at mem base zero = refl
length-bytes_at mem base (suc n) = ap suc (length-bytes_at mem (suc base) n)

take-bytes_at :
    (mem : Memory) (base k n : ℕ) (ys : List ℕ)
    → k ≤ n
    → take k (bytes_at mem base n ++ ys) ≡ bytes_at mem base k
take-bytes_at mem base zero n ys h = refl
take-bytes_at mem base (suc k) zero ys h = absurd (omega arith)
take-bytes_at mem base (suc k) (suc n) ys h =
    ap (λ t. mem base ∷ t) (take-bytes_at mem (suc base) k n ys (omega arith))

take-bytes_at_past :
    (mem : Memory) (base k n : ℕ) (ys : List ℕ)
    → n ≤ k
    → take k (bytes_at mem base n ++ ys) ≡ bytes_at mem base n ++ take (k - n) ys
take-bytes_at_past mem base k zero ys h = ap (λ (j : ℕ). take j ys) (omega arith)
take-bytes_at_past mem base zero (suc n) ys h = absurd (omega arith)
take-bytes_at_past mem base (suc k) (suc n) ys h =
    ap (λ t. mem base ∷ t)
      (take-bytes_at_past mem (suc base) k n ys (omega arith)
        ∙ ap (λ (j : ℕ). bytes_at mem (suc base) n ++ take j ys) (omega arith))

take-zero : (n : ℕ) (xs : List ℕ) → n ≡ 0 → take n xs ≡ []
take-zero zero xs e = refl
take-zero (suc n) xs e = absurd (omega arith)

-- The loop copies the first `remaining` bytes of what the iovecs hold, in order.
pub gather-take :
    (mem : Memory) (vs : List Iovec) (remaining : ℕ)
    → gather mem vs remaining ≡ take remaining (contents mem vs)
unfolding gather
gather-take mem [] zero = refl
gather-take mem [] (suc n) = refl
gather-take mem (v ∷ vs) remaining = ground (
  arith,
  gather-take mem vs (remaining - v.iov_len),
  gather-take mem vs (remaining - remaining),
  take-zero (remaining - remaining) (contents mem vs),
  take-zero remaining (bytes_at mem v.iov_base v.iov_len ++ contents mem vs),
  take-bytes_at mem v.iov_base remaining v.iov_len (contents mem vs),
  take-bytes_at_past mem v.iov_base remaining v.iov_len (contents mem vs),
  append-nil (bytes_at mem v.iov_base remaining),
)
