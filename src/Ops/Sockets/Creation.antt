-- ===== src/Ops/Sockets/Creation.antt =====
-- `prep_socket`, which makes a new socket and has a guard of its own.
use uringio.Base.{
  ℤ, ◌≡◌, refl, pos, negsuc, eqb_ℤ, true, false, ◌||◌, some, none, List, ◌∷◌, Option-cases, inl,
  inr, ℕ, Bool,
}
use uringio.Uring.{Prep, Call, get_sqe, or_flags, Liburing}
use uringio.Timer.{TimeoutParams, timeout}
use uringio.Ops.{armed, with_optional_timeout}
use uringio.Ops.Contract.{Acquires, Timed, set, unmet, timeout-Timed, Contract, plain-Contract}
use uringio.Ops.Sockets.{prep_socket}

module _ (u : Liburing) where
  -- AF_INET or AF_INET6
  abbrev pub is_supported : ℤ → Bool
  is_supported domain = eqb_ℤ domain u.af_inet || eqb_ℤ domain u.af_inet6

  -- For a supported domain, `prep_socket` keeps the contract of an operation: it prepares the
  -- request for a socket of the domain and the type, tags it, and submits it once.
  pub prep_socket-Contract :
      (domain type : ℤ) (idx : ℤ) (t : TimeoutParams) (h : List Call)
      → is_supported domain ≡ true
      → Contract u
          (λ p writes. p ≡ Prep.socket domain type (pos 0) 0)
          t
          idx
          h
          (prep_socket u idx domain type t h)
  unfolding prep_socket
  prep_socket-Contract domain type idx t h good =
      plain-Contract u _ t idx h _ (Prep.socket domain type (pos 0) 0) (λ sqe g. rw good refl)
        (λ sqe. refl)

  -- How `prep_socket` refuses a domain.
  pub data Refused (t : TimeoutParams) (h : List Call) (r : ℤ × List Call) : Type 0 where
    no_sqe : u.io_uring_get_sqe h ≡ none → r ≡ (negsuc 0, get_sqe ∷ h) → Refused t h r
    taken :
        (sqe : ℕ) (before : List Call)
        → u.io_uring_get_sqe h ≡ some sqe
        → Acquires u t sqe h before
        → r ≡ (negsuc 1, before)
        → Refused t h r
    no_timeout :
        (sqe : ℕ)
        → u.io_uring_get_sqe h ≡ some sqe
        → t.is_required ≡ true
        → r ≡ (negsuc 0, get_sqe ∷ or_flags sqe u.iosqe_io_link ∷ get_sqe ∷ h)
        → Refused t h r

  refuse :
      (domain type : ℤ) (idx : ℤ) (t : TimeoutParams) (h : List Call) (sqe : ℕ)
      → is_supported domain ≡ false
      → u.io_uring_get_sqe h ≡ some sqe
      → Timed u t sqe h (timeout u sqe (some t) (get_sqe ∷ h))
      → Refused t h (prep_socket u idx domain type t h)
  unfolding prep_socket with_optional_timeout armed
  refuse domain type idx t h sqe bad got (set before a q) =
      taken sqe before got a (rw (got, q, bad) refl)
  refuse domain type idx t h sqe bad got (unmet wanted must full q) =
      no_timeout sqe got must (rw (got, q) refl)

  -- For any other domain, `prep_socket` answers -2 and submits nothing, but the sqe that it took,
  -- and a timeout that it linked, stay in the queue; without an sqe, or without one for a required
  -- timeout, it answers -1.
  pub prep_socket-Refused :
      (domain type : ℤ) (idx : ℤ) (t : TimeoutParams) (h : List Call)
      → is_supported domain ≡ false
      → Refused t h (prep_socket u idx domain type t h)
  unfolding prep_socket with_optional_timeout armed
  prep_socket-Refused domain type idx t h bad = elim (Option-cases (u.io_uring_get_sqe h)) [
    | inl full ↦ no_sqe full (rw full refl)
    | inr (sqe, got) ↦ refuse domain type idx t h sqe bad got (timeout-Timed u t sqe h)
  ]
