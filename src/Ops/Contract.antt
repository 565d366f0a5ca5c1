-- ===== src/Ops/Contract.antt =====
-- What each operation promises of the ring: the result code, and the calls that it makes.
use uringio.Base.{
  ℕ, ℤ, pos, negsuc, is_neg, to_u64, ◌≡◌, refl, inl, inr, true, false, none, some, Option, List, [],
  ◌∷◌, ◌++◌, arith, if◌then◌else◌, Bool-cases, Option-cases,
}
use uringio.Uring.{
  Timespec, Prep, Call, get_sqe, prep, or_flags, or_ioprio, set_buf_group, set_buf_index, set_data,
  submit, Liburing, M,
}
use uringio.Timer.{TimeoutParams, is_unset, link_timeout, arm_timeout, timeout}
use uringio.Ops.{armed, with_optional_timeout, submit_request}

-- The call assigns to a field of `sqe`, other than the user data.
abbrev pub Writes : ℕ → Call → Type 0
Writes sqe (prep s p) = s ≡ sqe
Writes sqe (or_flags s f) = s ≡ sqe
Writes sqe (or_ioprio s f) = s ≡ sqe
Writes sqe (set_buf_group s g) = s ≡ sqe
Writes sqe (set_buf_index s i) = s ≡ sqe
Writes sqe c = ⊥

abbrev pub AllWrite : ℕ → List Call → Type 0
AllWrite sqe [] = Unit {0}
AllWrite sqe (c ∷ cs) = Writes sqe c × AllWrite sqe cs

-- The descriptor that the prepared request acts on.
abbrev pub target : Prep → Option ℤ
target (Prep.openat2 dfd path how) = some dfd
target (Prep.read fd buf size offset) = some fd
target (Prep.readv2 fd iovecs nr_vecs offset flags) = some fd
target (Prep.write fd buf size offset) = some fd
target (Prep.writev2 fd iovecs nr_vecs offset flags) = some fd
target (Prep.close fd) = some fd
target (Prep.fsync fd fsync_flags) = some fd
target (Prep.splice fd_in off_in fd_out off_out nbytes flag) = some fd_in
target (Prep.read_fixed fd buf size offset buf_index) = some fd
target (Prep.write_fixed fd buf size offset buf_index) = some fd
target (Prep.read_multishot fd nbytes offset bgid) = some fd
target (Prep.bind fd addr addrlen) = some fd
target (Prep.connect fd addr addrlen) = some fd
target (Prep.listen fd backlog) = some fd
target (Prep.accept fd addr len flags) = some fd
target (Prep.multishot_accept fd addr len flags) = some fd
target (Prep.send sockfd buf len flags) = some sockfd
target (Prep.recv sockfd buf len flags) = some sockfd
target (Prep.sendto sockfd buf len flags addr addrlen) = some sockfd
target (Prep.recvmsg sockfd msg flags) = some sockfd
target (Prep.sendmsg sockfd msg flags) = some sockfd
target (Prep.recv_multishot sockfd buf len flags) = some sockfd
target (Prep.recvmsg_multishot sockfd msg flags) = some sockfd
target (Prep.send_zc sockfd buf len flags zc_flags) = some sockfd
target (Prep.send_zc_fixed sockfd buf len flags zc_flags buf_index) = some sockfd
target (Prep.sendmsg_zc sockfd msg flags) = some sockfd
target p = none

-- The preparations among the calls, the buffer groups set, and the flags added.
abbrev pub prepared : List Call → List Prep
prepared [] = []
prepared (prep s p ∷ cs) = p ∷ prepared cs
prepared (c ∷ cs) = prepared cs

abbrev pub groups : List Call → List ℕ
groups [] = []
groups (set_buf_group s g ∷ cs) = g ∷ groups cs
groups (c ∷ cs) = groups cs

abbrev pub flags : List Call → List ℕ
flags [] = []
flags (or_flags s f ∷ cs) = f ∷ flags cs
flags (c ∷ cs) = flags cs

-- The registered buffers that are named by a field of the sqe.
abbrev pub indices : List Call → List ℕ
indices [] = []
indices (set_buf_index s i ∷ cs) = i ∷ indices cs
indices (c ∷ cs) = indices cs

-- The priority flags added.
abbrev pub ioprios : List Call → List ℕ
ioprios [] = []
ioprios (or_ioprio s f ∷ cs) = f ∷ ioprios cs
ioprios (c ∷ cs) = ioprios cs

-- The timespec that a timeout hands to the kernel.
abbrev pub timespec_of : TimeoutParams → Timespec
timespec_of p = record { tv_sec = p.sec; tv_nsec = p.nsec }

module _ (u : Liburing) where
  -- The calls that take an sqe and link a timeout to it, or try to.
  pub data Acquires (t : TimeoutParams) (sqe : ℕ) (h : List Call) (h' : List Call) : Type 0 where
    plain : is_unset t ≡ true → h' ≡ get_sqe ∷ h → Acquires t sqe h h'
    linked :
        (ts : ℕ)
        → is_unset t ≡ false
        → u.io_uring_get_sqe (or_flags sqe u.iosqe_io_link ∷ get_sqe ∷ h) ≡ some ts
        → h'
          ≡ prep ts (Prep.link_timeout (timespec_of t) 0)
            ∷ get_sqe
            ∷ or_flags sqe u.iosqe_io_link
            ∷ get_sqe
            ∷ h
        → Acquires t sqe h h'
    unlinked :
        is_unset t ≡ false
        → t.is_required ≡ false
        → u.io_uring_get_sqe (or_flags sqe u.iosqe_io_link ∷ get_sqe ∷ h) ≡ none
        → h' ≡ get_sqe ∷ or_flags sqe u.iosqe_io_link ∷ get_sqe ∷ h
        → Acquires t sqe h h'

  -- `timeout` called right after the sqe was taken from the history `h`.
  pub data Timed (t : TimeoutParams) (sqe : ℕ) (h : List Call) (r : ℤ × List Call) : Type 0 where
    set : (before : List Call) → Acquires t sqe h before → r ≡ (pos 0, before) → Timed t sqe h r
    unmet :
        is_unset t ≡ false
        → t.is_required ≡ true
        → u.io_uring_get_sqe (or_flags sqe u.iosqe_io_link ∷ get_sqe ∷ h) ≡ none
        → r ≡ (negsuc 0, get_sqe ∷ or_flags sqe u.iosqe_io_link ∷ get_sqe ∷ h)
        → Timed t sqe h r

  -- `timeout`, called with parameters right after an sqe was taken, answers 0, with a timeout
  -- linked to that sqe if one is asked for and there is an sqe for it, and -1 exactly if the
  -- timeout is asked for, is required, and there is no sqe for it; it then has only set the sqe's
  -- link flag.
  pub timeout-Timed :
      (t : TimeoutParams) (sqe : ℕ) (h : List Call)
      → Timed t sqe h (timeout u sqe (some t) (get_sqe ∷ h))
  unfolding timeout arm_timeout link_timeout
  timeout-Timed t sqe h = elim (Bool-cases (is_unset t)) [
    | inl unset ↦ set (get_sqe ∷ h) (plain unset refl) (ground arith)
    | inr wanted ↦
        elim (Option-cases (u.io_uring_get_sqe (or_flags sqe u.iosqe_io_link ∷ get_sqe ∷ h))) [
          | inl full ↦ elim (Bool-cases t.is_required) [
            | inl must ↦ unmet wanted must full (ground arith)
            | inr may ↦ set _ (unlinked wanted may full refl) (ground arith)
          ]
          | inr (ts, got) ↦ set _ (linked ts wanted got refl) (ground arith)
        ]
  ]

  -- `if (result < 0) return 0; return 1;`
  abbrev pub code : ℤ → ℤ
  code result = if is_neg result then pos 0 else pos 1

  -- What an operation with the timeout `t` and the index `idx` may answer and do, from the history
  -- `h`. In `sent` every write between the sqe's acquisition and its tag goes to that sqe, one of
  -- them prepares it, and the tag is followed at once by the one submission.
  pub data Contract (Fits : Prep → List Call → Type 0) (t : TimeoutParams) (idx : ℤ) (h : List Call)
      (r : ℤ × List Call) : Type 0 where
    no_sqe : u.io_uring_get_sqe h ≡ none → r ≡ (negsuc 0, get_sqe ∷ h) → Contract Fits t idx h r
    no_timeout :
        (sqe : ℕ)
        → u.io_uring_get_sqe h ≡ some sqe
        → is_unset t ≡ false
        → t.is_required ≡ true
        → u.io_uring_get_sqe (or_flags sqe u.iosqe_io_link ∷ get_sqe ∷ h) ≡ none
        → r ≡ (negsuc 0, get_sqe ∷ or_flags sqe u.iosqe_io_link ∷ get_sqe ∷ h)
        → Contract Fits t idx h r
    sent :
        (sqe : ℕ) (p : Prep) (writes before : List Call)
        → u.io_uring_get_sqe h ≡ some sqe
        → Acquires t sqe h before
        → AllWrite sqe writes
        → prepared writes ≡ p ∷ []
        → Fits p writes
        → r ≡ (
          code (u.io_uring_submit (set_data sqe (to_u64 idx) ∷ writes ++ before)),
          submit ∷ set_data sqe (to_u64 idx) ∷ writes ++ before,
        )
        → Contract Fits t idx h r

  module _ (Fits : Prep → List Call → Type 0) (t : TimeoutParams) (idx : ℤ) (h : List Call)
      (rest : ℕ → M ℤ) (p : Prep) (writes : ℕ → List Call)
      (tail : (sqe : ℕ) (g : List Call) → rest sqe g ≡ submit_request u sqe idx (writes sqe ++ g))
      (own : (sqe : ℕ) → AllWrite sqe (writes sqe))
      (one : (sqe : ℕ) → prepared (writes sqe) ≡ p ∷ [])
      (fits : (sqe : ℕ) → Fits p (writes sqe)) where
    tail-Contract :
        (sqe : ℕ) (before : List Call)
        → u.io_uring_get_sqe h ≡ some sqe
        → Acquires t sqe h before
        → Contract Fits t idx h (rest sqe before)
    unfolding submit_request
    tail-Contract sqe before e a =
        sent sqe p (writes sqe) before e a (own sqe) (one sqe) (fits sqe)
          (ground (arith, tail sqe before))

    armed-Contract :
        (sqe : ℕ)
        → u.io_uring_get_sqe h ≡ some sqe
        → Timed t sqe h (timeout u sqe (some t) (get_sqe ∷ h))
        → Contract Fits t idx h (armed u (some t) rest (some sqe) (get_sqe ∷ h))
    unfolding armed
    armed-Contract sqe e (set before a q) = rw q (tail-Contract sqe before e a)
    armed-Contract sqe e (unmet wanted must full q) =
        no_timeout sqe e wanted must full (ground arith)

    pub frame-Contract : Contract Fits t idx h (with_optional_timeout u (some t) rest h)
    unfolding with_optional_timeout
    frame-Contract = elim (Option-cases (u.io_uring_get_sqe h)) [
      | inl full ↦ no_sqe full (ground arith)
      | inr (sqe, got) ↦ rw got (armed-Contract sqe got (timeout-Timed t sqe h))
    ]

  -- The case of an operation that prepares its sqe and sets no other field.
  pub plain-Contract :
      (Fits : Prep → List Call → Type 0) (t : TimeoutParams) (idx : ℤ) (h : List Call)
      (rest : ℕ → M ℤ) (p : Prep)
      → ((sqe : ℕ) (g : List Call) → rest sqe g ≡ submit_request u sqe idx (prep sqe p ∷ g))
      → ((sqe : ℕ) → Fits p (prep sqe p ∷ []))
      → Contract Fits t idx h (with_optional_timeout u (some t) rest h)
  plain-Contract Fits t idx h rest p tail fits =
      frame-Contract Fits t idx h rest p (λ sqe. prep sqe p ∷ []) tail (λ sqe. (refl, tt))
        (λ sqe. refl) fits
