-- ===== src/Methods/Plain.antt =====
-- The methods that submit no buffer.
use uringio.Base.{
  if◌then◌else◌, Bool, ℕ, ℤ, eqb_ℤ, not, ◌≡◌, refl, true, false, Option, none, some, List, [], ◌∷◌,
  arith,
}
use uringio.Enums.{oneshot, Opcode}
use uringio.Timer.{TimeoutParams}
use uringio.Registry.Invariant.{IsValid}
use uringio.Buffers.Heap.{Resource, reference, got}
use uringio.Buffers.Rules.{Has}
use uringio.Ops.Files.Laws.{FileOp, submit_file}
use uringio.Methods.{
  refuse_closing, raise, Caller, Site, S, ◌>>=◌, run_next, in_ring, got_future, create_future,
  guarded, with_args, request_of, register_and_submit,
}
use uringio.Methods.Files.{
  SpliceArgs, without_buffer, uringio_file_close, uringio_file_fsync, uringio_file_fdatasync,
  uringio_file_splice,
}
use uringio.Methods.Rules.{
  Ends, Ends-weaken, same-Restored, Refused, Registered, nothing, Ended, Refused-from,
  Registered-from,
}
use uringio.Methods.Submission.{register_and_submit-Ends}

-- The state in which an exception was set.
abbrev pub with_error : Caller → Caller
with_error s = record s { heap = record s.heap { error = true } }

pub with_error-Refused :
    (s : Caller) (rs : List Resource)
    → IsValid s.registry
    → Has rs false s.heap
    → Refused s rs (with_error s)
with_error-Refused s rs v o =
    (record { owned = o.owned; raised = refl }, same-Restored s.registry v)

-- A future is answered only to the loop's own thread, while the loop is not closing, and by a file
-- that is open.
abbrev pub Admits : Site → Option ℕ → Type 0
Admits site none = Unit
Admits site (some f) =
    (eqb_ℤ site.loop_tid site.gettid ≡ true)
    × (site.is_closing ≡ some false)
    × (site.closed ≡ false)

module _ (site : Site) (s : Caller) (Q : Option ℕ → Caller → Type 0)
    (refused : Q none (with_error s)) where
  pub guarded-Ends :
      (c : Bool)
      → site.is_closing ≡ some c
      → (body : S (Option ℕ)) → Ends (body s) Q
      → Ends (guarded site body s) (λ r u. Q r u × Admits site r)
  guarded-Ends c known body h =
      tested (not (eqb_ℤ site.loop_tid site.gettid)) site.is_closing site.closed refl refl refl
        known
    where
      admitted :
          not (eqb_ℤ site.loop_tid site.gettid) ≡ false
          → site.is_closing ≡ some false
          → site.closed ≡ false
          → (r : Option ℕ) → Admits site r
      admitted e k l none = tt
      admitted e k l (some f) = (ground arith, k, l)

      tested :
          (stranger : Bool) (closing : Option Bool) (closed : Bool)
          → not (eqb_ℤ site.loop_tid site.gettid) ≡ stranger
          → site.is_closing ≡ closing
          → site.closed ≡ closed
          → closing ≡ some c
          → Ends
              ((if stranger
                  then raise
                  else refuse_closing site closing (if closed then raise else body))
                s)
              (λ r u. Q r u × Admits site r)
      tested true closing closed e k l there = (refused, tt)
      tested false none closed e k l there = absurd (cc there)
      tested false (some true) closed e k l there = (refused, tt)
      tested false (some false) true e k l there = (refused, tt)
      tested false (some false) false e k l there =
          Ends-weaken Q (λ r u. Q r u × Admits site r) (body s) h (λ r u q. (q, admitted e k l r))

  pub with_args-Ends :
      {A : Type 0} (args : Option A) (body : A → S (Option ℕ))
      → ((a : A) → args ≡ some a → Ends (body a s) Q)
      → Ends (with_args site args body s) Q
  with_args-Ends none body h = refused
  with_args-Ends (some a) body h = h a refl

-- The state in which the method has its future.
abbrev pub with_future : Caller → ℕ → Caller
with_future s f = record s { heap = record s.heap { steps = got (reference f) ∷ s.heap.steps } }

module _ (site : Site) (s : Caller) (rs : List Resource) (Q : Option ℕ → Caller → Type 0) where
  pub create_future-Ends :
      (body : Option ℕ → S (Option ℕ))
      → Ends (body none (with_error s)) Q
      → ((f : ℕ) → Ends (body (some f) (with_future s f)) Q)
      → Ends ((create_future site >>= body) s) Q
  create_future-Ends body without more =
      elim (site.create_future s.heap.steps)
        as (λ r. Ends (run_next (got_future site r s) body) Q) [ none ↦ without | some f ↦ more f ]

-- A call of a method that submits no buffer, with its arguments.
pub data Unbuffered : Type 0 where
  close fsync fdatasync : Option (Option TimeoutParams) → Unbuffered
  splice : Option (SpliceArgs × Option TimeoutParams) → Unbuffered

module _ (site : Site) where
  unfoldable pub call_unbuffered : Unbuffered → S (Option ℕ)
  call_unbuffered (close args) = uringio_file_close site args
  call_unbuffered (fsync args) = uringio_file_fsync site args
  call_unbuffered (fdatasync args) = uringio_file_fdatasync site args
  call_unbuffered (splice args) = uringio_file_splice site args

  -- What a call asks for: the opcode of its request, the operation and the timeout.
  pub data Asks : Unbuffered → Opcode → FileOp → TimeoutParams → Type 0 where
    asks_close :
        (t : TimeoutParams) → Asks (close (some (some t))) Opcode.close (FileOp.close site.fd) t
    asks_fsync :
        (t : TimeoutParams) → Asks (fsync (some (some t))) Opcode.fsync (FileOp.fsync site.fd) t
    asks_fdatasync :
        (t : TimeoutParams)
        → Asks (fdatasync (some (some t))) Opcode.fsync (FileOp.fdatasync site.fd) t
    asks_splice :
        (a : SpliceArgs) (t : TimeoutParams)
        → Asks
            (splice (some (a, some t)))
            Opcode.splice
            (FileOp.splice a.src a.offset_src a.dst a.offset_dst a.count a.flag)
            t

  module _ (s : Caller) (rs : List Resource) where
    abbrev pub CallEnded : Unbuffered → Option ℕ → Caller → Type 0
    CallEnded c none u = Refused s rs u
    CallEnded c (some f) u =
        (opcode : Opcode) × (op : FileOp) × (t : TimeoutParams) × Asks c opcode op t
        × Registered s u rs [] (request_of site f none oneshot opcode)
            (λ idx. submit_file site.liburing op idx t)

    without_buffer-Ends :
        (c : Unbuffered) (opcode : Opcode) (op : FileOp) (t : TimeoutParams) (submit : ℤ → S ℤ)
        → Asks c opcode op t
        → IsValid s.registry
        → Has rs false s.heap
        → ((idx : ℤ) (u : Caller) → submit idx u ≡ in_ring (submit_file site.liburing op idx t) u)
        → Ends (without_buffer site opcode submit s) (CallEnded c)
    without_buffer-Ends c opcode op t submit ask v o same =
        create_future-Ends site s rs (CallEnded c) _ (with_error-Refused s rs v o) (λ f.
          Ends-weaken
            (Ended (with_future s f) rs [] (request_of site f none oneshot opcode)
              (λ idx. submit_file site.liburing op idx t))
            (CallEnded c) (register_and_submit site f none oneshot opcode submit (with_future s f))
            (register_and_submit-Ends site (with_future s f) rs [] f none oneshot opcode op t submit
              v nothing (record { owned = λ w. omega (arith, o.owned w); raised = o.raised })
              (λ idx u e. same idx u))
            (told f))
      where
        told :
            (f : ℕ) (r : Option ℕ) (u : Caller)
            → Ended
                (with_future s f)
                rs
                []
                (request_of site f none oneshot opcode)
                (λ idx. submit_file site.liburing op idx t)
                r
                u
            → CallEnded c r u
        told f none u h = Refused-from (with_future s f) s rs u refl h
        told f (some g) u (h, e, q) = (
          opcode,
          op,
          t,
          ask,
          rw e (
              Registered-from (with_future s f) s rs [] (request_of site f none oneshot opcode)
                (λ idx. submit_file site.liburing op idx t) u refl refl h),
        )

    -- When the loop has the attribute `_closed`, a method of a file that submits no buffer, with
    -- the future, the request and the ring's answer as they may be: when it answers NULL, an
    -- exception is set, the registry has the requests in flight that it had, and every reference
    -- taken is dropped; the ring's queue is not looked at. When it answers a future, the calling
    -- thread is the loop's, the loop is not closing and the file is open, its arguments were
    -- parsed, one new request is in flight, in a slot that was free, with that future and the file,
    -- the operation that the arguments ask for was submitted once under its index, and the
    -- references held more are those of the answer, the request's future and its file.
    pub call_unbuffered-Ends :
        (c : Unbuffered)
        → (closing : Bool) → site.is_closing ≡ some closing
        → IsValid s.registry
        → Has rs false s.heap
        → Ends (call_unbuffered c s) (λ r u. CallEnded c r u × Admits site r)
    unfolding call_unbuffered uringio_file_close uringio_file_fsync uringio_file_fdatasync
        uringio_file_splice submit_file
    call_unbuffered-Ends (close args) c known v o =
        guarded-Ends site s (CallEnded (close args)) (with_error-Refused s rs v o) c known _ (
          with_args-Ends site s (CallEnded (close args)) (with_error-Refused s rs v o) args _
            (λ timeout e.
              with_args-Ends site s (CallEnded (close args)) (with_error-Refused s rs v o) timeout _
                (λ t e'.
                  without_buffer-Ends (close args) Opcode.close (FileOp.close site.fd) t _
                    (rw (e, e') (asks_close t)) v o (λ idx u. refl))))
    call_unbuffered-Ends (fsync args) c known v o =
        guarded-Ends site s (CallEnded (fsync args)) (with_error-Refused s rs v o) c known _ (
          with_args-Ends site s (CallEnded (fsync args)) (with_error-Refused s rs v o) args _
            (λ timeout e.
              with_args-Ends site s (CallEnded (fsync args)) (with_error-Refused s rs v o) timeout _
                (λ t e'.
                  without_buffer-Ends (fsync args) Opcode.fsync (FileOp.fsync site.fd) t _
                    (rw (e, e') (asks_fsync t)) v o (λ idx u. refl))))
    call_unbuffered-Ends (fdatasync args) c known v o =
        guarded-Ends site s (CallEnded (fdatasync args)) (with_error-Refused s rs v o) c known _ (
          with_args-Ends site s (CallEnded (fdatasync args)) (with_error-Refused s rs v o) args _
            (λ timeout e.
              with_args-Ends site s (CallEnded (fdatasync args)) (with_error-Refused s rs v o)
                timeout _
                (λ t e'.
                  without_buffer-Ends (fdatasync args) Opcode.fsync (FileOp.fdatasync site.fd) t _
                    (rw (e, e') (asks_fdatasync t)) v o (λ idx u. refl))))
    call_unbuffered-Ends (splice args) c known v o =
        guarded-Ends site s (CallEnded (splice args)) (with_error-Refused s rs v o) c known _ (
          with_args-Ends site s (CallEnded (splice args)) (with_error-Refused s rs v o) args _
            (λ (a, timeout) e.
              with_args-Ends site s (CallEnded (splice args)) (with_error-Refused s rs v o) timeout
                _
                (λ t e'.
                  without_buffer-Ends (splice args) Opcode.splice
                    (FileOp.splice a.src a.offset_src a.dst a.offset_dst a.count a.flag) t _
                    (rw (e, e') (asks_splice a t)) v o (λ idx u. refl))))
