-- ===== src/ExecutionContext/Laws.antt =====
-- What entering a context manager does to the current context.
use uringio.Base.{
  ◌⊎◌, ℕ, ◌==◌, ◌≡◌, refl, ◌∙◌, Bool, true, false, Option, none, some, Bool-cases, inl, inr, arith,
}
use uringio.Methods.{update}
use uringio.ExecutionContext.{
  Context, Python, Env, X, ◌>>=◌, ◌>>◌, run_next, or_null, context_at, write_context, cloned,
  clone_execution_context, made_capsule, capsule_new, took, context_var_set, context_var_get,
}
use uringio.ExecutionContext.Contexts.{push, set_capsule, with_capsule}

-- What CPython documents, where memory is had for the two calls: `set` gives the variable its value
-- and does not fail; `reset` with the token of a `set` whose capsule is the value now does not
-- fail, restores the value before the `set`, and takes the last reference from no other capsule
-- than this value, if from any; a new object is none that there is, and `PyCapsule_New` makes a
-- capsule.
pub record Behaves {Var : Type 0} (py : Python Var) : Type 0 where
  pub set_token : (c : ℕ) (v : Var) → (k : ℕ) × (v' : Var) × (py.set c v ≡ some (k, v'))
  pub get-set : (c k : ℕ) (v v' : Var) → py.set c v ≡ some (k, v') → py.get v' ≡ some c
  pub reset_token :
      (c k : ℕ) (v v' w : Var)
      → py.set c v ≡ some (k, v')
      → py.get w ≡ some c
      → (x : Var) × (dropped : Option ℕ) × (py.reset k w ≡ some (x, dropped))
        × (py.get x ≡ py.get v)
        × ((dropped ≡ none) ⊎ (dropped ≡ some c))
  pub new_context : (m : ℕ → Option Context) (p : ℕ) → py.malloc_context m ≡ some p → m p ≡ none
  pub new_capsule : (m : ℕ → Option ℕ) (c : ℕ) → py.new_capsule m ≡ some c → m c ≡ none
  pub capsule_new : (m : ℕ → Option ℕ) (c : ℕ) → py.new_capsule m ≡ some c → py.is_capsule c ≡ true

module _ {Var : Type 0} where
  -- The run does not fault, and its answer and its end are as `Q` says.
  abbrev pub Ends : {A : Type 0} → Option (A × Env Var) → (A → Env Var → Type 0) → Type 0
  Ends none Q = ⊥
  Ends (some (a, s)) Q = Q a s

  pub bind-Ends :
      {A B : Type 0} (P : A → Env Var → Type 0) (Q : B → Env Var → Type 0) (m : X Var A)
      (f : A → X Var B) (s : Env Var)
      → Ends (m s) P
      → ((a : A) (t : Env Var) → P a t → Ends (f a t) Q)
      → Ends ((m >>= f) s) Q
  bind-Ends {A = A} {B = B} P Q m f s h k = go (m s) h
    where
      go : (r : Option (A × Env Var)) → Ends r P → Ends (run_next r f) Q
      go none h = absurd h
      go (some (a, t)) h = k a t h

  pub Ends-weaken :
      {A : Type 0} (P Q : A → Env Var → Type 0) (r : Option (A × Env Var))
      → Ends r P
      → ((a : A) (t : Env Var) → P a t → Q a t)
      → Ends r Q
  Ends-weaken P Q none h k = h
  Ends-weaken P Q (some (a, t)) h k = k a t h

  -- The contexts and the capsules of `s` are there still.
  pub record Extends (s u : Env Var) : Type 0 where
    pub contexts : (p : ℕ) (c : Context) → s.contexts p ≡ some c → u.contexts p ≡ some c
    pub capsules : (c p : ℕ) → s.capsules c ≡ some p → u.capsules c ≡ some p

  pub Extends-trans : {s t u : Env Var} → Extends s t → Extends t u → Extends s u
  Extends-trans x y = record {
    contexts = λ p c h. y.contexts p c (x.contexts p c h);
    capsules = λ c p h. y.capsules c p (x.capsules c p h);
  }

  pub Extends-refl : (s : Env Var) → Extends s s
  Extends-refl s = record { contexts = λ p c h. h; capsules = λ c p h. h }

module _ {Var : Type 0} (py : Python Var) where
  -- The variable is `v`, its value the capsule `c` of the context `ctx` at `p`.
  pub record At (s : Env Var) (v : Var) (c p : ℕ) (ctx : Context) : Type 0 where
    pub var : s.var ≡ some v
    pub value : py.get v ≡ some c
    pub is_capsule : py.is_capsule c ≡ true
    pub pointer : s.capsules c ≡ some p
    pub context : s.contexts p ≡ some ctx

  pub At-Extends :
      (s u : Env Var) (v : Var) (c p : ℕ) (ctx : Context)
      → At s v c p ctx
      → u.var ≡ s.var
      → Extends s u
      → At u v c p ctx
  At-Extends s u v c p ctx a e x = record {
    var = e ∙ a.var;
    value = a.value;
    is_capsule = a.is_capsule;
    pointer = x.capsules c p a.pointer;
    context = x.contexts p ctx a.context;
  }

  pub get-At :
      (s : Env Var) (v : Var) (c p : ℕ) (ctx : Context)
      → At s v c p ctx
      → context_var_get py none s ≡ some (some p, s)
  unfolding context_var_get
  get-At s v c p ctx a = rw (a.var, a.value, a.is_capsule, a.pointer) refl

-- An update at an address where there was nothing.
update-fresh :
    {A : Type 0} (m : ℕ → Option A) (q p : ℕ) (a : A) (b : Option A)
    → m q ≡ none
    → m p ≡ some a
    → update m q b p ≡ some a
update-fresh m q p a b e h = elim (Bool-cases (q == p)) [
  | inl same ↦ (let k : q ≡ p = ground arith in absurd (cc (k, e, h)))
  | inr ne ↦ rw ne h
]

-- An update there leaves what is elsewhere, in a later state too.
pub update-elsewhere :
    {A : Type 0} (m n : ℕ → Option A) (q p : ℕ) (a : A) (b : Option A)
    → m q ≡ none
    → m p ≡ some a
    → n p ≡ some a
    → update n q b p ≡ some a
update-elsewhere m n q p a b e h h' = elim (Bool-cases (q == p)) [
  | inl same ↦ (let k : q ≡ p = ground arith in absurd (cc (k, e, h)))
  | inr ne ↦ rw ne h'
]

update_self : {A : Type 0} (m : ℕ → A) (q : ℕ) (a : A) → update m q a q ≡ a
update_self m q a = ground arith

pub ==-self : (q : ℕ) → (q == q) ≡ true
==-self q = ground arith

module _ {Var : Type 0} (py : Python Var) (law : Behaves py) (s : Env Var) (v : Var) (c p : ℕ)
    (ctx : Context) (a : At py s v c p ctx) where
  -- A token stands for the variable with a new capsule of the changed context; NULL leaves the
  -- variable alone.
  abbrev pub Pushed : (Context → Context) → Option ℕ → Env Var → Type 0
  Pushed change none u = At py u v c p ctx × Extends s u
  Pushed change (some k) u =
      (v' : Var) × (c' : ℕ) × (q : ℕ) × (py.set c' v ≡ some (k, v'))
      × At py u v' c' q (change ctx)
      × Extends s u
      × (u.caller ≡ s.caller)
      × (s.contexts q ≡ none)
      × (s.capsules c' ≡ none)

  module _ (q : ℕ) (was_free : s.contexts q ≡ none) (change : Context → Context) where
    -- With the copy, and with the changed copy.
    abbrev copied : Env Var
    copied = record s { contexts = update s.contexts q (some ctx) }

    abbrev changed : Env Var
    changed = record copied { contexts = update copied.contexts q (some (change ctx)) }

    -- Only the copy differs.
    elsewhere-Extends :
        (u : Env Var)
        → ((k : ℕ) → (q == k) ≡ false → u.contexts k ≡ s.contexts k)
        → ((k x : ℕ) → s.capsules k ≡ some x → u.capsules k ≡ some x)
        → Extends s u
    elsewhere-Extends u same capsules = record {
      contexts = λ k x h. elim (Bool-cases (q == k)) [
        | inl e ↦ (let e' : q ≡ k = ground arith in absurd (cc (e', was_free, h)))
        | inr ne ↦ same k ne ∙ h
      ];
      capsules = capsules;
    }

    unchanged :
        (u : Env Var)
        → u.var ≡ s.var
        → u.capsules ≡ s.capsules
        → ((k : ℕ) → (q == k) ≡ false → u.contexts k ≡ s.contexts k)
        → At py u v c p ctx × Extends s u
    unchanged u e cap same =
        let x = elsewhere-Extends u same (λ k x h. rw cap h) in
        (At-Extends py s u v c p ctx a e x, x)

    -- With the capsule of the changed copy.
    abbrev wrapped : ℕ → Env Var
    wrapped c' = record changed { capsules = update s.capsules c' (some q) }

    set_capsule-Ends :
        (c' : ℕ)
        → py.new_capsule s.capsules ≡ some c'
        → Ends (set_capsule py q c' (wrapped c')) (Pushed change)
    unfolding context_var_set
    set_capsule-Ends c' e =
        let (k, v', took) = law.set_token c' v in
        rw (a.var, took)
          (
            v',
            c',
            q,
            took,
            record {
              var = refl;
              value = law.get-set c' k v v' took;
              is_capsule = law.capsule_new s.capsules c' e;
              pointer = rw (==-self c') refl;
              context = rw (==-self q) refl;
            },
            elsewhere-Extends (record (wrapped c') { var = some v' }) (λ k ne. rw ne refl)
                (λ k x h.
                  update-fresh s.capsules c' k x (some q) (law.new_capsule s.capsules c' e) h),
            refl,
            was_free,
            law.new_capsule s.capsules c' e,
          )

    -- The capsule, if there is memory for it.
    held-Ends :
        (frees : Bool) (r : Option ℕ)
        → py.new_capsule s.capsules ≡ r
        → Ends ((made_capsule py q r >>= with_capsule py frees q) changed) (Pushed change)
    held-Ends true none e = rw (==-self q) (unchanged _ refl refl (λ k ne. rw ne refl))
    held-Ends false none e = unchanged _ refl refl (λ k ne. rw ne refl)
    held-Ends true (some c') e = set_capsule-Ends c' e
    held-Ends false (some c') e = set_capsule-Ends c' e

  -- Entering: the current context is copied and changed.
  pub push-Ends :
      (frees : Bool) (change : Context → Context) → Ends (push py frees change s) (Pushed change)
  unfolding clone_execution_context
  push-Ends frees change =
      rw (get-At py s v c p ctx a) (rw (a.context) (go (py.malloc_context s.contexts) refl))
    where
      rest : ℕ → X Var (Option ℕ)
      rest q = do
        x ← context_at q
        write_context q (change x)
        capsule ← capsule_new py q
        with_capsule py frees q capsule

      go :
          (r : Option ℕ)
          → py.malloc_context s.contexts ≡ r
          → Ends ((cloned py ctx r >>= λ new_context. or_null new_context rest) s) (Pushed change)
      go none e = (
        record {
          var = a.var;
          value = a.value;
          is_capsule = a.is_capsule;
          pointer = a.pointer;
          context = a.context;
        },
        record { contexts = λ k x h. h; capsules = λ k x h. h },
      )
      go (some q) e = rw (==-self q) (
          held-Ends q (law.new_context s.contexts q e) change frees (py.new_capsule s.capsules)
            refl)
