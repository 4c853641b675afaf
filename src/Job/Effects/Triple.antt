-- ===== src/Job/Effects/Triple.antt =====
-- Pre- and postconditions of statements that may raise, with a rule for each way to build one.
use runpod_sageattention.Base.{◌≡◌, refl, Bool, true, false, Option, none, some, ◌∷◌, if◌then◌else◌}
use runpod_sageattention.Job.Failure.{Failure, Result, ok, err, capacity_unavailable, gpu_placement}
use runpod_sageattention.Job.Effects.{
  Call, called, History, Frame, M, pure, raise, lift, gets, modify, call, continue, ◌>>=◌,
  on_capacity, on_placement, catch_capacity, catch_placement,
}

-- What holds after a statement: `Q` if it returned, `E` if it raised.
abbrev pub Post : {A : Type 0} → (A → Frame → Type 0) → (Frame → Type 0) → Result A × Frame → Type 0
Post Q E (ok a, s) = Q a s
Post Q E (err e, s) = E s

pub record Triple {A : Type 0} (P : Frame → Type 0) (m : M A) (Q : A → Frame → Type 0)
    (E : Frame → Type 0) : Type 0 where
  pub at : (s : Frame) → P s → Post Q E (m s)

module _ {P : Frame → Type 0} {E : Frame → Type 0} where
  pub Triple-pure :
      {A : Type 0} (a : A) {Q : A → Frame → Type 0}
      → ((s : Frame) → P s → Q a s)
      → Triple P (pure a) Q E
  unfolding pure
  Triple-pure a h = record { at = h }

  pub Triple-raise :
      {A : Type 0} (e : Failure) {Q : A → Frame → Type 0}
      → ((s : Frame) → P s → E s)
      → Triple P (raise e) Q E
  unfolding raise
  Triple-raise e h = record { at = h }

  pub Triple-modify :
      (f : Frame → Frame) {Q : Unit {0} → Frame → Type 0}
      → ((s : Frame) → P s → Q tt (f s))
      → Triple P (modify f) Q E
  unfolding modify
  Triple-modify f h = record { at = h }

  pub Triple-gets :
      {A : Type 0} (f : Frame → A) {Q : A → Frame → Type 0}
      → ((s : Frame) → P s → Q (f s) s)
      → Triple P (gets f) Q E
  unfolding gets
  Triple-gets f h = record { at = h }

  pub Triple-bind :
      {A B : Type 0} {m : M A} {f : A → M B} {Q : A → Frame → Type 0} {R : B → Frame → Type 0}
      → Triple P m Q E
      → ((a : A) → Triple (Q a) (f a) R E)
      → Triple P (m >>= f) R E
  unfolding ◌>>=◌
  Triple-bind {m = m} {f = f} {Q} {R} tm tf = record { at = λ s h. next (m s) (tm.at s h) }
    where
      next : (o : Result _ × Frame) → Post Q E o → Post R E (continue f o)
      next (ok a, s) h = (tf a).at s h
      next (err e, s) h = h

  pub Triple-lift :
      {A : Type 0} (r : Result A) {Q : A → Frame → Type 0}
      → ((s : Frame) → P s → E s)
      → ((a : A) (s : Frame) → P s → Q a s)
      → Triple P (lift r) Q E
  unfolding lift
  Triple-lift (ok a) he hq = record { at = hq a }
  Triple-lift (err e) he hq = record { at = he }

  pub Triple-call :
      {A : Type 0} (c : Call) (f : History → Result A) {Q : A → Frame → Type 0}
      → ((s : Frame) → P s → E (record s { history = called c ∷ s.history }))
      → ((a : A) (s : Frame) → P s → Q a (record s { history = called c ∷ s.history }))
      → Triple P (call c f) Q E
  unfolding call
  Triple-call c f {Q} he hq = record { at = λ s h. answered (f s.history) s h }
    where
      answered :
          (r : Result _) (s : Frame)
          → P s
          → Post Q E (r, record s { history = called c ∷ s.history })
      answered (ok a) s h = hq a s h
      answered (err e) s h = he s h

  pub Triple-if :
      {A : Type 0} (b : Bool) {m n : M A} {Q : A → Frame → Type 0}
      → (b ≡ true → Triple P m Q E)
      → (b ≡ false → Triple P n Q E)
      → Triple P (if b then m else n) Q E
  Triple-if true km kn = km refl
  Triple-if false km kn = kn refl

  -- A handler for one exception continues with `none` from what held when it was raised.
  pub Triple-catch_capacity :
      {A : Type 0} {m : M A} {Q : A → Frame → Type 0} {R : Option A → Frame → Type 0}
      {D : Frame → Type 0}
      → Triple P m Q D
      → ((a : A) (s : Frame) → Q a s → R (some a) s)
      → ((s : Frame) → D s → R none s)
      → ((s : Frame) → D s → E s)
      → Triple P (catch_capacity m) R E
  unfolding catch_capacity
  Triple-catch_capacity {m = m} {Q} {R} {D} tm hq hr he = record {
    at = λ s h. next (m s) (tm.at s h);
  }
    where
      next : (o : Result _ × Frame) → Post Q D o → Post R E (on_capacity o)
      next (ok a, s) h = hq a s h
      next (err (capacity_unavailable text), s) h = hr s h
      next (err _, s) h = he s h

  pub Triple-catch_placement :
      {A : Type 0} {m : M A} {Q : A → Frame → Type 0} {R : Option A → Frame → Type 0}
      {D : Frame → Type 0}
      → Triple P m Q D
      → ((a : A) (s : Frame) → Q a s → R (some a) s)
      → ((s : Frame) → D s → R none s)
      → ((s : Frame) → D s → E s)
      → Triple P (catch_placement m) R E
  unfolding catch_placement
  Triple-catch_placement {m = m} {Q} {R} {D} tm hq hr he = record {
    at = λ s h. next (m s) (tm.at s h);
  }
    where
      next : (o : Result _ × Frame) → Post Q D o → Post R E (on_placement o)
      next (ok a, s) h = hq a s h
      next (err (gpu_placement text), s) h = hr s h
      next (err _, s) h = he s h

module _ {A : Type 0} {m : M A} where
  pub Triple-weaken :
      {P P' E E' : Frame → Type 0} {Q Q' : A → Frame → Type 0}
      → Triple P m Q E
      → ((s : Frame) → P' s → P s)
      → ((a : A) (s : Frame) → Q a s → Q' a s)
      → ((s : Frame) → E s → E' s)
      → Triple P' m Q' E'
  Triple-weaken {P} {P'} {E} {E'} {Q} {Q'} t hp hq he = record {
    at = λ s h. next (m s) (t.at s (hp s h));
  }
    where
      next : (o : Result A × Frame) → Post Q E o → Post Q' E' o
      next (ok a, s) h = hq a s h
      next (err e, s) h = he s h

-- An action that changes nothing that `P` looks at, whatever it returns.
abbrev pub Keeps : {A : Type 0} → (Frame → Type 0) → M A → Type 0
Keeps P m = Triple P m (λ a. P) P

module _ {P : Frame → Type 0} {A : Type 0} where
  pub Keeps-pure : (a : A) → Keeps P (pure a)
  Keeps-pure a = Triple-pure a (λ s h. h)

  pub Keeps-raise : (e : Failure) → Keeps P (raise {A = A} e)
  Keeps-raise e = Triple-raise e (λ s h. h)

  pub Keeps-lift : (r : Result A) → Keeps P (lift r)
  Keeps-lift r = Triple-lift r (λ s h. h) (λ a s h. h)

  pub Keeps-gets : (f : Frame → A) → Keeps P (gets f)
  Keeps-gets f = Triple-gets f (λ s h. h)

  pub Keeps-call :
      (c : Call) (f : History → Result A)
      → ((s : Frame) → P s → P (record s { history = called c ∷ s.history }))
      → Keeps P (call c f)
  Keeps-call c f k = Triple-call c f k (λ a. k)
