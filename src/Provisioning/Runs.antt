-- ===== src/Provisioning/Runs.antt =====
-- A run of a workflow: a state monad with errors in which nothing is rolled back, since a workflow
-- calls its repositories one after the other outside any transaction; and triples over it.
use vps_billing_gemini.Prelude.{◌≡◌, refl, subst, Result, ok, err}

module _ (S E : Type 0) where
  abbrev pub Run : Type 0 → Type 0
  Run A = S → Result E A × S

module _ {S E : Type 0} where
  abbrev handled : {A : Type 0} → Result E A × S → (E → S → S) → Result E A × S
  handled (ok a, s) handler = (ok a, s)
  handled (err e, s) handler = (err e, handler e s)

  abbrev followed : {A B : Type 0} → Result E A × S → (A → Run S E B) → Result E B × S
  followed (ok a, s) f = f a s
  followed (err e, s) f = (err e, s)

  infixl 5 ◌>>=◌ ◌>>◌
  abbrev pub ◌>>=◌ : {A B : Type 0} → Run S E A → (A → Run S E B) → Run S E B
  ◌>>=◌ m f s = followed (m s) f

  abbrev pub ◌>>◌ : {B : Type 0} → Run S E (Unit {0}) → Run S E B → Run S E B
  m >> k = m >>= λ _. k

  -- Writes whose errors are ignored.
  abbrev pub note : (S → S) → Run S E (Unit {0})
  note f s = (ok tt, f s)

  abbrev pub give : {A : Type 0} → A → Run S E A
  give a s = (ok a, s)

  -- `if err != nil { ...; return err }`, with the writes of the branch.
  abbrev pub try_or : {A : Type 0} → Run S E A → (E → S → S) → Run S E A
  try_or call handler s = handled (call s) handler

  -- What holds after a run: Q of its value and the state, or R of the state when it is an error.
  abbrev pub After : {A : Type 0} → (A → S → Type 0) → (S → Type 0) → Result E A × S → Type 0
  After Q R (ok a, s) = Q a s
  After Q R (err e, s) = R s

  abbrev pub Triple :
      {A : Type 0} → (S → Type 0) → Run S E A → (A → S → Type 0) → (S → Type 0) → Type 0
  Triple P m Q R = (s : S) → P s → After Q R (m s)

  module _ {A : Type 0} (Q : A → S → Type 0) (R : S → Type 0) where
    pub After-bind :
        {B : Type 0} (Q' : B → S → Type 0) (f : A → Run S E B) (out : Result E A × S)
        → After Q R out
        → ((a : A) → Triple (Q a) (f a) Q' R)
        → After Q' R (followed out f)
    After-bind Q' f (ok a, s) h k = k a s h
    After-bind Q' f (err e, s) h k = h

    pub Triple-bind :
        {B : Type 0} (P : S → Type 0) (Q' : B → S → Type 0) (m : Run S E A) (f : A → Run S E B)
        → Triple P m Q R
        → ((a : A) → Triple (Q a) (f a) Q' R)
        → Triple P (m >>= f) Q' R
    Triple-bind P Q' m f h k s p = After-bind Q' f (m s) (h s p) k

    pub After-map :
        (Q' : A → S → Type 0) (R' : S → Type 0) (out : Result E A × S)
        → ((a : A) (s : S) → Q a s → Q' a s)
        → ((s : S) → R s → R' s)
        → After Q R out
        → After Q' R' out
    After-map Q' R' (ok a, s) f g h = f a s h
    After-map Q' R' (err e, s) f g h = g s h

    -- What a triple says of a run with a known result.
    pub After-ok : (out : Result E A × S) (a : A) → After Q R out → out.0 ≡ ok a → Q a out.1
    After-ok (ok b, s) a h e = subst (λ c. Q c s) (cc) h
    After-ok (err x, s) a h e = absurd cc

    pub After-err : (out : Result E A × S) (x : E) → After Q R out → out.0 ≡ err x → R out.1
    After-err (ok b, s) x h e = absurd cc
    After-err (err y, s) x h e = h

  After-followed :
      {A B : Type 0} (Q : B → S → Type 0) (R : S → Type 0) (out : Result E A × S)
      (handler : E → S → S) (f : A → Run S E B)
      → ((a : A) → out.0 ≡ ok a → After Q R (f a out.1))
      → ((e : E) → out.0 ≡ err e → R (handler e out.1))
      → After Q R (followed (handled out handler) f)
  After-followed Q R (ok a, s) handler f good bad = good a refl
  After-followed Q R (err e, s) handler f good bad = bad e refl

  -- A call with its error branch, and what follows it.
  pub After-try :
      {A B : Type 0} (Q : B → S → Type 0) (R : S → Type 0) (call : Run S E A) (handler : E → S → S)
      (f : A → Run S E B) (s : S)
      → ((a : A) → (call s).0 ≡ ok a → After Q R (f a (call s).1))
      → ((e : E) → (call s).0 ≡ err e → R (handler e (call s).1))
      → After Q R ((try_or call handler >>= f) s)
  After-try Q R call handler f s good bad = After-followed Q R (call s) handler f good bad
