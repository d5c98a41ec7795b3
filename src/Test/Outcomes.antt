-- ===== src/Test/Outcomes.antt =====
-- Postconditions of the functions of `Test`, and how they follow one another.
use photesthesis.Test.{Test, Ended, done, rejected, raised, TestError, M, continue}

module _ {W Gen : Type 0} where
  -- What holds of the outcome: of a value and the object, of the object after `RejectPlan`, and of
  -- another exception and the object.
  pub data Post {A : Type 0} (P : A → Test W Gen → Type 0) (R : Test W Gen → Type 0)
      (E : TestError → Test W Gen → Type 0) : Ended A × Test W Gen → Type 0 where
    is_done : {a : A} {t : Test W Gen} → P a t → Post P R E (done a, t)
    is_rejected : {t : Test W Gen} → R t → Post P R E (rejected, t)
    is_raised : {e : TestError} {t : Test W Gen} → E e t → Post P R E (raised e, t)

  -- Of a function that does not throw `RejectPlan`.
  abbrev pub Never : Test W Gen → Type 0
  Never t = ⊥

  pub continue-Post :
      {A B : Type 0} {P : A → Test W Gen → Type 0} {Q : B → Test W Gen → Type 0}
      {R : Test W Gen → Type 0} {E : TestError → Test W Gen → Type 0} {x : Ended A × Test W Gen}
      {f : A → M W Gen B}
      → Post P R E x
      → ((a : A) (t : Test W Gen) → P a t → Post Q R E (f a t))
      → Post Q R E (continue x f)
  continue-Post (is_done p) k = k _ _ p
  continue-Post (is_rejected p) k = is_rejected p
  continue-Post (is_raised p) k = is_raised p

  pub Post-done :
      {A : Type 0} {P : A → Test W Gen → Type 0} {R : Test W Gen → Type 0}
      {E : TestError → Test W Gen → Type 0} {a : A} {t : Test W Gen}
      → Post P R E (done a, t)
      → P a t
  Post-done (is_done p) = p

  pub Post-imp :
      {A : Type 0} {P Q : A → Test W Gen → Type 0} {R : Test W Gen → Type 0}
      {E : TestError → Test W Gen → Type 0} {x : Ended A × Test W Gen}
      → Post P R E x
      → ((a : A) (t : Test W Gen) → P a t → Q a t)
      → Post Q R E x
  Post-imp (is_done p) k = is_done (k _ _ p)
  Post-imp (is_rejected p) k = is_rejected p
  Post-imp (is_raised p) k = is_raised p

  pub Post-raised :
      {A : Type 0} {P : A → Test W Gen → Type 0} {R : Test W Gen → Type 0}
      {E E' : TestError → Test W Gen → Type 0} {x : Ended A × Test W Gen}
      → Post P R E x
      → ((e : TestError) (t : Test W Gen) → E e t → E' e t)
      → Post P R E' x
  Post-raised (is_done p) k = is_done p
  Post-raised (is_rejected p) k = is_rejected p
  Post-raised (is_raised p) k = is_raised (k _ _ p)
