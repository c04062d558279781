-- ===== src/Exec.antt =====
-- Python methods that mutate an object and may raise: a method returns its outcome beside the
-- state that it left, since what was written before a raise stays written.
pub data Outcome {ℓ} (A : Type ℓ) : Type ℓ where
  ok : A → Outcome A
  raised : Outcome A

abbrev pub Exec {ℓ} : Type ℓ → Type ℓ → Type ℓ
Exec S A = S → Outcome A × S

module _ {ℓ} {S A : Type ℓ} where
  abbrev pub pure : A → Exec S A
  pure a s = (ok a, s)

  abbrev pub modify : (S → S) → A → Exec S A
  modify f a s = (ok a, f s)

module _ {ℓ} {S A B : Type ℓ} where
  abbrev pub continue : Outcome A → (A → Exec S B) → Exec S B
  continue (ok a) f s = f a s
  continue raised f s = (raised, s)

  infixl 5 ◌>>=◌ ◌>>◌
  abbrev pub ◌>>=◌ : Exec S A → (A → Exec S B) → Exec S B
  ◌>>=◌ m f s = let (r, s') = m s in continue r f s'

  abbrev pub ◌>>◌ : Exec S A → Exec S B → Exec S B
  m >> n = m >>= λ _. n

module _ {ℓ} {S A : Type ℓ} where
  abbrev pub recover : Outcome A → Exec S A → Exec S A
  recover (ok a) h s = (ok a, s)
  recover raised h s = h s

  -- `try: m except Exception: h`, from the state that the raise left.
  abbrev pub try : Exec S A → Exec S A → Exec S A
  try m h s = let (r, s') = m s in recover r h s'

abbrev pub Holds {ℓ κ} : {S A : Type ℓ} → (A → S → Type κ) → (S → Type κ) → Outcome A × S → Type κ
Holds Q E (ok a, s) = Q a s
Holds Q E (raised, s) = E s

-- From a state in `P` the action returns within `Q` or raises within `E`.
pub record Ensures {ℓ κ} {S A : Type ℓ} (P : S → Type κ) (m : Exec S A) (Q : A → S → Type κ)
    (E : S → Type κ) : Type (ℓ ⊔ κ) where
  pub at : (s : S) → P s → Holds Q E (m s)

module _ {ℓ κ} {S A : Type ℓ} {P E : S → Type κ} {Q : A → S → Type κ} where
  pub Ensures-pure : (a : A) → ((s : S) → P s → Q a s) → Ensures P (pure a) Q E
  Ensures-pure a h = record { at = h }

  pub Ensures-modify :
      (f : S → S) (a : A) → ((s : S) → P s → Q a (f s)) → Ensures P (modify f a) Q E
  Ensures-modify f a h = record { at = h }

module _ {ℓ κ} {S A : Type ℓ} {E E' : S → Type κ} {Q : A → S → Type κ} where
  Holds-recover :
      (r : Outcome A × S) (h : Exec S A)
      → Holds Q E' r
      → Ensures E' h Q E
      → Holds Q E (recover r.0 h r.1)
  Holds-recover (ok a, s) h q e = q
  Holds-recover (raised, s) h q e = e.at s q

  pub Ensures-try :
      {P : S → Type κ} (m h : Exec S A)
      → Ensures P m Q E'
      → Ensures E' h Q E
      → Ensures P (try m h) Q E
  Ensures-try m h em eh = record { at = λ s p. Holds-recover (m s) h (em.at s p) eh }

module _ {ℓ κ} {S A B : Type ℓ} {E : S → Type κ} {Q : A → S → Type κ} {Q' : B → S → Type κ} where
  pub Holds-continue :
      (r : Outcome A × S) (f : A → Exec S B)
      → Holds Q E r
      → ((a : A) → Ensures (Q a) (f a) Q' E)
      → Holds Q' E (continue r.0 f r.1)
  Holds-continue (ok a, s) f q ef = (ef a).at s q
  Holds-continue (raised, s) f q ef = q

  pub Ensures-bind :
      {P : S → Type κ} (m : Exec S A) (f : A → Exec S B)
      → Ensures P m Q E
      → ((a : A) → Ensures (Q a) (f a) Q' E)
      → Ensures P (m >>= f) Q' E
  Ensures-bind m f em ef = record { at = λ s p. Holds-continue (m s) f (em.at s p) ef }
