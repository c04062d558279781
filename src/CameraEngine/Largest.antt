-- ===== src/CameraEngine/Largest.antt =====
-- The crop with the largest product of frontality and pitch, as the loop of _pick_best_signals finds it.
use lum_model_face_recogniti.Base.{
  ℕ, ◌*◌, ◌≡◌, ◌≤◌, ◌&&◌, ◌||◌, ◌⊎◌, not, Bool, true, false, Option, none, some, [], ◌∷◌, leb,
  if◌then◌else◌, arith, refl, sym, ap, subst, ◌∙◌, inl, inr, both, conj, Bool-cases,
}
use lum_model_face_recogniti.CameraEngine.Images.{CropData, History}
use lum_model_face_recogniti.CameraEngine.Choice.{
  orientation, Signals, Best, beats, signals_of, pick_oriented,
}
use lum_model_face_recogniti.CameraEngine.Steps.{some_none}

-- A condition on frontality and pitch, and those of the code.
abbrev pub Condition : Type 0
Condition = ℕ × ℕ → Bool

abbrev pub clears : ℕ → ℕ → Condition
clears fr_min pi_min (fr, pi) = leb fr_min fr && leb pi_min pi

abbrev pub any_orientation : Condition
any_orientation o = true

abbrev pub product : ℕ × ℕ → ℕ
product (fr, pi) = fr * pi

abbrev pub bounded_by : Condition → ℕ → Option (ℕ × ℕ) → Bool
bounded_by p n none = true
bounded_by p n (some o) = not (p o) || leb (product o) n

abbrev pub fails : Condition → Option (ℕ × ℕ) → Bool
fails p none = true
fails p (some o) = not (p o)

-- No crop that meets the condition has a product above `n`; no crop meets the condition.
abbrev pub all_bounded : Condition → ℕ → History → Bool
all_bounded p n [] = true
all_bounded p n ((k, d) ∷ h) = bounded_by p n (orientation d) && all_bounded p n h

abbrev pub all_fail : Condition → History → Bool
all_fail p [] = true
all_fail p ((k, d) ∷ h) = fails p (orientation d) && all_fail p h

abbrev pub Among : CropData → History → Type 0
Among d [] = ⊥
Among d ((k, x) ∷ h) = (x ≡ d) ⊎ Among d h

-- The signals are those of a crop that meets the condition, with the largest product of these.
pub record IsLargest (p : Condition) (n : ℕ) (s : Signals) (h : History) : Type 0 where
  pub crop : CropData
  pub angles : ℕ × ℕ
  pub oriented : orientation crop ≡ some angles
  pub meets : p angles ≡ true
  pub value : n ≡ product angles
  pub signals : s ≡ signals_of crop angles.0 angles.1
  pub among : Among crop h
  pub largest : all_bounded p n h ≡ true

abbrev pub IsChoice : Condition → Best → History → Type 0
IsChoice p none h = all_fail p h ≡ true
IsChoice p (some (n, s)) h = IsLargest p n s h

bounded_by-fails :
    (p : Condition) (n : ℕ) (o : Option (ℕ × ℕ)) → fails p o ≡ true → bounded_by p n o ≡ true
bounded_by-fails p n none q = refl
bounded_by-fails p n (some o) q = ground (arith, q)

bounded_by-le :
    (p : Condition) (n m : ℕ) (o : Option (ℕ × ℕ))
    → n ≤ m
    → bounded_by p n o ≡ true
    → bounded_by p m o ≡ true
bounded_by-le p n m none l q = refl
bounded_by-le p n m (some o) l q = ground (arith, q, l)

all_bounded-fail :
    (p : Condition) (n : ℕ) (h : History) → all_fail p h ≡ true → all_bounded p n h ≡ true
all_bounded-fail p n [] q = refl
all_bounded-fail p n ((k, d) ∷ h) q =
    let b = both (fails p (orientation d)) (all_fail p h) q in
    conj (bounded_by p n (orientation d)) (all_bounded p n h)
      (bounded_by-fails p n (orientation d) b.0) (all_bounded-fail p n h b.1)

all_bounded-le :
    (p : Condition) (n m : ℕ) (h : History)
    → n ≤ m
    → all_bounded p n h ≡ true
    → all_bounded p m h ≡ true
all_bounded-le p n m [] l q = refl
all_bounded-le p n m ((k, d) ∷ h) l q =
    let b = both (bounded_by p n (orientation d)) (all_bounded p n h) q in
    conj (bounded_by p m (orientation d)) (all_bounded p m h)
      (bounded_by-le p n m (orientation d) l b.0) (all_bounded-le p n m h l b.1)

-- A crop takes the place of the best so far where it meets the condition and beats it.
abbrev chosen : Condition → CropData → ℕ × ℕ → Best → Best
chosen p d o b = if p o && beats (product o) b then some (product o, signals_of d o.0 o.1) else b

abbrev pair : Best → Best → Best × Best
pair x y = (x, y)

pick_oriented-chosen :
    (fr_min pi_min : ℕ) (d : CropData) (o : ℕ × ℕ) (pass any : Best)
    → pick_oriented fr_min pi_min d o (pass, any)
      ≡ pair (chosen (clears fr_min pi_min) d o pass) (chosen any_orientation d o any)
pick_oriented-chosen fr_min pi_min d (fr, pi) pass any =
    pick_on (leb fr_min fr) (leb pi_min pi) (beats (fr * pi) pass)
      (some (fr * pi, signals_of d fr pi)) pass
      (if beats (fr * pi) any then some (fr * pi, signals_of d fr pi) else any)
  where
    pick_on :
        (a b c : Bool) (x y z : Best)
        → (if a && (b && c) then pair x z else pair y z) ≡ pair (if (a && b) && c then x else y) z
    pick_on true true true x y z = refl
    pick_on true true false x y z = refl
    pick_on true false c x y z = refl
    pick_on false b c x y z = refl

IsChoice-skip :
    (p : Condition) (k : ℕ) (d : CropData) (b : Best) (h : History)
    → (fails p (orientation d) ≡ true)
    → IsChoice p b h
    → IsChoice p b ((k, d) ∷ h)
IsChoice-skip p k d none h q c = conj (fails p (orientation d)) (all_fail p h) q c
IsChoice-skip p k d (some (n, s)) h q c = record {
  crop = c.crop;
  angles = c.angles;
  oriented = c.oriented;
  meets = c.meets;
  value = c.value;
  signals = c.signals;
  among = inr c.among;
  largest =
      conj (bounded_by p n (orientation d)) (all_bounded p n h)
        (bounded_by-fails p n (orientation d) q) c.largest;
}

-- The crop is the best of all.
IsLargest-new :
    (p : Condition) (k : ℕ) (d : CropData) (o : ℕ × ℕ) (h : History)
    → orientation d ≡ some o
    → p o ≡ true
    → all_bounded p (product o) h ≡ true
    → IsLargest p (product o) (signals_of d o.0 o.1) ((k, d) ∷ h)
IsLargest-new p k d o h q m b = record {
  crop = d;
  angles = o;
  oriented = q;
  meets = m;
  value = refl;
  signals = refl;
  among = inl refl;
  largest =
      conj (bounded_by p (product o) (orientation d)) (all_bounded p (product o) h)
        (ap (bounded_by p (product o)) q ∙ reaches_itself (p o) (product o)) b;
}
  where
    reaches_itself : (b : Bool) (n : ℕ) → (not b || leb n n) ≡ true
    reaches_itself b n = ground arith

IsChoice-beaten :
    (p : Condition) (k : ℕ) (d : CropData) (o : ℕ × ℕ) (b : Best) (h : History)
    → orientation d ≡ some o
    → p o ≡ true
    → (c : Bool) → beats (product o) b ≡ c
    → IsChoice p b h
    → IsChoice p (if c then some (product o, signals_of d o.0 o.1) else b) ((k, d) ∷ h)
IsChoice-beaten p k d o none h q m true e i =
    IsLargest-new p k d o h q m (all_bounded-fail p (product o) h i)
IsChoice-beaten p k d o none h q m false e i = some_none (some true) true refl (ground (arith, e))
IsChoice-beaten p k d o (some (n, s)) h q m true e i =
    IsLargest-new p k d o h q m (all_bounded-le p n (product o) h (ground (arith, e)) i.largest)
IsChoice-beaten p k d o (some (n, s)) h q m false e i = record {
  crop = i.crop;
  angles = i.angles;
  oriented = i.oriented;
  meets = i.meets;
  value = i.value;
  signals = i.signals;
  among = inr i.among;
  largest =
      conj (bounded_by p n (orientation d)) (all_bounded p n h)
        (ap (bounded_by p n) q ∙ ground (arith, e, m)) i.largest;
}

IsChoice-chosen :
    (p : Condition) (k : ℕ) (d : CropData) (o : ℕ × ℕ) (b : Best) (h : History)
    → orientation d ≡ some o
    → IsChoice p b h
    → IsChoice p (chosen p d o b) ((k, d) ∷ h)
IsChoice-chosen p k d o b h q c = elim (Bool-cases (p o)) [
  | inl m ↦ rw m (IsChoice-beaten p k d o b h q m (beats (product o) b) refl c)
  | inr m ↦ rw m (IsChoice-skip p k d b h (ap (fails p) q ∙ ap not m) c)
]

-- Both of the code's choices, among the crops that the loop has seen.
abbrev pub AreChoices : ℕ → ℕ → Best × Best → History → Type 0
AreChoices fr_min pi_min b h =
    IsChoice (clears fr_min pi_min) b.0 h × IsChoice any_orientation b.1 h

pub AreChoices-pick_one :
    (fr_min pi_min k : ℕ) (d : CropData) (o : Option (ℕ × ℕ)) (b : Best × Best) (h : History)
    → orientation d ≡ o
    → AreChoices fr_min pi_min b h
    → AreChoices fr_min pi_min
        (elim o [ none ↦ b | some a ↦ pick_oriented fr_min pi_min d a b ])
        ((k, d) ∷ h)
AreChoices-pick_one fr_min pi_min k d none b h q c = (
  IsChoice-skip (clears fr_min pi_min) k d b.0 h (ap (fails (clears fr_min pi_min)) q) c.0,
  IsChoice-skip any_orientation k d b.1 h (ap (fails any_orientation) q) c.1,
)
AreChoices-pick_one fr_min pi_min k d (some a) b h q c =
    subst (λ x. AreChoices fr_min pi_min x ((k, d) ∷ h))
      (sym (pick_oriented-chosen fr_min pi_min d a b.0 b.1))
      (
        IsChoice-chosen (clears fr_min pi_min) k d a b.0 h q c.0,
        IsChoice-chosen any_orientation k d a b.1 h q c.1,
      )
