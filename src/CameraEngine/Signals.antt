-- ===== src/CameraEngine/Signals.antt =====
-- Which crop _pick_best_signals chooses.
use lum_model_face_recogniti.Base.{
  ℕ, ◌≡◌, ◌⊎◌, true, none, some, [], ◌∷◌, refl, inl, inr, both, conj,
}
use lum_model_face_recogniti.CameraEngine.Images.{CropData, History}
use lum_model_face_recogniti.CameraEngine.Choice.{
  orientation, Signals, no_signals, Best, pick_one, pick_all, signals_or, pick_best_signals,
}
use lum_model_face_recogniti.CameraEngine.Largest.{
  Condition, clears, any_orientation, bounded_by, fails, all_bounded, all_fail, Among, IsLargest,
  AreChoices, AreChoices-pick_one,
}

-- The crops that the loop has seen in the end, the last first.
abbrev onto : History → History → History
onto [] seen = seen
onto (x ∷ h) seen = onto h (x ∷ seen)

AreChoices-pick_all :
    (fr_min pi_min : ℕ) (h : History) (b : Best × Best) (seen : History)
    → AreChoices fr_min pi_min b seen
    → AreChoices fr_min pi_min (pick_all fr_min pi_min h b) (onto h seen)
AreChoices-pick_all fr_min pi_min [] b seen c = c
AreChoices-pick_all fr_min pi_min ((k, d) ∷ h) b seen c =
    AreChoices-pick_all fr_min pi_min h (pick_one fr_min pi_min d b) ((k, d) ∷ seen)
      (AreChoices-pick_one fr_min pi_min k d (orientation d) b seen refl c)

Among-onto : (d : CropData) (h seen : History) → Among d (onto h seen) → Among d h ⊎ Among d seen
Among-onto d [] seen a = inr a
Among-onto d ((k, x) ∷ h) seen a = elim (Among-onto d h ((k, x) ∷ seen) a) [
  | inl b ↦ inl (inr b)
  | inr (inl b) ↦ inl (inl b)
  | inr (inr b) ↦ inr b
]

all_bounded-onto :
    (p : Condition) (n : ℕ) (h seen : History)
    → all_bounded p n (onto h seen) ≡ true
    → (all_bounded p n h ≡ true) × (all_bounded p n seen ≡ true)
all_bounded-onto p n [] seen q = (refl, q)
all_bounded-onto p n ((k, d) ∷ h) seen q =
    let r = all_bounded-onto p n h ((k, d) ∷ seen) q in
    let b = both (bounded_by p n (orientation d)) (all_bounded p n seen) r.1 in
    (conj (bounded_by p n (orientation d)) (all_bounded p n h) b.0 r.0, b.1)

all_fail-onto :
    (p : Condition) (h seen : History)
    → all_fail p (onto h seen) ≡ true
    → (all_fail p h ≡ true) × (all_fail p seen ≡ true)
all_fail-onto p [] seen q = (refl, q)
all_fail-onto p ((k, d) ∷ h) seen q =
    let r = all_fail-onto p h ((k, d) ∷ seen) q in
    let b = both (fails p (orientation d)) (all_fail p seen) r.1 in
    (conj (fails p (orientation d)) (all_fail p h) b.0 r.0, b.1)

IsLargest-onto :
    (p : Condition) (n : ℕ) (s : Signals) (h : History)
    → IsLargest p n s (onto h [])
    → IsLargest p n s h
IsLargest-onto p n s h i = record {
  crop = i.crop;
  angles = i.angles;
  oriented = i.oriented;
  meets = i.meets;
  value = i.value;
  signals = i.signals;
  among = elim (Among-onto i.crop h [] i.among) [ inl a ↦ a | inr a ↦ elim a [ ] ];
  largest = (all_bounded-onto p n h [] i.largest).0;
}

-- What `signals_or` makes of the two choices.
abbrev pub IsBest : ℕ → ℕ → Signals → History → Type 0
IsBest fr_min pi_min s h =
    ((n : ℕ) × IsLargest (clears fr_min pi_min) n s h)
    ⊎ (((all_fail (clears fr_min pi_min) h ≡ true) × (n : ℕ) × IsLargest any_orientation n s h)
        ⊎ ((all_fail any_orientation h ≡ true) × (s ≡ no_signals)))

IsBest-signals_or :
    (fr_min pi_min : ℕ) (pass any : Best) (h : History)
    → AreChoices fr_min pi_min (pass, any) (onto h [])
    → IsBest fr_min pi_min (signals_or pass any) h
IsBest-signals_or fr_min pi_min (some (n, s)) any h c =
    inl (n, IsLargest-onto (clears fr_min pi_min) n s h c.0)
IsBest-signals_or fr_min pi_min none (some (n, s)) h c = inr (
    inl (
      (all_fail-onto (clears fr_min pi_min) h [] c.0).0,
      n,
      IsLargest-onto any_orientation n s h c.1,
    ))
IsBest-signals_or fr_min pi_min none none h c =
    inr (inr ((all_fail-onto any_orientation h [] c.1).0, refl))

-- The signals of a person who was not recognised are those of a crop that clears both thresholds, with
-- the largest product of frontality and pitch among all that do; where none does, of a crop with the
-- largest product of all; and zero where no crop has an orientation.
pub pick_best_signals-IsBest :
    (fr_min pi_min : ℕ) (h : History) → IsBest fr_min pi_min (pick_best_signals fr_min pi_min h) h
unfolding pick_best_signals
pick_best_signals-IsBest fr_min pi_min h =
    let b = pick_all fr_min pi_min h (none, none) in
    IsBest-signals_or fr_min pi_min b.0 b.1 h
      (AreChoices-pick_all fr_min pi_min h (none, none) [] (refl, refl))
