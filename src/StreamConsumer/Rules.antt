-- ===== src/StreamConsumer/Rules.antt =====
-- One rule for each way to build an action, for what it hands over and which keys it marks.
use lum_model_face_recogniti.Base.{
  append_nil, append_assoc, ◌≡◌, ◌++◌, Option, none, some, List, [], String, refl, ap, sym, ◌∙◌,
  subst,
}
use lum_model_face_recogniti.Exec.{Outcome, ok, raised, Exec, pure, ◌>>◌, try, continue}
use lum_model_face_recogniti.StreamConsumer.{Parsed, Task, Outside, Consumer, delay_task}
use lum_model_face_recogniti.StreamConsumer.Commands.{Answering, recover_tt, to_list}

module _ {E : Type 0} {O : Outside E} {c : Consumer} (A : Answering O c) where
  -- Nothing is handed over, and no key is marked.
  abbrev pub Quiet : Exec E (Unit {0}) → Type 0
  Quiet m =
      (e : E) → (A.dispatched (m e).1 ≡ A.dispatched e) × (A.processed (m e).1 ≡ A.processed e)

  -- The action returns; it hands `tasks` over and marks `keys`.
  abbrev pub Does : Exec E (Unit {0}) → List Task → List String → Type 0
  Does m tasks keys =
      (e : E)
      → ((m e).0 ≡ ok tt)
        × (A.dispatched (m e).1 ≡ A.dispatched e ++ tasks)
        × (A.processed (m e).1 ≡ keys ++ A.processed e)

  pub Does-pure : Does (pure tt) [] []
  Does-pure e = (refl, sym (append_nil (A.dispatched e)), refl)

  Quiet-continue :
      (o : Outcome (Unit {0})) (n : Exec E (Unit {0})) (s e : E)
      → Quiet n
      → (A.dispatched s ≡ A.dispatched e) × (A.processed s ≡ A.processed e)
      → let r = continue o (λ _. n) s in
        (A.dispatched r.1 ≡ A.dispatched e) × (A.processed r.1 ≡ A.processed e)
  Quiet-continue (ok u) n s e q f = ((q s).0 ∙ f.0, (q s).1 ∙ f.1)
  Quiet-continue raised n s e q f = f

  pub Quiet-seq : (m n : Exec E (Unit {0})) → Quiet m → Quiet n → Quiet (m >> n)
  Quiet-seq m n p q e = Quiet-continue (m e).0 n (m e).1 e q (p e)

  pub Does-try-Quiet : (m : Exec E (Unit {0})) → Quiet m → Does (try m (pure tt)) [] []
  Does-try-Quiet m q e =
      rw (recover_tt (m e).0 (m e).1) (refl, (q e).0 ∙ sym (append_nil (A.dispatched e)), (q e).1)

  pub Does-try :
      (m : Exec E (Unit {0})) (ts : List Task) (ks : List String)
      → Does m ts ks
      → Does (try m (pure tt)) ts ks
  Does-try m ts ks d e = rw (recover_tt (m e).0 (m e).1) (refl, (d e).1, (d e).2)

  pub Does-seq :
      (m n : Exec E (Unit {0})) (ts us : List Task) (ks ls : List String)
      → Does m ts ks
      → Does n us ls
      → Does (m >> n) (ts ++ us) (ls ++ ks)
  Does-seq m n ts us ks ls d f e =
      let s = (m e).1 in
      let path : (m >> n) e ≡ n s = ap (λ r. continue r (λ _. n) s) (d e).0 in
      subst
        (λ r.
          (r.0 ≡ ok tt)
          × (A.dispatched r.1 ≡ A.dispatched e ++ (ts ++ us))
          × (A.processed r.1 ≡ (ls ++ ks) ++ A.processed e))
        (sym path)
        (
          (f s).0,
          (f s).1 ∙ ap (λ l. l ++ us) (d e).1 ∙ append_assoc (A.dispatched e) ts us,
          (f s).2 ∙ ap (λ l. ls ++ l) (d e).2 ∙ sym (append_assoc ls ks (A.processed e)),
        )

  pub Does-delay :
      (parse : String → Parsed) (t : Option Task) → Does (delay_task parse O c t) (to_list t) []
  Does-delay parse none = Does-pure
  Does-delay parse (some t) = A.delay_lem t
