-- ===== src/Filter/ChainPasses.antt =====
-- A chunk that goes through filters which neither fail nor block.
use lucid_gate.Prelude.{
  suc, ◌≡◌, inl, inr, true, false, List, [], ◌∷◌, ◌++◌, Bytes, length, refl, sym, subst, ap, ◌∙◌,
  Bool-cases,
}
use lucid_gate.Text.{is_empty}
use lucid_gate.Filter.InjectionStream.{concat}
use lucid_gate.Filter.Chain.{
  Answer, refused, passed, stopped, FilterEngine, process_all, pass_on, after_output, answered,
  deliver,
}

-- What goes in, and what comes out.
abbrev pub Effect : Type 1
Effect = Bytes → Bytes → Type 0

is_empty-nil : (s : Bytes) → is_empty s ≡ true → s ≡ []
unfolding is_empty
is_empty-nil [] h = refl
is_empty-nil (c ∷ s) h = absurd (cc)

after_output-passed :
    (out : Bytes) (a : Answer) (t : Bytes)
    → after_output out a ≡ passed t
    → (s : Bytes) × (a ≡ passed s) × (out ++ s ≡ t)
after_output-passed out refused t h = absurd (cc)
after_output-passed out (stopped s) t h = absurd (cc)
after_output-passed out (passed s) t h = (s, refl, cc)

pub the_tail : (s t : Bytes) → passed s ≡ passed t → t ≡ s
the_tail s t h = cc

answer-passed :
    (a : Answer) (k : Bytes → Answer) (t : Bytes)
    → answered a k ≡ passed t
    → (out : Bytes) × (a ≡ passed out)
answer-passed refused k t h = absurd (cc)
answer-passed (stopped s) k t h = absurd (cc)
answer-passed (passed s) k t h = (s, refl)

-- One effect after the other.
abbrev pub Composed : List Effect → Effect
Composed [] s t = s ≡ t
Composed (R ∷ Rs) s t = (m : Bytes) × R s m × Composed Rs m t

module _ {F : Type 0} (e : FilterEngine F) where
  -- However a response is cut, the filter neither fails nor blocks, and has the effect on it.
  abbrev pub Streams : F → Effect → Type 0
  Streams f R =
      (cs : List Bytes) → (out : Bytes) × (deliver e f cs ≡ passed out) × R (concat cs) out

  abbrev pub AllStream : List F → List Effect → Type 0
  AllStream [] [] = Unit
  AllStream [] (R ∷ Rs) = ⊥
  AllStream (f ∷ fs) [] = ⊥
  AllStream (f ∷ fs) (R ∷ Rs) = Streams f R × AllStream fs Rs

  -- The effect that is left after a chunk and its output.
  abbrev rest_of : Effect → Bytes → Bytes → Effect
  rest_of R c out s t = R (c ++ s) (out ++ t)

  deliver-passed :
      (f : F) (c out : Bytes) (cs : List Bytes)
      → (e.process_chunk f c).1 ≡ passed out
      → deliver e f (c ∷ cs) ≡ after_output out (deliver e (e.process_chunk f c).0 cs)
  unfolding deliver
  deliver-passed f c out cs h = rw (h, deliver) refl

  Streams-left :
      (f : F) (R : Effect) (c out : Bytes)
      → (e.process_chunk f c).1 ≡ passed out
      → Streams f R
      → Streams (e.process_chunk f c).0 (rest_of R c out)
  Streams-left f R c out h a cs =
      let (all, given, related) = a (c ∷ cs) in
      let (t, eq, joined) =
        after_output-passed out (deliver e (e.process_chunk f c).0 cs) all
          (sym (deliver-passed f c out cs h) ∙ given) in
      (t, eq, subst (λ s. R (c ++ concat cs) s) (sym joined) related)

  deliver-next :
      (f : F) (c t : Bytes)
      → deliver e f (c ∷ []) ≡ passed t
      → (out : Bytes) × ((e.process_chunk f c).1 ≡ passed out)
  unfolding deliver
  deliver-next f c t h = answer-passed (e.process_chunk f c).1 _ t h

  -- A chunk passes, and the filter goes on with what is left of its effect.
  Streams-step :
      (f : F) (R : Effect) (c : Bytes)
      → Streams f R
      → (out : Bytes) × ((e.process_chunk f c).1 ≡ passed out)
        × Streams (e.process_chunk f c).0 (rest_of R c out)
  Streams-step f R c a =
      let (all, given, related) = a (c ∷ []) in
      let (out, p) = deliver-next f c all given in (out, p, Streams-left f R c out p a)

  -- A chunk passes the filters, and they go on with what is left of their effects.
  abbrev pub Passes : List F → List Effect → Bytes → List F × Answer → Type 1
  Passes fs Rs c (gs, a) =
      (out : Bytes) × (Ss : List Effect) × (a ≡ passed out)
      × (length gs ≡ length fs)
      × AllStream gs Ss
      × ((x t : Bytes) → Composed Ss x t → Composed Rs (c ++ x) (out ++ t))

  Passes-cons :
      (f : F) (fs : List F) (R : Effect) (Rs : List Effect) (c out : Bytes) (r : List F × Answer)
      → Streams (e.process_chunk f c).0 (rest_of R c out)
      → Passes fs Rs out r
      → Passes (f ∷ fs) (R ∷ Rs) c ((e.process_chunk f c).0 ∷ r.0, r.1)
  Passes-cons f fs R Rs c out (gs, a) s (all, Ss, given, len, st, k) = (
    all,
    rest_of R c out ∷ Ss,
    given,
    ap suc len,
    (s, st),
    λ x t (m, r, q). (out ++ m, r, k m t q),
  )

  process_all-cons :
      (f : F) (fs : List F) (c out : Bytes)
      → (e.process_chunk f c).1 ≡ passed out
      → is_empty out ≡ false
      → process_all e (f ∷ fs) c
        ≡ ((e.process_chunk f c).0 ∷ (process_all e fs out).0, (process_all e fs out).1)
  unfolding process_all
  process_all-cons f fs c out h k = rw (h, k, process_all) refl

  process_all-held :
      (f : F) (fs : List F) (c out : Bytes)
      → (e.process_chunk f c).1 ≡ passed out
      → is_empty out ≡ true
      → process_all e (f ∷ fs) c ≡ ((e.process_chunk f c).0 ∷ fs, passed [])
  unfolding process_all
  process_all-held f fs c out h k = rw (h, k, process_all) refl

  pass_on-cons :
      (f : F) (fs : List F) (c out : Bytes)
      → (e.process_chunk f c).1 ≡ passed out
      → pass_on e (f ∷ fs) c
        ≡ ((e.process_chunk f c).0 ∷ (pass_on e fs out).0, (pass_on e fs out).1)
  unfolding pass_on
  pass_on-cons f fs c out h = rw (h, pass_on) refl

  pub process_all-Passes :
      (fs : List F) (Rs : List Effect) (c : Bytes)
      → AllStream fs Rs
      → Passes fs Rs c (process_all e fs c)
  unfolding process_all
  process_all-Passes [] [] c a = (c, [], refl, refl, tt, λ x t q. ap (λ s. c ++ s) q)
  process_all-Passes [] (R ∷ Rs) c a = elim a [ ]
  process_all-Passes (f ∷ fs) [] c a = elim a [ ]
  process_all-Passes (f ∷ fs) (R ∷ Rs) c a =
      let (out, p, s) = Streams-step f R c a.0 in
      elim (Bool-cases (is_empty out)) [
        | inl blank ↦
            subst (Passes (f ∷ fs) (R ∷ Rs) c) (sym (process_all-held f fs c out p blank)) (
              [],
              rest_of R c out ∷ Rs,
              refl,
              refl,
              (s, a.1),
              λ x t (m, r, q). (out ++ m, r, rw (is_empty-nil out blank) q),
            )
        | inr full ↦ subst (Passes (f ∷ fs) (R ∷ Rs) c) (sym (process_all-cons f fs c out p full)) (
            Passes-cons f fs R Rs c out (process_all e fs out) s (process_all-Passes fs Rs out a.1))
      ]

  pub pass_on-Passes :
      (fs : List F) (Rs : List Effect) (c : Bytes)
      → AllStream fs Rs
      → Passes fs Rs c (pass_on e fs c)
  unfolding pass_on
  pass_on-Passes [] [] c a = (c, [], refl, refl, tt, λ x t q. ap (λ s. c ++ s) q)
  pass_on-Passes [] (R ∷ Rs) c a = elim a [ ]
  pass_on-Passes (f ∷ fs) [] c a = elim a [ ]
  pass_on-Passes (f ∷ fs) (R ∷ Rs) c a =
      let (out, p, s) = Streams-step f R c a.0 in
      subst (Passes (f ∷ fs) (R ∷ Rs) c) (sym (pass_on-cons f fs c out p))
        (Passes-cons f fs R Rs c out (pass_on e fs out) s (pass_on-Passes fs Rs out a.1))
