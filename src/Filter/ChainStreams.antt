-- ===== src/Filter/ChainStreams.antt =====
-- Filters that neither fail nor block, one after the other: what a chain of them puts out.
use lucid_gate.Prelude.{
  ℕ, zero, suc, ◌≡◌, Option, none, some, List, [], ◌∷◌, ◌++◌, Bytes, length, arith, refl, sym,
  subst, ap, ◌∙◌, append_assoc, append-nil,
}
use lucid_gate.Filter.InjectionStream.{concat}
use lucid_gate.Filter.Chain.{
  passed, FilterEngine, chain_engine, process_all, pass_on, flush_from, flush_all, after_output,
  last_output, deliver,
}
use lucid_gate.Filter.ChainPasses.{
  Effect, Composed, AllStream, Passes, process_all-Passes, pass_on-Passes, the_tail,
}

module _ {F : Type 0} (e : FilterEngine F) where
  -- The flush of the filters puts out what their effects leave of nothing more.
  abbrev Flushes : ℕ → List F → List Effect → Bytes → Type 0
  Flushes n fs Rs acc =
      (out : Bytes) × ((flush_from e n fs acc).1 ≡ some (acc ++ out)) × Composed Rs [] out

  flush_from-none :
      (n : ℕ) (f : F) (fs : List F) (acc : Bytes)
      → e.flush f ≡ none
      → (flush_from e (suc n) (f ∷ fs) acc).1 ≡ (flush_from e n fs acc).1
  unfolding flush_from
  flush_from-none n f fs acc h = rw (h, flush_from) refl

  flush_from-empty :
      (n : ℕ) (f g : F) (fs : List F) (acc : Bytes)
      → e.flush f ≡ some (g, some [])
      → (flush_from e (suc n) (f ∷ fs) acc).1 ≡ (flush_from e n fs acc).1
  unfolding flush_from
  flush_from-empty n f g fs acc h = rw (h, flush_from) refl

  flush_from-passed :
      (n : ℕ) (f g : F) (fs : List F) (acc : Bytes) (c : ℕ) (s out : Bytes)
      → e.flush f ≡ some (g, some (c ∷ s))
      → (pass_on e fs (c ∷ s)).1 ≡ passed out
      → (flush_from e (suc n) (f ∷ fs) acc).1
        ≡ (flush_from e n (pass_on e fs (c ∷ s)).0 (acc ++ out)).1
  unfolding flush_from
  flush_from-passed n f g fs acc c s out h k = rw (h, k, flush_from) refl

  Flushes-skip :
      (n : ℕ) (f : F) (fs : List F) (R : Effect) (Rs : List Effect) (acc : Bytes)
      → (flush_from e (suc n) (f ∷ fs) acc).1 ≡ (flush_from e n fs acc).1
      → R [] []
      → Flushes n fs Rs acc
      → Flushes (suc n) (f ∷ fs) (R ∷ Rs) acc
  Flushes-skip n f fs R Rs acc h r (out, eq, q) = (out, h ∙ eq, ([], r, q))

  -- What the filters downstream make of a tail, and then their own flush.
  Flushes-tail :
      (n : ℕ) (f g : F) (fs : List F) (R : Effect) (Rs : List Effect) (acc : Bytes) (c : ℕ)
      (s : Bytes)
      → e.flush f ≡ some (g, some (c ∷ s))
      → R [] (c ∷ s)
      → Passes e fs Rs (c ∷ s) (pass_on e fs (c ∷ s))
      → ((Ss : List Effect) (out : Bytes)
          → AllStream e (pass_on e fs (c ∷ s)).0 Ss
          → length (pass_on e fs (c ∷ s)).0 ≡ length fs
          → Flushes n (pass_on e fs (c ∷ s)).0 Ss (acc ++ out))
      → Flushes (suc n) (f ∷ fs) (R ∷ Rs) acc
  Flushes-tail n f g fs R Rs acc c s h r (out, Ss, given, len, st, k) next =
      let (more, eq, q) = next Ss out st len in
      (
        out ++ more,
        flush_from-passed n f g fs acc c s out h given
            ∙ eq
            ∙ ap (λ x. some x) (append_assoc acc out more),
        (c ∷ s, r, subst (λ x. Composed Rs x (out ++ more)) (append-nil (c ∷ s)) (k [] more q)),
      )

  -- `rest` is the flush of as many filters.
  Flushes-cons :
      (n : ℕ) (f : F) (fs : List F) (R : Effect) (Rs : List Effect) (acc : Bytes)
      → length fs ≡ n
      → AllStream e fs Rs
      → ((gs : List F) (Ss : List Effect) (more : Bytes)
          → length gs ≡ n
          → AllStream e gs Ss
          → Flushes n gs Ss more)
      → (o : Option (F × Option Bytes)) → e.flush f ≡ o
      → (tail : Bytes) → last_output o ≡ passed tail
      → R [] tail
      → Flushes (suc n) (f ∷ fs) (R ∷ Rs) acc
  Flushes-cons n f fs R Rs acc len a rest none eq tail h r =
      Flushes-skip n f fs R Rs acc (flush_from-none n f fs acc eq)
        (subst (R []) (the_tail [] tail h) r) (rest fs Rs acc len a)
  Flushes-cons n f fs R Rs acc len a rest (some (g, none)) eq tail h r = absurd (cc)
  Flushes-cons n f fs R Rs acc len a rest (some (g, some [])) eq tail h r =
      Flushes-skip n f fs R Rs acc (flush_from-empty n f g fs acc eq)
        (subst (R []) (the_tail [] tail h) r) (rest fs Rs acc len a)
  Flushes-cons n f fs R Rs acc len a rest (some (g, some (c ∷ s))) eq tail h r =
      Flushes-tail n f g fs R Rs acc c s eq (subst (R []) (the_tail (c ∷ s) tail h) r)
        (pass_on-Passes e fs Rs (c ∷ s) a) λ Ss out st l. rest _ Ss (acc ++ out) (l ∙ len) st

  deliver-flush : (f : F) → deliver e f [] ≡ last_output (e.flush f)
  unfolding deliver
  deliver-flush f = refl

  flush_from-Flushes :
      (n : ℕ) (fs : List F) (Rs : List Effect) (acc : Bytes)
      → length fs ≡ n
      → AllStream e fs Rs
      → Flushes n fs Rs acc
  unfolding flush_from
  flush_from-Flushes n [] (R ∷ Rs) acc len a = elim a [ ]
  flush_from-Flushes n (f ∷ fs) [] acc len a = elim a [ ]
  flush_from-Flushes zero [] [] acc len a = ([], ap (λ x. some x) (sym (append-nil acc)), refl)
  flush_from-Flushes (suc n) [] [] acc len a = absurd (omega arith)
  flush_from-Flushes zero (f ∷ fs) (R ∷ Rs) acc len a = absurd (omega arith)
  flush_from-Flushes (suc n) (f ∷ fs) (R ∷ Rs) acc len a =
      let (tail, h, r) = a.0 [] in
      Flushes-cons n f fs R Rs acc (omega arith) a.1 (flush_from-Flushes n) (e.flush f) refl tail
        (sym (deliver-flush f) ∙ h) r

  chain-after :
      (fs : List F) (c out : Bytes) (cs : List Bytes)
      → (process_all e fs c).1 ≡ passed out
      → deliver (chain_engine e) fs (c ∷ cs)
        ≡ after_output out (deliver (chain_engine e) (process_all e fs c).0 cs)
  unfolding deliver
  chain-after fs c out cs h = rw (h, deliver) refl

  chain-flush :
      (fs : List F) (out : Bytes)
      → (flush_from e (length fs) fs []).1 ≡ some out
      → deliver (chain_engine e) fs [] ≡ passed out
  unfolding deliver flush_all
  chain-flush fs out h = rw (h, flush_all) refl

  chain-Passes :
      (fs : List F) (Rs : List Effect) (c : Bytes) (cs : List Bytes)
      → Passes e fs Rs c (process_all e fs c)
      → ((Ss : List Effect)
          → AllStream e (process_all e fs c).0 Ss
          → (t : Bytes) × (deliver (chain_engine e) (process_all e fs c).0 cs ≡ passed t)
            × Composed Ss (concat cs) t)
      → (t : Bytes) × (deliver (chain_engine e) fs (c ∷ cs) ≡ passed t)
        × Composed Rs (concat (c ∷ cs)) t
  chain-Passes fs Rs c cs (out, Ss, given, len, st, k) next =
      let (t, eq, q) = next Ss st in
      (out ++ t, chain-after fs c out cs given ∙ ap (after_output out) eq, k (concat cs) t q)

  -- If each filter of a chain neither fails nor blocks, and has its effect on a response however it is cut,
  -- then the chain neither fails nor blocks, and its output is what the effects make of the
  -- response one after the other, in the order of the filters and however the response is cut.
  pub deliver-chain_engine :
      (fs : List F) (Rs : List Effect) (cs : List Bytes)
      → AllStream e fs Rs
      → (out : Bytes) × (deliver (chain_engine e) fs cs ≡ passed out) × Composed Rs (concat cs) out
  deliver-chain_engine fs Rs [] a =
      let (out, eq, q) = flush_from-Flushes (length fs) fs Rs [] refl a in
      (out, chain-flush fs out eq, q)
  deliver-chain_engine fs Rs (c ∷ cs) a =
      chain-Passes fs Rs c cs (process_all-Passes e fs Rs c a)
        λ Ss st. deliver-chain_engine (process_all e fs c).0 Ss cs st
