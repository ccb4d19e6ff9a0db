-- ===== src/Filter/ContentStreams.antt =====
-- The streams of `ContentFilter.NewFilter`: what the filters of a configuration make of a response together.
use lucid_gate.Prelude.{
  ◌≡◌, inl, inr, Bool, true, false, Option, none, some, List, [], ◌∷◌, ◌++◌, Bytes, arith, refl,
  sym, subst, ap, ◌∙◌, append-nil, Bool-cases, ltb,
}
use lucid_gate.Text.{Unicode}
use lucid_gate.Filter.InjectionStream.{concat}
use lucid_gate.Filter.Magic.{Sniffer}
use lucid_gate.Filter.Masking.{MaskingStream, new_masking_filter}
use lucid_gate.Filter.Masking
use lucid_gate.Filter.Masked.{IsMasked, IsClean}
use lucid_gate.Filter.MaskingStream.{AreMaskable, run-new_masking_filter, run_idle}
use lucid_gate.Semantic.Automaton.{PhraseFilter}
use lucid_gate.Semantic.Stream.{PhraseStream, then_run, put_front, run, process_chunk}
use lucid_gate.Semantic.Stream
use lucid_gate.Semantic.Chunks.{IsOpen, run_prefix}
use lucid_gate.Filter.Chain.{
  passed, FilterEngine, answered, after_output, last_output, deliver, chain_engine,
}
use lucid_gate.Filter.ChainPasses.{Effect, Composed, Streams, AllStream}
use lucid_gate.Filter.ChainStreams.{deliver-chain_engine}
use lucid_gate.Filter.Content.{
  StreamFilter, phrase, masking, stream_engine, ContentFilter, pass_through, single, chain,
  stream_for, content_engine, filters_of, new_filter, process_filter, flush_filter, log_part,
  phrase_answer, process_content, flush_content, single_flush, chain_flush,
}

-- An engine that does with its states what another does with the states under them.
deliver-wrapped :
    {F G : Type 0}
    → (e : FilterEngine F) (d : FilterEngine G) (wrap : F → G)
    → ((f : F) (c : Bytes)
        → d.process_chunk (wrap f) c ≡ (wrap (e.process_chunk f c).0, (e.process_chunk f c).1))
    → ((f : F) → last_output (d.flush (wrap f)) ≡ last_output (e.flush f))
    → (f : F) (cs : List Bytes) → deliver d (wrap f) cs ≡ deliver e f cs
unfolding deliver
deliver-wrapped e d wrap h k f [] = k f
deliver-wrapped e d wrap h k f (c ∷ cs) =
    ap (λ r. answered r.1 (λ out. after_output out (deliver d r.0 cs))) (h f c)
    ∙ ap (λ a. answered (e.process_chunk f c).1 (λ out. after_output out a))
        (deliver-wrapped e d wrap h k (e.process_chunk f c).0 cs)

module _ (m : Sniffer) where
  single-output :
      (o : Option (StreamFilter × Option Bytes)) → last_output (single_flush o) ≡ last_output o
  single-output none = refl
  single-output (some (f, none)) = refl
  single-output (some (f, some s)) = refl

  chain-output :
      (o : Option (List StreamFilter × Option Bytes)) → last_output (chain_flush o) ≡ last_output o
  chain-output none = refl
  chain-output (some (f, none)) = refl
  chain-output (some (f, some s)) = refl

  deliver-single :
      (f : StreamFilter) (cs : List Bytes)
      → deliver (content_engine m) (single f) cs ≡ deliver (stream_engine m) f cs
  unfolding process_content flush_content
  deliver-single =
      deliver-wrapped (stream_engine m) (content_engine m) (λ f. single f) (λ f c. refl)
        λ f. single-output ((stream_engine m).flush f)

  deliver-chain :
      (fs : List StreamFilter) (cs : List Bytes)
      → deliver (content_engine m) (chain fs) cs ≡ deliver (chain_engine (stream_engine m)) fs cs
  unfolding process_content flush_content
  deliver-chain =
      deliver-wrapped (chain_engine (stream_engine m)) (content_engine m) (λ fs. chain fs)
        (λ fs c. refl) λ fs. chain-output ((chain_engine (stream_engine m)).flush fs)

  deliver-pass_through :
      (cs : List Bytes) → deliver (content_engine m) pass_through cs ≡ passed (concat cs)
  unfolding deliver process_content flush_content
  deliver-pass_through [] = refl
  deliver-pass_through (c ∷ cs) = ap (after_output c) (deliver-pass_through cs)

  -- The stream for the filters that were collected: nothing, the one filter, or a chain of them.
  pub stream_for-Composed :
      (fs : List StreamFilter) (Rs : List Effect)
      → AllStream (stream_engine m) fs Rs
      → Streams (content_engine m) (stream_for fs) (Composed Rs)
  stream_for-Composed [] [] a cs = (concat cs, deliver-pass_through cs, refl)
  stream_for-Composed [] (R ∷ Rs) a cs = elim a [ ]
  stream_for-Composed (f ∷ fs) [] a cs = elim a [ ]
  stream_for-Composed (f ∷ []) (R ∷ (S ∷ Rs)) a cs = elim a.1 [ ]
  stream_for-Composed (f ∷ []) (R ∷ []) a cs =
      let (out, eq, r) = a.0 cs in (out, deliver-single f cs ∙ eq, (out, r, refl))
  stream_for-Composed (f ∷ (g ∷ fs)) (R ∷ Rs) a cs =
      let (out, eq, q) = deliver-chain_engine (stream_engine m) (f ∷ (g ∷ fs)) (R ∷ Rs) cs a in
      (out, deliver-chain (f ∷ (g ∷ fs)) cs ∙ eq, q)

  deliver-masking :
      (f : MaskingStream) (cs : List Bytes)
      → deliver (stream_engine m) (masking f) cs ≡ passed (Masking.run f cs)
  unfolding deliver process_filter flush_filter Masking.run
  deliver-masking f [] = refl
  deliver-masking f (c ∷ cs) =
      ap (after_output (Masking.process_chunk f c).1)
        (deliver-masking (Masking.process_chunk f c).0 cs)

-- What a run of one chunk says of the call.
open_answer :
    (c : Bytes) (o : Option (PhraseStream × (Bytes × Bool)))
    → ((g : PhraseStream) → run g [] ≡ some (g, ([], false)))
    → (g : PhraseStream) (out rest : Bytes)
    → then_run o (λ next. run next []) ≡ some (g, (out, false))
    → out ++ rest ≡ c
    → rest ≡ []
    → o ≡ some (g, (c, false))
open_answer c none last g out rest h j k = absurd (cc)
open_answer c (some (f, (s, true))) last g out rest h j k = absurd (cc)
open_answer c (some (f, (s, false))) last g out rest h j k =
    ap (λ x. some (f, (x, false))) (sym (append-nil s))
    ∙ sym (ap (put_front s) (last f))
    ∙ h
    ∙ ap (λ x. some (g, (x, false))) (sym (append-nil out) ∙ ap (λ r. out ++ r) (sym k) ∙ j)

pub process_chunk-IsOpen :
    (f : PhraseStream) (c : Bytes)
    → IsOpen f
    → (g : PhraseStream) × (process_chunk f c ≡ some (g, (c, false))) × IsOpen g
unfolding run
process_chunk-IsOpen f c h =
    let (g, out, blocked, rest, eq, j, k, opened) = run_prefix f (c ∷ []) in
    let (b, o) = opened h in
    (
      g,
      open_answer c (process_chunk f c) (λ g. refl) g out rest (eq ∙ ap (λ b. some (g, (out, b))) b)
          (j ∙ append-nil c) (k b),
      o,
    )

unmoved : Effect
unmoved s t = s ≡ t

abbrev pub masked_by : Unicode → List Bytes → Effect
masked_by u ps s t = IsMasked s t × IsClean (new_masking_filter u ps).phrases t

log_effects : Option PhraseFilter → List Effect
log_effects none = []
log_effects (some g) = unmoved ∷ []

-- A filter for observed phrases and for masked ones.
abbrev pub masks_and_logs : Unicode → Option PhraseFilter → List Bytes → ContentFilter
masks_and_logs u log ps = record {
  semantic = none;
  log_semantic = log;
  masking = some (new_masking_filter u ps);
  magic = none;
  substitution = none;
  html = none;
}

module _ (m : Sniffer) where
  process_filter_open :
      (f g : PhraseStream) (c : Bytes)
      → process_chunk f c ≡ some (g, (c, false))
      → process_filter m (phrase f) c ≡ (phrase g, passed c)
  unfolding process_filter
  process_filter_open f g c h = ap (phrase_answer f) h

  -- A semantic filter that only observes passes the response on as it is.
  deliver_open :
      (f : PhraseStream) (cs : List Bytes)
      → IsOpen f
      → deliver (stream_engine m) (phrase f) cs ≡ passed (concat cs)
  unfolding deliver flush_filter
  deliver_open f [] h = refl
  deliver_open f (c ∷ cs) h =
      let (g, eq, o) = process_chunk-IsOpen f c h in
      ap (λ r. answered r.1 (λ out. after_output out (deliver (stream_engine m) r.0 cs)))
        (process_filter_open f g c eq)
      ∙ ap (after_output c) (deliver_open g cs o)

  log_part-AllStream :
      (log : Option PhraseFilter) (fs : List StreamFilter) (Rs : List Effect)
      → AllStream (stream_engine m) fs Rs
      → AllStream (stream_engine m) (log_part log ++ fs) (log_effects log ++ Rs)
  unfolding log_effects unmoved Stream.new_filter
  log_part-AllStream none fs Rs a = a
  log_part-AllStream (some g) fs Rs a = (λ cs. (concat cs, deliver_open _ cs (inl refl), refl), a)

  log_effects-Composed :
      (log : Option PhraseFilter) (R : List Effect) (s t : Bytes)
      → Composed (log_effects log ++ R) s t
      → Composed R s t
  unfolding log_effects unmoved
  log_effects-Composed none R s t q = q
  log_effects-Composed (some g) R s t (x, e, q) = subst (λ s. Composed R s t) (sym e) q

  pub masking-Streams :
      (u : Unicode) (ps : List Bytes)
      → AreMaskable u ps
      → Streams
          (stream_engine m)
          (masking (Masking.new_filter (new_masking_filter u ps)))
          (masked_by u ps)
  masking-Streams u ps a cs = (_, deliver-masking m _ cs, run-new_masking_filter u ps cs a)

  no_window-masked :
      (u : Unicode) (ps : List Bytes) (cs : List Bytes)
      → AreMaskable u ps
      → (new_masking_filter u ps).max_len ≡ 0
      → masked_by u ps (concat cs) (concat cs)
  unfolding Masking.new_filter
  no_window-masked u ps cs a z =
      let same = run_idle (Masking.new_filter (new_masking_filter u ps)) cs z refl in
      subst (masked_by u ps (concat cs)) same (run-new_masking_filter u ps cs a)

  filters_of-masks :
      (u : Unicode) (log : Option PhraseFilter) (ps : List Bytes)
      → ltb 0 (new_masking_filter u ps).max_len ≡ true
      → filters_of (masks_and_logs u log ps)
        ≡ log_part log ++ masking (Masking.new_filter (new_masking_filter u ps)) ∷ []
  unfolding filters_of
  filters_of-masks u log ps h = rw h (append-nil _)

  filters_of-idle :
      (u : Unicode) (log : Option PhraseFilter) (ps : List Bytes)
      → ltb 0 (new_masking_filter u ps).max_len ≡ false
      → filters_of (masks_and_logs u log ps) ≡ log_part log ++ []
  unfolding filters_of
  filters_of-idle u log ps h = rw h (append-nil _)

  deliver-filters_of :
      (f : ContentFilter) (log : Option PhraseFilter) (fs : List StreamFilter) (Rs : List Effect)
      (cs : List Bytes)
      → filters_of f ≡ log_part log ++ fs
      → AllStream (stream_engine m) fs Rs
      → (out : Bytes) × (deliver (content_engine m) (new_filter f) cs ≡ passed out)
        × Composed Rs (concat cs) out
  unfolding new_filter
  deliver-filters_of f log fs Rs cs e a =
      let (out, eq, q) =
        stream_for-Composed m (log_part log ++ fs) (log_effects log ++ Rs)
          (log_part-AllStream log fs Rs a) cs in
      (
        out,
        ap (λ gs. deliver (content_engine m) (stream_for gs) cs) e ∙ eq,
        log_effects-Composed log Rs (concat cs) out q,
      )

  -- With observed phrases or without, and however a response is cut, the stream of a filter that masks
  -- phrases without asterisks neither fails nor blocks: it puts out the response with some bytes
  -- overwritten by asterisks and all others kept, and none of the masked phrases stands in it.
  pub deliver-new_filter :
      (u : Unicode) (log : Option PhraseFilter) (ps : List Bytes) (cs : List Bytes)
      → AreMaskable u ps
      → (out : Bytes) × (deliver (content_engine m) (new_filter (masks_and_logs u log ps)) cs
          ≡ passed out)
        × IsMasked (concat cs) out
        × IsClean (new_masking_filter u ps).phrases out
  deliver-new_filter u log ps cs a = elim (Bool-cases (ltb 0 (new_masking_filter u ps).max_len)) [
    | inl w ↦
        let (out, eq, (t, r, q)) =
          deliver-filters_of (masks_and_logs u log ps) log _ (masked_by u ps ∷ []) cs
            (filters_of-masks u log ps w) (masking-Streams u ps a, tt) in
        let both = subst (masked_by u ps (concat cs)) q r in (out, eq, both.0, both.1)
    | inr idle ↦
        let (out, eq, q) =
          deliver-filters_of (masks_and_logs u log ps) log [] [] cs (filters_of-idle u log ps idle)
            tt in
        let both =
          subst (masked_by u ps (concat cs)) q (no_window-masked u ps cs a (ground arith)) in
        (out, eq, both.0, both.1)
  ]
