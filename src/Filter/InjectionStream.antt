-- ===== src/Filter/InjectionStream.antt =====
-- However the page is cut into chunks, the stream is the page with the banner put in once.
use lucid_gate.Prelude.{
  ℕ, ◌+◌, ◌-◌, ◌≤◌, ◌<◌, ◌≡◌, inl, inr, true, false, none, some, List, [], ◌∷◌, ◌++◌, Bytes, length,
  take, drop, arith, refl, sym, ap, ◌∙◌, append_assoc, append-nil, length-append, length-drop,
  take-append-drop, take-append_left, drop-append_left, Bool-cases, Option-cases,
}
use native.Mathlib.Decide.{dec_lt}
use lucid_gate.Text.{is_empty}
use lucid_gate.Filter.Fold.{matches_at, matches_at-append, matches_at-le}
use lucid_gate.Filter.Injection.{
  InjectionStream, needle, find_needle, banner_at, inject_pending, emit_pending, process_chunk,
  flush, new_filter, run,
}

-- The page with the banner in front of its first closing body tag, if it has one.
abbrev pub inject_page : Bytes → Bytes → Bytes
inject_page banner s = elim (find_needle s) [ none ↦ s | some i ↦ banner_at banner i s ]

abbrev pub concat : List Bytes → Bytes
concat [] = []
concat (c ∷ cs) = c ++ concat cs

find_needle-fits : (s : Bytes) (i : ℕ) → find_needle s ≡ some i → i + 7 ≤ length s
unfolding find_needle
find_needle-fits [] i e = absurd (cc)
find_needle-fits (c ∷ s) i e = elim (Bool-cases (matches_at needle (c ∷ s))) [
  | inl hit ↦ ground (arith, matches_at-le needle (c ∷ s) hit)
  | inr miss ↦ elim (Option-cases (find_needle s)) [
    | inl n ↦ absurd (ground arith)
    | inr (j, f) ↦ ground (arith, find_needle-fits s j f)
  ]
]

-- A match stays the first one when more bytes follow.
find_needle-append : (s t : Bytes) (i : ℕ) → find_needle s ≡ some i → find_needle (s ++ t) ≡ some i
unfolding find_needle
find_needle-append [] t i e = absurd (cc)
find_needle-append (c ∷ s) t i e = elim (Bool-cases (matches_at needle (c ∷ s))) [
  | inl hit ↦ ground (arith, matches_at-append needle (c ∷ s) t (matches_at-le needle (c ∷ s) hit))
  | inr miss ↦ elim (Option-cases (find_needle s)) [
    | inl n ↦ absurd (ground arith)
    | inr (j, f) ↦
        let fits = find_needle-fits s j f in
        ground (arith, matches_at-append needle (c ∷ s) t (omega arith), find_needle-append s t j f)
  ]
]

inject_page_at : (u s : Bytes) (i : ℕ) → find_needle s ≡ some i → inject_page u s ≡ banner_at u i s
inject_page_at u s i e = ground arith

inject_page-none : (u s : Bytes) → find_needle s ≡ none → inject_page u s ≡ s
inject_page-none u s e = ground arith

inject_page-append :
    (u s t : Bytes) (i : ℕ) → find_needle s ≡ some i → inject_page u (s ++ t) ≡ banner_at u i s ++ t
inject_page-append u s t i e =
    let fits = find_needle-fits s i e in
    inject_page_at u (s ++ t) i (find_needle-append s t i e)
    ∙ rw (take-append_left i s t (omega arith), drop-append_left i s t (omega arith))
        (sym (append_assoc (take i s ++ u) (drop i s) t))

inject_page-step :
    (u s : Bytes) (c : ℕ)
    → matches_at needle (c ∷ s) ≡ false
    → inject_page u (c ∷ s) ≡ c ∷ inject_page u s
unfolding find_needle
inject_page-step u s c miss = ground arith

find_needle-none :
    (c : ℕ) (s : Bytes)
    → find_needle (c ∷ s) ≡ none
    → (matches_at needle (c ∷ s) ≡ false) × (find_needle s ≡ none)
unfolding find_needle
find_needle-none c s e = ground arith

-- Bytes that a needle's length of pending bytes follow cannot begin a match any more.
inject_page-skip :
    (u s t rest : Bytes)
    → length t ≡ 6
    → find_needle (s ++ t) ≡ none
    → inject_page u (s ++ (t ++ rest)) ≡ s ++ inject_page u (t ++ rest)
inject_page-skip u [] t rest h e = refl
inject_page-skip u (c ∷ s) t rest h e =
    let (miss, later) = find_needle-none c (s ++ t) e in
    let here = matches_at-append needle (c ∷ (s ++ t)) rest (omega (arith, length-append s t)) in
    let same = ap (λ r. matches_at needle (c ∷ r)) (append_assoc s t rest) in
    inject_page-step u (s ++ (t ++ rest)) c (sym same ∙ here ∙ miss)
    ∙ ap (◌∷◌ c) (inject_page-skip u s t rest h later)

find_needle-suffix : (s t : Bytes) → find_needle (s ++ t) ≡ none → find_needle t ≡ none
find_needle-suffix [] t e = e
find_needle-suffix (c ∷ s) t e = find_needle-suffix s t (find_needle-none c (s ++ t) e).1

-- The four outcomes of a chunk.
module _ (f : InjectionStream) (c : Bytes) where
  abbrev seen : Bytes
  seen = f.pending ++ c

  chunk-empty : is_empty c ≡ true → process_chunk f c ≡ (f, c)
  unfolding process_chunk
  chunk-empty e = elim (Bool-cases (is_empty f.banner)) [
    | inl b ↦ rw b refl
    | inr b ↦ rw (b, e) refl
  ]

  module _ (b : is_empty f.banner ≡ false) (e : is_empty c ≡ false) (i : f.injected ≡ false) where
    chunk-found :
        (k : ℕ)
        → find_needle seen ≡ some k
        → process_chunk f c
          ≡ (record f { pending = []; injected = true }, banner_at f.banner k seen)
    unfolding process_chunk inject_pending
    chunk-found k h = ground arith

    chunk-held :
        find_needle seen ≡ none
        → length seen ≤ 6
        → process_chunk f c ≡ (record f { pending = seen }, [])
    unfolding process_chunk inject_pending emit_pending
    chunk-held h q = ground arith

    chunk-emitted :
        find_needle seen ≡ none
        → 6 < length seen
        → process_chunk f c
          ≡ (record f { pending = drop (length seen - 6) seen }, take (length seen - 6) seen)
    unfolding process_chunk inject_pending emit_pending
    chunk-emitted h q = ground arith

run-injected :
    (cs : List Bytes) (f : InjectionStream)
    → f.injected ≡ true
    → f.pending ≡ []
    → run f cs ≡ concat cs
unfolding run flush process_chunk
run-injected [] f i p = p
run-injected (c ∷ cs) f i p = ground (arith, run-injected cs f i p)

run-cons :
    (f g : InjectionStream) (c out : Bytes) (cs : List Bytes)
    → process_chunk f c ≡ (g, out)
    → run f (c ∷ cs) ≡ out ++ run g cs
unfolding run
run-cons f g c out cs e = ap (λ r. r.1 ++ run r.0 cs) e

is_empty-eq : (s : Bytes) → is_empty s ≡ true → s ≡ []
unfolding is_empty
is_empty-eq [] h = refl
is_empty-eq (c ∷ s) h = cc

-- What a stream that is still searching will put out.
run-searching :
    (cs : List Bytes) (f : InjectionStream)
    → is_empty f.banner ≡ false
    → f.injected ≡ false
    → find_needle f.pending ≡ none
    → run f cs ≡ inject_page f.banner (f.pending ++ concat cs)
run-searching [] f b i n =
    unfold run flush in rw (append-nil f.pending) (sym (inject_page-none f.banner f.pending n))
run-searching (c ∷ cs) f b i n = elim (Bool-cases (is_empty c)) [
  | inl blank ↦
      run-cons f f c c cs (chunk-empty f c blank)
      ∙ rw (is_empty-eq c blank) (run-searching cs f b i n)
  | inr e ↦ regroup (elim (Option-cases (find_needle (seen f c))) [
    | inr (k, found) ↦
        run-cons f _ c _ cs (chunk-found f c b e i k found)
        ∙ ap (◌++◌ (banner_at f.banner k (seen f c))) (run-injected cs _ refl refl)
        ∙ sym (inject_page-append f.banner (seen f c) (concat cs) k found)
    | inl missing ↦ elim (dec_lt 6 (length (seen f c))) [
      | no few ↦
          run-cons f _ c _ cs (chunk-held f c b e i missing (omega arith))
          ∙ run-searching cs (record f { pending = seen f c }) b i missing
      | yes many ↦
          let k = length (seen f c) - 6 in
          let parts = take-append-drop k (seen f c) in
          run-cons f _ c _ cs (chunk-emitted f c b e i missing many)
          ∙ ap (◌++◌ (take k (seen f c))) (
              run-searching cs (record f { pending = drop k (seen f c) }) b i
                (find_needle-suffix (take k (seen f c)) (drop k (seen f c))
                  (ap find_needle parts ∙ missing)))
          ∙ sym (
              inject_page-skip f.banner (take k (seen f c)) (drop k (seen f c)) (concat cs)
                (omega (arith, length-drop k (seen f c))) (ap find_needle parts ∙ missing))
          ∙ ap (inject_page f.banner) (
              sym (append_assoc (take k (seen f c)) (drop k (seen f c)) (concat cs))
              ∙ ap (λ s. s ++ concat cs) parts)
    ]
  ])
]
  where
    regroup :
        run f (c ∷ cs) ≡ inject_page f.banner (seen f c ++ concat cs)
        → run f (c ∷ cs) ≡ inject_page f.banner (f.pending ++ concat (c ∷ cs))
    regroup p = p ∙ ap (inject_page f.banner) (append_assoc f.pending c (concat cs))

-- With a banner, the chunks and the flush put out the page with the banner in front of its first
-- closing body tag, and the page as it is if it has none, wherever the page is cut.
pub run-new_filter :
    (banner : Bytes) (cs : List Bytes)
    → is_empty banner ≡ false
    → run (new_filter banner) cs ≡ inject_page banner (concat cs)
unfolding new_filter
run-new_filter banner cs b =
    run-searching cs (new_filter banner) b refl (unfold find_needle in refl)
