-- ===== src/Semantic/Chunks.antt =====
-- The semantic filter does not depend on where a response is cut, and lets through a prefix of it.
use lucid_gate.Prelude.{
  ℕ, suc, ◌+◌, ◌≤◌, ◌≡◌, ◌⊎◌, inl, inr, Bool, true, false, some, List, [], ◌∷◌, ◌++◌, Bytes, ◌==◌,
  leb, take, length, arith, refl, sym, ap, ◌∙◌, if◌then◌else◌, Bool-cases, Option-cases, ==_iff,
  leb→lt, take-append-drop, drop, append-nil, take-append_left,
}
use lucid_gate.Text.{is_empty}
use lucid_gate.Filter.InjectionStream.{concat}
use lucid_gate.Semantic.Automaton.{PhraseFilter}
use lucid_gate.Semantic.Stream.{
  PhraseStream, match_byte, match_bytes, match_chunk, process_chunk, put_front, then_run, run,
}

-- What the loop gives on `s` and then on `t`.
abbrev resumed :
    PhraseFilter → Bytes → Bytes → ℕ → PhraseStream × (Bool × ℕ) → PhraseStream × (Bool × ℕ)
resumed g s t i (f, (true, n)) = (f, (true, n))
resumed g s t i (f, (false, n)) = match_bytes g f t (i + length s)

resumed_cons :
    (g : PhraseFilter) (b : ℕ) (s t : Bytes) (i : ℕ) (r : PhraseStream × (Bool × ℕ))
    → resumed g s t (suc i) r ≡ resumed g (b ∷ s) t i r
resumed_cons g b s t i (f, (true, n)) = refl
resumed_cons g b s t i (f, (false, n)) = ap (λ k. match_bytes g f t k) (omega arith)

match_bytes-append :
    (g : PhraseFilter) (f : PhraseStream) (s t : Bytes) (i : ℕ)
    → match_bytes g f (s ++ t) i ≡ resumed g s t i (match_bytes g f s i)
unfolding match_bytes
match_bytes-append g f [] t i = ap (λ k. match_bytes g f t k) (omega arith)
match_bytes-append g f (b ∷ s) t i =
    let (next, stop) = match_byte g f b in
    elim (Bool-cases stop) [
      | inl e ↦ rw e refl
      | inr e ↦ rw e (
          match_bytes-append g next s t (suc i)
          ∙ resumed_cons g b s t i (match_bytes g next s (suc i)))
    ]

-- A block comes within the bytes read.
match_bytes_within :
    (g : PhraseFilter) (f : PhraseStream) (s : Bytes) (i : ℕ)
    → (match_bytes g f s i).1.0 ≡ true
    → (i ≤ (match_bytes g f s i).1.1) × ((match_bytes g f s i).1.1 ≤ i + length s)
unfolding match_bytes
match_bytes_within g f [] i h = absurd (cc)
match_bytes_within g f (b ∷ s) i h =
    let (next, stop) = match_byte g f b in
    elim (Bool-cases stop) [
      | inl e ↦ rw e (omega arith, omega arith)
      | inr e ↦
          let r = match_bytes_within g next s (suc i) (ground arith) in
          rw e (omega (arith, r), omega (arith, r))
    ]

compiled-kept :
    (g : PhraseFilter) (f : PhraseStream) (b : ℕ) → (match_byte g f b).0.compiled ≡ f.compiled
unfolding match_byte
compiled-kept g f b = ground arith

compiled-match_bytes :
    (g : PhraseFilter) (f : PhraseStream) (s : Bytes) (i : ℕ)
    → (match_bytes g f s i).0.compiled ≡ f.compiled
unfolding match_bytes
compiled-match_bytes g f [] i = refl
compiled-match_bytes g f (b ∷ s) i =
    let (next, stop) = match_byte g f b in
    elim (Bool-cases stop) [
      | inl e ↦ rw e (compiled-kept g f b)
      | inr e ↦ rw e (compiled-match_bytes g next s (suc i) ∙ compiled-kept g f b)
    ]

-- The count of the bytes read starts where one likes.
match_bytes_shift :
    (g : PhraseFilter) (f : PhraseStream) (s : Bytes) (i : ℕ)
    → match_bytes g f s i
      ≡ ((match_bytes g f s 0).0, ((match_bytes g f s 0).1.0, i + (match_bytes g f s 0).1.1))
unfolding match_bytes
match_bytes_shift g f [] i = ap (λ k. (f, (false, k))) (omega arith)
match_bytes_shift g f (b ∷ s) i =
    let (next, stop) = match_byte g f b in
    let far = match_bytes_shift g next s (suc i) in
    let near = match_bytes_shift g next s 1 in
    elim (Bool-cases stop) [
      | inl e ↦ rw e (ap (λ k. (next, (true, k))) (omega arith))
      | inr e ↦ rw e (ground (arith, far, near))
    ]

-- A chunk that the automaton reads.
abbrev pub cut_at : Bytes → PhraseStream × (Bool × ℕ) → PhraseStream × (Bytes × Bool)
cut_at s (f, (blocked, n)) = (f, (if blocked then take n s else s, blocked))

abbrev pub scan : PhraseFilter → PhraseStream → Bytes → PhraseStream × (Bytes × Bool)
scan g f s = cut_at s (match_bytes g f s 0)

abbrev then_scan :
    PhraseFilter → Bytes → PhraseStream × (Bytes × Bool) → PhraseStream × (Bytes × Bool)
then_scan g t (f, (out, true)) = (f, (out, true))
then_scan g t (f, (out, false)) = ((scan g f t).0, (out ++ (scan g f t).1.0, (scan g f t).1.1))

take-append_right : (s t : Bytes) (n : ℕ) → take (length s + n) (s ++ t) ≡ s ++ take n t
take-append_right [] t n = ap (λ k. take k t) (omega arith)
take-append_right (c ∷ s) t n =
    let e : suc (length s) + n ≡ suc (length s + n) = omega arith in
    ap (λ k. take k (c ∷ (s ++ t))) e ∙ ap (λ r. c ∷ r) (take-append_right s t n)

cut_at-resumed :
    (g : PhraseFilter) (s t : Bytes) (r : PhraseStream × (Bool × ℕ))
    → (r.1.0 ≡ true → r.1.1 ≤ length s)
    → cut_at (s ++ t) (resumed g s t 0 r) ≡ then_scan g t (cut_at s r)
cut_at-resumed g s t (f, (true, n)) h =
    ap (λ out. (f, (out, true))) (take-append_left n s t (h refl))
cut_at-resumed g s t (f, (false, n)) h =
    let start : 0 + length s ≡ length s = omega arith in
    ap (λ k. cut_at (s ++ t) (match_bytes g f t k)) start
    ∙ ap (λ r. cut_at (s ++ t) r) (match_bytes_shift g f t (length s))
    ∙ cut_shift s t (match_bytes g f t 0)
  where
    cut_shift :
        (s t : Bytes) (r : PhraseStream × (Bool × ℕ))
        → cut_at (s ++ t) (r.0, (r.1.0, length s + r.1.1))
          ≡ ((cut_at t r).0, (s ++ (cut_at t r).1.0, (cut_at t r).1.1))
    cut_shift s t (x, (true, n)) = ap (λ out. (x, (out, true))) (take-append_right s t n)
    cut_shift s t (x, (false, n)) = refl

scan-append :
    (g : PhraseFilter) (f : PhraseStream) (s t : Bytes)
    → scan g f (s ++ t) ≡ then_scan g t (scan g f s)
scan-append g f s t =
    ap (λ r. cut_at (s ++ t) r) (match_bytes-append g f s t 0)
    ∙ cut_at-resumed g s t (match_bytes g f s 0)
        (λ h. omega (arith, (match_bytes_within g f s 0 h).1))

-- A stream that reads: it has an automaton with more than the root.
abbrev pub Reads : PhraseFilter → PhraseStream → Type 0
Reads g f = (f.compiled ≡ some g) × (leb g.automaton.count 1 ≡ false)

process_chunk-scan :
    (g : PhraseFilter) (f : PhraseStream) (s : Bytes)
    → Reads g f
    → process_chunk f s ≡ some (scan g f s)
unfolding process_chunk match_chunk is_empty
process_chunk-scan g f [] (c, n) = unfold match_bytes in ground (arith, c, n)
process_chunk-scan g f (b ∷ s) (c, n) =
    let filled : (g.automaton.count == 0) ≡ false = elim (Bool-cases (g.automaton.count == 0)) [
      | inl e ↦ absurd (omega (arith, (==_iff _ _).0 e, leb→lt _ _ n))
      | inr e ↦ e
    ] in
    rw (c, n, filled) refl

-- Every stream reads, or passes all bytes through.
stream-cases :
    (f : PhraseStream)
    → ((g : PhraseFilter) × Reads g f) ⊎ ((s : Bytes) → process_chunk f s ≡ some (f, (s, false)))
unfolding process_chunk
stream-cases f = elim (Option-cases f.compiled) [
  | inl e ↦ inr λ s. rw e refl
  | inr (g, e) ↦ elim (Bool-cases (leb g.automaton.count 1)) [
    | inl small ↦ inr λ s. rw (e, small) refl
    | inr big ↦ inl (g, (e, big))
  ]
]

pub run_reading :
    (g : PhraseFilter) (f : PhraseStream) (cs : List Bytes)
    → Reads g f
    → run f cs ≡ some (scan g f (concat cs))
unfolding run
run_reading g f [] h = unfold match_bytes in refl
run_reading g f (c ∷ cs) h =
    ap (λ r. then_run r (λ next. run next cs)) (process_chunk-scan g f c h)
    ∙ after_chunk (scan g f c)
        (λ e. run_reading g (scan g f c).0 cs (compiled-match_bytes g f c 0 ∙ h.0, h.1))
    ∙ ap some (sym (scan-append g f c (concat cs)))
  where
    after_chunk :
        (r : PhraseStream × (Bytes × Bool))
        → (r.1.1 ≡ false → run r.0 cs ≡ some (scan g r.0 (concat cs)))
        → then_run (some r) (λ next. run next cs) ≡ some (then_scan g (concat cs) r)
    after_chunk (x, (out, true)) h = refl
    after_chunk (x, (out, false)) h = ap (λ r. put_front out r) (h refl)

-- However a response is cut into chunks, the semantic filter gives what it gives on the whole response at
-- once: the same bytes, the same block and the same final state.
pub run-process_chunk :
    (f : PhraseStream) (cs : List Bytes) → run f cs ≡ process_chunk f (concat cs)
unfolding run
run-process_chunk f cs = elim (stream-cases f) [
  | inl (g, h) ↦ run_reading g f cs h ∙ sym (process_chunk-scan g f (concat cs) h)
  | inr pass ↦ passing f cs pass ∙ sym (pass (concat cs))
]
  where
    passing :
        (f : PhraseStream) (cs : List Bytes)
        → ((s : Bytes) → process_chunk f s ≡ some (f, (s, false)))
        → run f cs ≡ some (f, (concat cs, false))
    passing f [] h = refl
    passing f (c ∷ cs) h =
        ap (λ r. then_run r (λ next. run next cs)) (h c) ∙ ap (λ r. put_front c r) (passing f cs h)

-- A stream that blocks nothing from here on: it only observes, or an exception was found.
abbrev pub IsOpen : PhraseStream → Type 0
IsOpen f = (f.observe_only ≡ true) ⊎ (f.excepted ≡ true)

match_byte-IsOpen :
    (g : PhraseFilter) (f : PhraseStream) (b : ℕ)
    → IsOpen f
    → ((match_byte g f b).1 ≡ false) × IsOpen (match_byte g f b).0
unfolding match_byte
match_byte-IsOpen g f b (inl e) = (ground (arith, e), inl (ground (arith, e)))
match_byte-IsOpen g f b (inr e) = (ground (arith, e), inr (ground (arith, e)))

match_bytes-IsOpen :
    (g : PhraseFilter) (f : PhraseStream) (s : Bytes) (i : ℕ)
    → IsOpen f
    → ((match_bytes g f s i).1.0 ≡ false) × IsOpen (match_bytes g f s i).0
unfolding match_bytes
match_bytes-IsOpen g f [] i h = (refl, h)
match_bytes-IsOpen g f (b ∷ s) i h =
    let (go, later) = match_byte-IsOpen g f b h in
    rw go (match_bytes-IsOpen g (match_byte g f b).0 s (suc i) later)

-- A part of the page, all of it without a block.
abbrev Part : Bytes → PhraseStream × (Bytes × Bool) → Type 0
Part page (f, (out, blocked)) =
    (rest : Bytes) × (out ++ rest ≡ page) × (blocked ≡ false → rest ≡ [])

cut_at-Part : (s : Bytes) (r : PhraseStream × (Bool × ℕ)) → Part s (cut_at s r)
cut_at-Part s (f, (true, n)) = (drop n s, take-append-drop n s, λ e. absurd (cc))
cut_at-Part s (f, (false, n)) = ([], append-nil s, λ e. refl)

-- The semantic filter never fails. What it lets through is the front of the response, all of it unless it
-- blocks; and a stream that only observes, or has found an exception, blocks nothing and stays so.
pub run_prefix :
    (f : PhraseStream) (cs : List Bytes)
    → (g : PhraseStream) × (out : Bytes) × (blocked : Bool) × (rest : Bytes) × (run f cs
        ≡ some (g, (out, blocked)))
      × (out ++ rest ≡ concat cs)
      × (blocked ≡ false → rest ≡ [])
      × (IsOpen f → (blocked ≡ false) × IsOpen g)
run_prefix f cs = elim (stream-cases f) [
  | inr pass ↦ (
    f,
    concat cs,
    false,
    [],
    run-process_chunk f cs ∙ pass (concat cs),
    append-nil (concat cs),
    λ e. refl,
    λ h. (refl, h),
  )
  | inl (g, h) ↦
      let r = scan g f (concat cs) in
      let (rest, part, all) = cut_at-Part (concat cs) (match_bytes g f (concat cs) 0) in
      (
        r.0,
        r.1.0,
        r.1.1,
        rest,
        run_reading g f cs h,
        part,
        all,
        λ o. match_bytes-IsOpen g f (concat cs) 0 o,
      )
]
