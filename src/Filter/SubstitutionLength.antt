-- ===== src/Filter/SubstitutionLength.antt =====
-- The length of a body whose substitutions keep the length.
use lucid_gate.Prelude.{
  ℕ, zero, suc, ◌+◌, ◌-◌, ◌≤◌, ◌≡◌, inl, inr, true, false, Option, none, some, List, [], ◌∷◌, ◌++◌,
  Bytes, String, leb, length, take, drop, replicate, All, arith, refl, sym, ap, ◌∙◌, length-append,
  length-take, length-drop, length-replicate, Bool-cases, Option-cases,
}
use lucid_gate.Text.{is_empty, has_prefix, index}
use lucid_gate.Filter.InjectionStream.{concat}
use lucid_gate.Filter.Substitution.{
  Hit, SubRule, RegexSubRule, SubstitutionFilter, SubstitutionStream, pad_or_truncate,
  replace_literal, target_of, Applied, with_event, replace_hits, replace_regex, apply_regexes,
  apply_literals, apply_rules, after_rules, process_chunk, flush, run, new_filter, has_rules,
  stream_of,
}

-- The matches of an expression lie in the text, which is what `FindAllSubmatchIndex` promises.
abbrev pub IsInside : Bytes → Hit → Type 0
IsInside s h = (h.start ≤ h.stop) × (h.stop ≤ length s)

abbrev pub FindsInside : RegexSubRule → Type 0
FindsInside r = (s : Bytes) → All (IsInside s) (r.re.find_all s)

length-pad_or_truncate : (r : Bytes) (n : ℕ) → length (pad_or_truncate r n) ≡ n
unfolding pad_or_truncate
length-pad_or_truncate r n = ground (
  arith,
  length-take n r,
  length-append r (replicate (n - length r) b'*'),
  length-replicate {A = ℕ} (n - length r) b'*',
)

has_prefix-le : (s p : Bytes) → has_prefix s p ≡ true → length p ≤ length s
unfolding has_prefix
has_prefix-le s [] h = omega arith
has_prefix-le [] (c ∷ p) h = absurd (cc)
has_prefix-le (d ∷ s) (c ∷ p) h = ground (arith, has_prefix-le s p)

pub index-le : (s p : Bytes) (i : ℕ) → index s p ≡ some i → i + length p ≤ length s
unfolding index is_empty
index-le [] [] i h = ground arith
index-le [] (c ∷ p) i h = absurd (ground arith)
index-le (c ∷ s) p i h = elim (Bool-cases (has_prefix (c ∷ s) p)) [
  | inl hit ↦ ground (arith, has_prefix-le (c ∷ s) p hit)
  | inr miss ↦ elim (Option-cases (index s p)) [
    | inl e ↦ absurd (ground arith)
    | inr (j, e) ↦ ground (arith, index-le s p j e)
  ]
]

pub replace_literal-none :
    (fuel : ℕ) (sought target s : Bytes)
    → index s sought ≡ none
    → replace_literal (suc fuel) sought target s ≡ s
unfolding replace_literal
replace_literal-none fuel sought target s e = ground arith

pub replace_literal-some :
    (fuel : ℕ) (sought target s : Bytes) (i : ℕ)
    → index s sought ≡ some i
    → replace_literal (suc fuel) sought target s
      ≡ take i s ++ target ++ replace_literal fuel sought target (drop (i + length sought) s)
unfolding replace_literal
replace_literal-some fuel sought target s i e = ground arith

length-replace_literal :
    (fuel : ℕ) (sought target s : Bytes)
    → length target ≡ length sought
    → length (replace_literal fuel sought target s) ≡ length s
length-replace_literal zero sought target s h = unfold replace_literal in refl
length-replace_literal (suc fuel) sought target s h = elim (Option-cases (index s sought)) [
  | inl e ↦ ap length (replace_literal-none fuel sought target s e)
  | inr (i, e) ↦
      let rest = replace_literal fuel sought target (drop (i + length sought) s) in
      let a = length-append (take i s ++ target) rest in
      let b = length-append (take i s) target in
      let c = length-take i s in
      let d = length-drop (i + length sought) s in
      let k = length-replace_literal fuel sought target (drop (i + length sought) s) h in
      let l = index-le s sought i e in
      ap length (replace_literal-some fuel sought target s i e) ∙ omega (arith, a, b, c, d, k, l)
]

-- One replacement of a match.
replaced_length :
    (target later : Bytes) (start stop : ℕ)
    → start ≤ stop
    → stop ≤ length later
    → length target ≡ stop - start
    → length (take start later ++ target ++ drop stop later) ≡ length later
replaced_length target later start stop h k e =
    let b = length-append (take start later ++ target) (drop stop later) in
    let c = length-append (take start later) target in
    let d = length-take start later in let f = length-drop stop later in omega (arith, b, c, d, f)

length-replace_hits :
    (template : Bytes) (hs : List Hit) (s : Bytes)
    → All (IsInside s) hs
    → length (replace_hits template hs s) ≡ length s
unfolding replace_hits
length-replace_hits template [] s a = refl
length-replace_hits template (h ∷ hs) s a =
    let later = replace_hits template hs s in
    let k = length-replace_hits template hs s a.1 in
    let inside = a.0 in
    replaced_length (pad_or_truncate (h.expand template later) (h.stop - h.start)) later h.start
      h.stop inside.0 (omega (arith, inside.1, k)) (length-pad_or_truncate _ _)
    ∙ k

-- Rules that were applied, to a text of some length.
abbrev HasLength : ℕ → Applied → Type 0
HasLength n none = ⊥
HasLength n (some (out, events)) = length out ≡ n

with_event-HasLength :
    (n : ℕ) (kind : String) (p : Bytes) (a : Applied)
    → HasLength n a
    → HasLength n (with_event kind p a)
with_event-HasLength n kind p none h = h
with_event-HasLength n kind p (some (out, events)) h = h

apply_regexes-HasLength :
    (n : ℕ) (rs : List RegexSubRule) (s : Bytes)
    → All FindsInside rs
    → length s ≡ n
    → HasLength n (apply_regexes true false rs s)
unfolding apply_regexes
apply_regexes-HasLength n [] s a h = h
apply_regexes-HasLength n (r ∷ rs) s a h = elim (Bool-cases (r.re.matches s)) [
  | inl hit ↦ rw hit (
      with_event-HasLength n "regex" r.re.text _ (
        apply_regexes-HasLength n rs (replace_regex true r s) a.1
          (length-replace_hits r.replace (r.re.find_all s) s (a.0 s) ∙ h)))
  | inr miss ↦ rw miss (apply_regexes-HasLength n rs s a.1 h)
]

apply_literals-none :
    (l : SubRule) (ls : List SubRule) (rs : List RegexSubRule) (s : Bytes)
    → index s l.search ≡ none
    → apply_literals true false (l ∷ ls) rs s ≡ apply_literals true false ls rs s
unfolding apply_literals
apply_literals-none l ls rs s e = ground arith

apply_literals-some :
    (l : SubRule) (ls : List SubRule) (rs : List RegexSubRule) (s : Bytes) (i : ℕ)
    → index s l.search ≡ some i
    → apply_literals true false (l ∷ ls) rs s
      ≡ with_event "literal" l.search (
          apply_literals true false ls rs
            (replace_literal (suc (length s)) l.search (target_of true l) s))
unfolding apply_literals
apply_literals-some l ls rs s i e = ground arith

apply_literals-HasLength :
    (n : ℕ) (ls : List SubRule) (rs : List RegexSubRule) (s : Bytes)
    → All FindsInside rs
    → length s ≡ n
    → HasLength n (apply_literals true false ls rs s)
apply_literals-HasLength n [] rs s a h = unfold apply_literals in apply_regexes-HasLength n rs s a h
apply_literals-HasLength n (l ∷ ls) rs s a h = elim (Option-cases (index s l.search)) [
  | inl e ↦ rw (apply_literals-none l ls rs s e) (apply_literals-HasLength n ls rs s a h)
  | inr (i, e) ↦ rw (apply_literals-some l ls rs s i e) (
      with_event-HasLength n "literal" l.search _ (
        apply_literals-HasLength n ls rs _ a (
          length-replace_literal (suc (length s)) l.search (target_of true l) s
            (length-pad_or_truncate l.replace (length l.search))
          ∙ h)))
]

-- A stream that keeps the length, blocks nothing and has not failed.
pub record KeepsLength (f : SubstitutionStream) : Type 0 where
  pub preserved : f.length_preserved ≡ true
  pub lets_pass : f.block_on_match ≡ false
  pub not_failed : f.matched_error ≡ false
  pub inside : All FindsInside f.regex_rules

apply_rules-HasLength :
    (f : SubstitutionStream) (s : Bytes) → KeepsLength f → HasLength (length s) (apply_rules f s)
unfolding apply_rules
apply_rules-HasLength f s v =
    rw (v.preserved, v.lets_pass)
      (apply_literals-HasLength (length s) f.rules f.regex_rules s v.inside refl)

-- A call succeeds, its stream keeps the length, and no byte is added or lost.
record Balanced (n : ℕ) (r : SubstitutionStream × Option Bytes) : Type 0 where
  out : Bytes
  succeeds : r.1 ≡ some out
  keeps : KeepsLength r.0
  balance : length out + length r.0.pending ≡ n

pending-KeepsLength :
    (f : SubstitutionStream) (s : Bytes) → KeepsLength f → KeepsLength (record f { pending = s })
pending-KeepsLength f s v = record {
  preserved = v.preserved;
  lets_pass = v.lets_pass;
  not_failed = v.not_failed;
  inside = v.inside;
}

after_rules-Balanced :
    (f : SubstitutionStream) (left : Bytes) (n : ℕ) (a : Applied)
    → KeepsLength f
    → HasLength n a
    → Balanced (n + length left) (after_rules f left a)
after_rules-Balanced f left n none v h = absurd h
after_rules-Balanced f left n (some (out, events)) v h = record {
  out = out;
  succeeds = refl;
  keeps = pending-KeepsLength f left v;
  balance = omega arith;
}

Balanced-eq :
    (m n : ℕ) (q r : SubstitutionStream × Option Bytes)
    → q ≡ r
    → m ≡ n
    → Balanced m q
    → Balanced n r
Balanced-eq m n q r e h b = rw⁻¹ (e, h) b

-- The outcomes of a call.
module _ (f : SubstitutionStream) (c : Bytes) (v : KeepsLength f) where
  abbrev grown : SubstitutionStream
  grown = record f { pending = f.pending ++ c }

  abbrev emit : ℕ
  emit = length grown.pending - f.max_window

  chunk-empty : is_empty c ≡ true → process_chunk f c ≡ (f, some [])
  unfolding process_chunk
  chunk-empty e = let ok = v.not_failed in ground arith

  chunk-kept :
      is_empty c ≡ false
      → leb (length grown.pending) f.max_window ≡ true
      → process_chunk f c ≡ (grown, some [])
  unfolding process_chunk
  chunk-kept e h = let ok = v.not_failed in ground arith

  chunk-emitted :
      is_empty c ≡ false
      → leb (length grown.pending) f.max_window ≡ false
      → process_chunk f c
        ≡ after_rules grown (drop emit grown.pending) (apply_rules grown (take emit grown.pending))
  unfolding process_chunk
  chunk-emitted e h = let ok = v.not_failed in ground arith

length-is_empty : (s : Bytes) → is_empty s ≡ true → length s ≡ 0
unfolding is_empty
length-is_empty [] h = refl
length-is_empty (c ∷ s) h = absurd (cc)

unchanged : (f : SubstitutionStream) → KeepsLength f → Balanced (length f.pending) (f, some [])
unchanged f v = record { out = []; succeeds = refl; keeps = v; balance = omega arith }

process_chunk-Balanced :
    (f : SubstitutionStream) (c : Bytes)
    → KeepsLength f
    → Balanced (length f.pending + length c) (process_chunk f c)
process_chunk-Balanced f c v = elim (Bool-cases (is_empty c)) [
  | inl blank ↦
      Balanced-eq _ _ _ _ (sym (chunk-empty f c v blank)) (omega (arith, length-is_empty c blank))
        (unchanged f v)
  | inr e ↦ elim (Bool-cases (leb (length (f.pending ++ c)) f.max_window)) [
    | inl few ↦
        Balanced-eq _ _ _ _ (sym (chunk-kept f c v e few)) (length-append f.pending c)
          (unchanged (grown f c v) (pending-KeepsLength f (f.pending ++ c) v))
    | inr many ↦
        let k = emit f c v in
        let g = grown f c v in
        let w = pending-KeepsLength f (f.pending ++ c) v in
        Balanced-eq _ _ _ _ (sym (chunk-emitted f c v e many))
          (omega
            (arith, length-append f.pending c, length-take k g.pending, length-drop k g.pending))
          (after_rules-Balanced g (drop k g.pending) (length (take k g.pending)) _ w
            (apply_rules-HasLength g (take k g.pending) w))
  ]
]

flush-empty :
    (f : SubstitutionStream) → KeepsLength f → is_empty f.pending ≡ true → flush f ≡ (f, some [])
unfolding flush
flush-empty f v h = let ok = v.not_failed in ground arith

flush-pending :
    (f : SubstitutionStream)
    → KeepsLength f
    → is_empty f.pending ≡ false
    → flush f ≡ after_rules f [] (apply_rules f f.pending)
unfolding flush
flush-pending f v h = let ok = v.not_failed in ground arith

-- The flush puts out as many bytes as were pending.
Flushed : ℕ → Option Bytes → Type 0
Flushed n r = (out : Bytes) × (r ≡ some out) × (length out ≡ n)

flush-Flushed : (f : SubstitutionStream) → KeepsLength f → Flushed (length f.pending) (flush f).1
unfolding Flushed
flush-Flushed f v = elim (Bool-cases (is_empty f.pending)) [
  | inl none_left ↦
      rw (flush-empty f v none_left) ([], refl, omega (arith, length-is_empty f.pending none_left))
  | inr some_left ↦
      rw (flush-pending f v some_left)
        (flushed (apply_rules f f.pending) (apply_rules-HasLength f f.pending v))
]
  where
    flushed :
        (a : Applied)
        → HasLength (length f.pending) a
        → Flushed (length f.pending) (after_rules f [] a).1
    flushed none h = absurd h
    flushed (some (out, events)) h = (out, refl, h)

run-Flushed :
    (cs : List Bytes) (f : SubstitutionStream)
    → KeepsLength f
    → Flushed (length f.pending + length (concat cs)) (run f cs)
unfolding run Flushed
run-Flushed [] f v = let (out, e, l) = flush-Flushed f v in (out, e, omega (arith, l))
run-Flushed (c ∷ cs) f v =
    let b = process_chunk-Balanced f c v in
    let (out, e, l) = run-Flushed cs (process_chunk f c).0 b.keeps in
    (
      b.out ++ out,
      rw (b.succeeds, e) refl,
      omega (arith, b.balance, l, length-append b.out out, length-append c (concat cs)),
    )

-- The stream of a filter that keeps the length, whose expressions report matches that lie in the text, never
-- fails, and puts out exactly as many bytes as it was given, wherever the body is cut into chunks.
pub length-run :
    (f : SubstitutionFilter) (s : SubstitutionStream) (cs : List Bytes)
    → new_filter f ≡ some s
    → f.length_preserved ≡ true
    → All FindsInside f.regex_rules
    → (out : Bytes) × (run s cs ≡ some out) × (length out ≡ length (concat cs))
unfolding new_filter Flushed
length-run f s cs e h a = elim (Bool-cases (has_rules f)) [
  | inr no_rules ↦ absurd (ground arith)
  | inl rules ↦
      let same : stream_of f ≡ s = ground arith in
      let (out, r, l) =
        run-Flushed cs (stream_of f)
          (record { preserved = h; lets_pass = refl; not_failed = refl; inside = a }) in
      rw⁻¹ same (out, r, omega (arith, l))
]
