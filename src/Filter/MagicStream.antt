-- ===== src/Filter/MagicStream.antt =====
-- What the magic filter puts out, however the response is cut.
use lucid_gate.Prelude.{
  ℕ, zero, suc, ◌+◌, ◌-◌, ◌≤◌, ◌<◌, ◌≡◌, inl, inr, Bool, true, false, List, [], ◌∷◌, ◌++◌, Bytes,
  if◌then◌else◌, length, take, drop, arith, refl, sym, ap, ◌∙◌, append_assoc, append-nil,
  length-append, length-take, length-drop, take-append-drop, Bool-cases,
}
use Prim.Native.Nat.{min}
use native.Mathlib.Decide.{dec_lt}
use lucid_gate.Text.{is_empty, has_key}
use lucid_gate.Filter.InjectionStream.{concat}
use lucid_gate.Filter.Magic.{
  Sniffer, MagicStream, sniff_len, new_stream, detect_magic_type, commit_decision, process_chunk,
  flush, run,
}

-- Nothing of a response of a blocked type, all of any other.
abbrev pub guarded : Sniffer → List Bytes → Bytes → Bytes
guarded m types page =
    if has_key types (detect_magic_type m (take sniff_len page)) then [] else page

run-cons :
    (m : Sniffer) (f g : MagicStream) (c out : Bytes) (b : Bool) (cs : List Bytes)
    → process_chunk m f c ≡ (g, (out, b))
    → run m f (c ∷ cs) ≡ out ++ run m g cs
unfolding run
run-cons m f g c out b cs e = ap (λ r. r.1.0 ++ run m r.0 cs) e

run_blocked : (m : Sniffer) (f : MagicStream) (cs : List Bytes) → f.blocked ≡ true → run m f cs ≡ []
run_blocked m f [] b = unfold run flush in ground arith
run_blocked m f (c ∷ cs) b =
    run-cons m f f c [] true cs (unfold process_chunk in ground arith) ∙ run_blocked m f cs b

run_decided :
    (m : Sniffer) (f : MagicStream) (cs : List Bytes)
    → f.blocked ≡ false
    → f.decided ≡ true
    → run m f cs ≡ concat cs
run_decided m f [] b d = unfold run flush in ground arith
run_decided m f (c ∷ cs) b d =
    run-cons m f f c c false cs (unfold process_chunk in ground arith)
    ∙ ap (λ r. c ++ r) (run_decided m f cs b d)

take-append : (n : ℕ) (s t : Bytes) → n ≤ length s → take n (s ++ t) ≡ take n s
take-append zero s t h = refl
take-append (suc n) [] t h = absurd (omega arith)
take-append (suc n) (c ∷ s) t h = ap (λ r. c ∷ r) (take-append n s t (omega arith))

take_all : (n : ℕ) (s : Bytes) → length s ≤ n → take n s ≡ s
take_all zero [] h = refl
take_all (suc n) [] h = refl
take_all zero (c ∷ s) h = absurd (omega arith)
take_all (suc n) (c ∷ s) h = ap (λ r. c ∷ r) (take_all n s (omega arith))

-- The decision, with the response `f.pending ++ tail ++ rest`.
commit_run :
    (m : Sniffer) (f : MagicStream) (tail : Bytes) (cs : List Bytes)
    → f.blocked ≡ false
    → length f.pending ≡ sniff_len
    → (commit_decision m f tail).1.0 ++ run m (commit_decision m f tail).0 cs
      ≡ guarded m f.blocked_list (f.pending ++ (tail ++ concat cs))
commit_run m f tail cs b n =
    let first =
      take-append sniff_len f.pending (tail ++ concat cs) (omega arith)
      ∙ take_all sniff_len f.pending (omega arith) in
    unfold commit_decision in
    rw first (elim (Bool-cases (has_key f.blocked_list (detect_magic_type m f.pending))) [
      | inl hit ↦ rw hit (run_blocked m _ cs refl)
      | inr miss ↦ rw miss (
          ap (λ r. (f.pending ++ tail) ++ r) (run_decided m _ cs b refl)
          ∙ append_assoc f.pending tail (concat cs))
    ])

is_empty_eq : (s : Bytes) → is_empty s ≡ true → s ≡ []
unfolding is_empty
is_empty_eq [] h = refl
is_empty_eq (c ∷ s) h = cc

-- A chunk before the decision: empty, too short for it, or long enough.
module _ (m : Sniffer) (f : MagicStream) (c : Bytes) (b : f.blocked ≡ false)
    (d : f.decided ≡ false) where
  chunk-empty : is_empty c ≡ true → process_chunk m f c ≡ (f, ([], false))
  unfolding process_chunk
  chunk-empty e = ground arith

  abbrev need : ℕ
  need = sniff_len - length f.pending

  abbrev held : MagicStream
  held = record f { pending = f.pending ++ take need c }

  module _ (e : is_empty c ≡ false) where
    chunk-held : length held.pending < sniff_len → process_chunk m f c ≡ (held, ([], false))
    unfolding process_chunk
    chunk-held h = ground arith

    chunk-decided :
        (¬ (length held.pending < sniff_len))
        → process_chunk m f c ≡ commit_decision m held (drop need c)
    unfolding process_chunk
    chunk-decided h = ground arith

  pieces : (rest : Bytes) → held.pending ++ (drop need c ++ rest) ≡ f.pending ++ (c ++ rest)
  pieces rest =
      append_assoc f.pending (take need c) (drop need c ++ rest)
      ∙ ap (λ s. f.pending ++ s)
          (sym (append_assoc (take need c) (drop need c) rest)
            ∙ ap (λ s. s ++ rest) (take-append-drop need c))

length-zero : (s : Bytes) → length s ≡ 0 → s ≡ []
length-zero [] h = refl
length-zero (c ∷ s) h = absurd (omega arith)

run-flush :
    (m : Sniffer) (f : MagicStream)
    → f.blocked ≡ false
    → f.decided ≡ false
    → length f.pending < sniff_len
    → run m f [] ≡ guarded m f.blocked_list f.pending
run-flush m f b d h =
    let first = take_all sniff_len f.pending (omega arith) in
    rw first (unfold run flush commit_decision in ground (arith, append-nil f.pending))

run_undecided :
    (m : Sniffer) (cs : List Bytes) (f : MagicStream)
    → f.blocked ≡ false
    → f.decided ≡ false
    → length f.pending < sniff_len
    → run m f cs ≡ guarded m f.blocked_list (f.pending ++ concat cs)
run_undecided m [] f b d h =
    run-flush m f b d h ∙ ap (guarded m f.blocked_list) (sym (append-nil f.pending))
run_undecided m (c ∷ cs) f b d h = elim (Bool-cases (is_empty c)) [
  | inl blank ↦
      run-cons m f f c [] false cs (chunk-empty m f c b d blank)
      ∙ run_undecided m cs f b d h
      ∙ ap (λ s. guarded m f.blocked_list (f.pending ++ (s ++ concat cs)))
          (sym (is_empty_eq c blank))
  | inr e ↦ elim (dec_lt (length (held m f c b d).pending) sniff_len) [
    | yes short ↦
        run-cons m f _ c [] false cs (chunk-held m f c b d e short)
        ∙ run_undecided m cs (held m f c b d) b d short
        ∙ ap (guarded m f.blocked_list) (
            ap (λ s. (held m f c b d).pending ++ (s ++ concat cs)) (sym (length-zero _ (few short)))
            ∙ pieces m f c b d (concat cs))
    | no full ↦
        run-cons m f _ c _ _ cs (chunk-decided m f c b d e full)
        ∙ commit_run m (held m f c b d) (drop (need m f c b d) c) cs b (omega (arith, held_length))
        ∙ ap (guarded m f.blocked_list) (pieces m f c b d (concat cs))
  ]
]
  where
    held_length :
        length (held m f c b d).pending ≡ length f.pending + min (need m f c b d) (length c)
    held_length =
        length-append f.pending (take (need m f c b d) c)
        ∙ ap (λ k. length f.pending + k) (length-take (need m f c b d) c)

    few : length (held m f c b d).pending < sniff_len → length (drop (need m f c b d) c) ≡ 0
    few short = omega (arith, held_length, length-drop (need m f c b d) c)

-- The stream of a list of types puts out nothing for a response whose first 512 bytes have a type
-- of the list, and all of any other response, wherever the response is cut into chunks.
pub run-new_stream :
    (m : Sniffer) (types : List Bytes) (cs : List Bytes)
    → run m (new_stream types) cs ≡ guarded m types (concat cs)
unfolding new_stream
run-new_stream m types cs = run_undecided m cs (new_stream types) refl refl (omega arith)
