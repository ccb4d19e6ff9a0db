-- ===== src/Semantic/Cutting.antt =====
-- A filter of phrases alone, as `NewPhraseFilter` compiles it, cuts a response at its first phrase.
use lucid_gate.Prelude.{
  ℕ, zero, suc, ◌≡◌, ◌≤◌, inl, inr, Bool, true, false, some, List, [], ◌∷◌, ◌++◌, Bytes, All, pos,
  if◌then◌else◌, length, take, drop, map, arith, refl, sym, ap, subst, ◌∙◌, Bool-cases,
  append_assoc, append-nil, take-append-drop,
}
use lucid_gate.Text.{Unicode}
use lucid_gate.Filter.Fold.{lower_ascii}
use lucid_gate.Filter.Masking.{normalize_phrase}
use lucid_gate.Filter.InjectionStream.{concat}
use lucid_gate.Semantic.Automaton.{PhraseFilter, compiled, new_phrase_filter}
use lucid_gate.Semantic.Entries.{entries_of, blocked_entry, told, filter_entries}
use lucid_gate.Semantic.Holding.{AreBytes, OfBytes}
use lucid_gate.Semantic.Search.{Tally, tallied, stops, search, tally_from}
use lucid_gate.Semantic.Phrases.{EndsWith, entries, told-Blocks, told-EndsWith, EndsWith-told}
use lucid_gate.Semantic.Stream.{PhraseStream, new_filter, run}
use lucid_gate.Semantic.Verdict.{searched, cut_where, run-new_phrase_filter_with_exceptions}

-- Whether some text that starts with `s` and goes on in `rest` is found, and after how many bytes.
unfoldable pub first_end : (Bytes → Bool) → Bytes → Bytes → Bool × ℕ
first_end found s [] = (false, 0)
first_end found s (b ∷ rest) =
    let now = s ++ lower_ascii b ∷ [] in
    let later = first_end found now rest in if found now then (true, 1) else (later.0, suc later.1)

abbrev pub folded : Bytes → Bytes
folded s = map lower_ascii s

pub first_end-true :
    (found : Bytes → Bool) (s rest : Bytes)
    → (first_end found s rest).0 ≡ true
    → found (s ++ folded (take (first_end found s rest).1 rest)) ≡ true
unfolding first_end
first_end-true found s [] h = absurd (cc)
first_end-true found s (b ∷ rest) h =
    let now = s ++ lower_ascii b ∷ [] in
    elim (Bool-cases (found now)) [
      | inl e ↦ rw e e
      | inr e ↦
          let later = first_end-true found now rest (ground (arith, h, e)) in
          rw e (
            ap found (
              sym (
                append_assoc s (lower_ascii b ∷ [])
                  (folded (take (first_end found now rest).1 rest))))
            ∙ later)
    ]

pub first_end_least :
    (found : Bytes → Bool) (s p t : Bytes)
    → found s ≡ false
    → found (s ++ folded p) ≡ true
    → ((first_end found s (p ++ t)).0 ≡ true) × ((first_end found s (p ++ t)).1 ≤ length p)
unfolding first_end
first_end_least found s [] t before h =
    absurd (ground (arith, sym before ∙ sym (ap found (append-nil s)) ∙ h))
first_end_least found s (b ∷ p) t before h =
    let now = s ++ lower_ascii b ∷ [] in
    elim (Bool-cases (found now)) [
      | inl e ↦ rw e (refl, omega arith)
      | inr e ↦
          let (stops, le) =
            first_end_least found now p t e
              (ap found (append_assoc s (lower_ascii b ∷ []) (folded p)) ∙ h) in
          rw e (stops, omega (arith, le))
    ]

-- What is let through of a page, and whether it is blocked: up to the first phrase.
abbrev CutAtPhrase : Unicode → List Bytes → Bytes → Bytes → Bool → Type 0
CutAtPhrase u ps page out blocked =
    (blocked ≡ true → EndsWith u ps (folded out))
    × ((s t : Bytes)
        → s ++ t ≡ page
        → EndsWith u ps (folded s)
        → (blocked ≡ true) × (length out ≤ length s))
    × ((rest : Bytes) × (out ++ rest ≡ page) × (blocked ≡ false → rest ≡ []))

length-take_le : (n : ℕ) (s : Bytes) → length (take n s) ≤ n
length-take_le zero s = omega arith
length-take_le (suc n) [] = omega arith
length-take_le (suc n) (c ∷ s) = omega (arith, length-take_le n s)

cut_at_phrase :
    (u : Unicode) (ps : List Bytes) (page : Bytes) (stop : Bool) (n : ℕ)
    → (stop ≡ true → EndsWith u ps (folded (take n page)))
    → ((s t : Bytes) → s ++ t ≡ page → EndsWith u ps (folded s) → (stop ≡ true) × (n ≤ length s))
    → CutAtPhrase u ps page (if stop then take n page else page) stop
cut_at_phrase u ps page true n ends least = (
  ends,
  λ s t e h. (refl, omega (arith, (least s t e h).1, length-take_le n page)),
  (drop n page, take-append-drop n page, λ h. absurd (cc)),
)
cut_at_phrase u ps page false n ends least = (
  λ h. absurd (cc),
  λ s t e h. absurd (ground (arith, (least s t e h).0)),
  ([], append-nil page, λ h. refl),
)

module _ (u : Unicode) (ps : List Bytes) where
  abbrev found : Bytes → Bool
  found s = (told (entries u ps) s).hard

  -- The search for phrases alone looks for the first end of a phrase.
  search-first_end :
      (t : Tally) (s rest : Bytes)
      → t.excepted ≡ false
      → search (told (entries u ps)) 0 t s rest ≡ first_end found s rest
  unfolding search first_end
  search-first_end t s [] h = refl
  search-first_end t s (b ∷ rest) h =
      let now = s ++ lower_ascii b ∷ [] in
      let m = told (entries u ps) now in
      let (hard, plain, light) = told-Blocks u ps now in
      let same : stops 0 (tallied t m) m ≡ found now = ground (arith, plain, light, h) in
      let later = search-first_end (tallied t m) now rest (ground (arith, plain, h)) in
      elim (Bool-cases (found now)) [
        | inl e ↦ rw (same, e) refl
        | inr e ↦ rw (same, e) (ap (λ r. (r.0, suc r.1)) later)
      ]

  cuts :
      (page : Bytes)
      → CutAtPhrase u ps page (searched 0 (entries u ps) page).0 (searched 0 (entries u ps) page).1
  cuts page =
      let (stop, n) = first_end found [] page in
      subst (λ r. CutAtPhrase u ps page (cut_where page r).0 (cut_where page r).1)
        (sym (search-first_end tally_from [] page refl))
        (cut_at_phrase u ps page stop n
          (λ h. told-EndsWith u ps (folded (take n page)) (first_end-true found [] page h))
          λ s t e h.
            subst
              (λ page.
                ((first_end found [] page).0 ≡ true) × ((first_end found [] page).1 ≤ length s))
              e
              (first_end_least found [] s t (unfold told in refl)
                (EndsWith-told u ps (folded s) h)))

AreBytes-entries :
    (u : Unicode) (ps : List Bytes)
    → All (λ p. AreBytes (normalize_phrase u p)) ps
    → OfBytes u (filter_entries ps [] [])
AreBytes-entries u [] h = tt
AreBytes-entries u (p ∷ ps) h = (h.0, AreBytes-entries u ps h.1)

-- A filter that `NewPhraseFilter` compiled from phrases, whose normal forms are of bytes, runs over the
-- chunks of a response of bytes. With ASCII letters folded to lower case: if it blocks, what was let through
-- ends with the normal form, not empty, of a phrase of the list; and if some front of the response ends with
-- one, it blocks, and lets through no more than that front. What is let through is a front of the response, all
-- of it unless it blocks.
pub run-new_phrase_filter :
    (u : Unicode) (ps : List Bytes) (g : PhraseFilter) (cs : List Bytes)
    → new_phrase_filter u ps ≡ compiled g
    → All (λ p. AreBytes (normalize_phrase u p)) ps
    → AreBytes (concat cs)
    → (f : PhraseStream) × (out : Bytes) × (blocked : Bool) × (run (new_filter g) cs
        ≡ some (f, (out, blocked)))
      × (blocked ≡ true → EndsWith u ps (folded out))
      × ((s t : Bytes)
          → s ++ t ≡ concat cs
          → EndsWith u ps (folded s)
          → (blocked ≡ true) × (length out ≤ length s))
      × ((rest : Bytes) × (out ++ rest ≡ concat cs) × (blocked ≡ false → rest ≡ []))
run-new_phrase_filter u ps g cs made bytes page =
    let (f, runs) =
      run-new_phrase_filter_with_exceptions u ps [] [] (pos 0) g cs made
        (AreBytes-entries u ps bytes) page in
    let none_else : filter_entries ps [] [] ≡ map blocked_entry ps =
      append-nil (map blocked_entry ps) in
    let cut = cuts u ps (concat cs) in
    (
      f,
      (searched 0 (entries u ps) (concat cs)).0,
      (searched 0 (entries u ps) (concat cs)).1,
      runs ∙ ap (λ es. some (f, searched 0 (entries_of u [] es) (concat cs))) none_else,
      cut.0,
      cut.1,
      cut.2,
    )
