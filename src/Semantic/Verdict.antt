-- ===== src/Semantic/Verdict.antt =====
-- The verdict on a response of a filter that `NewPhraseFilterWithExceptions` compiled.
use lucid_gate.Prelude.{
  ℕ, ◌≡◌, ◌<◌, ◌≤◌, inl, inr, Bool, true, false, some, List, [], ◌∷◌, ◌++◌, Bytes, ℤ, pos, negsuc,
  if◌then◌else◌, take, map, arith, refl, sym, ap, subst, ◌∙◌, Bool-cases, leb,
}
use lucid_gate.Text.{Unicode}
use lucid_gate.Filter.InjectionStream.{concat}
use lucid_gate.Semantic.Automaton.{
  Automaton, PhraseFilter, WeightedPhrase, Compiled, compiled, refused, root_only, add_hard,
  add_weighted, add_exceptions, build_failures, finished, new_phrase_filter_with_exceptions,
}
use lucid_gate.Semantic.Trie.{next_of, walk-nil}
use lucid_gate.Semantic.Mark.{no_mark, mark_of}
use lucid_gate.Semantic.Entries.{
  Entry, natural, blocked_entry, weighted_entry, excepted_entry, entries_of, entries_of-append,
  filter_entries, says, told, says-entries_of,
}
use lucid_gate.Semantic.Holding.{
  Holds, AreBytes, OfBytes, root_only-Holds, add_hard-Holds, add_weighted-Holds,
  add_exceptions-Holds,
}
use lucid_gate.Semantic.Suffixes.{target, target_word}
use lucid_gate.Semantic.Failures.{next_of-build_failures, mark_of-build_failures}
use lucid_gate.Semantic.Counts.{count-build_failures}
use lucid_gate.Semantic.Marks.{mark_of-AllFit, mark_of-root, finds-told, told_root}
use lucid_gate.Semantic.Search.{search, search_silent, tally_from}
use lucid_gate.Semantic.Found.{match_bytes-search}
use lucid_gate.Semantic.Stream.{PhraseStream, new_filter, match_bytes, process_chunk, run}
use lucid_gate.Semantic.Chunks.{run-process_chunk, run_reading}

-- What is let through of a page, and whether it is blocked.
abbrev pub cut_where : Bytes → Bool × ℕ → Bytes × Bool
cut_where page (stop, n) = (if stop then take n page else page, stop)

abbrev pub searched : ℕ → List Entry → Bytes → Bytes × Bool
searched threshold entries page =
    cut_where page (search (told entries) threshold tally_from [] page)

module _ (g : PhraseFilter) (a : Automaton) (entries : List Entry) (h : Holds a entries)
    (unsaid : says entries [] ≡ no_mark) (built : g.automaton ≡ build_failures a) where
  moves :
      (s : Bytes) (b : ℕ) → b < 256 → next_of g.automaton (target a s) b ≡ target a (s ++ b ∷ [])
  moves s b byte =
      ap (λ c. next_of c (target a s) b) built
      ∙ next_of-build_failures a h.trie h.root (mark_of-AllFit a entries h)
          (mark_of-root a entries h unsaid) s b byte

  marks : (s : Bytes) → mark_of g.automaton (target a s) ≡ told entries s
  marks s =
      ap (λ c. mark_of c (target a s)) built
      ∙ mark_of-build_failures a h.trie h.root (mark_of-AllFit a entries h)
          (mark_of-root a entries h unsaid) s
      ∙ finds-told a entries h s

  stops_at :
      (page : Bytes)
      → AreBytes page
      → (match_bytes g (new_filter g) page 0).1
        ≡ search (told entries) g.threshold tally_from [] page
  unfolding new_filter
  stops_at page bytes =
      match_bytes-search g a (told entries) moves marks tally_from [] (new_filter g) page 0 bytes
        (sym (target_word a [] 0 (walk-nil a 0)), refl, refl, refl)
      ∙ ap (λ n. ((search (told entries) g.threshold tally_from [] page).0, n)) (omega arith)

  root_alone :
      (page : Bytes)
      → leb g.automaton.count 1 ≡ true
      → (page, false) ≡ searched g.threshold entries page
  root_alone page small =
      let one : a.count ≤ 1 =
        ground (arith, small, ap (λ c. c.count) built, count-build_failures a) in
      let silent =
        search_silent (told entries) g.threshold tally_from [] page
          (λ s. told_root a entries h unsaid s one) in
      rw silent refl

  pub run-searched :
      (cs : List Bytes)
      → AreBytes (concat cs)
      → (f : PhraseStream) × (run (new_filter g) cs
          ≡ some (f, searched g.threshold entries (concat cs)))
  unfolding new_filter process_chunk
  run-searched cs bytes = elim (Bool-cases (leb g.automaton.count 1)) [
    | inl small ↦ (
      new_filter g,
      run-process_chunk (new_filter g) cs
          ∙ (unfold new_filter process_chunk in rw small refl)
          ∙ ap (λ r. some (new_filter g, r)) (root_alone (concat cs) small),
    )
    | inr big ↦ (
      (match_bytes g (new_filter g) (concat cs) 0).0,
      run_reading g (new_filter g) cs (refl, big)
          ∙ ap (λ r. some ((match_bytes g (new_filter g) (concat cs) 0).0, cut_where (concat cs) r))
              (stops_at (concat cs) bytes),
    )
  ]

All_split : (u : Unicode) (xs ys : List Entry) → OfBytes u (xs ++ ys) → OfBytes u xs × OfBytes u ys
All_split u [] ys h = (tt, h)
All_split u (x ∷ xs) ys h = let (front, back) = All_split u xs ys h.1 in ((h.0, front), back)

finished-compiled :
    (u : Unicode) (n : ℕ) (exceptions : List Bytes) (r : Compiled Automaton) (g : PhraseFilter)
    → finished u n exceptions r ≡ compiled g
    → (a : Automaton) × (r ≡ compiled a)
      × (g.automaton ≡ build_failures (add_exceptions u a exceptions))
      × (g.threshold ≡ n)
finished-compiled u n exceptions (refused e) g h = absurd (cc)
finished-compiled u n exceptions (compiled a) g h = (a, refl, cc, cc)

-- A filter that `NewPhraseFilterWithExceptions` compiled from phrases, weighted phrases and exceptions,
-- whose normal forms are of bytes, cuts a response of bytes as a direct search does, however it comes in
-- chunks. With ASCII letters folded to lower case the search looks at each byte at all entries that the text up
-- to there ends with: after an exception it stops no more; else it stops at a phrase, or, where a weight
-- is added (in 32 bits), if the score reaches a threshold above 0.
pub run-new_phrase_filter_with_exceptions :
    (u : Unicode) (blocked : List Bytes) (weighted : List WeightedPhrase) (exceptions : List Bytes)
    (threshold : ℤ) (g : PhraseFilter) (cs : List Bytes)
    → new_phrase_filter_with_exceptions u blocked weighted exceptions threshold ≡ compiled g
    → OfBytes u (filter_entries blocked weighted exceptions)
    → AreBytes (concat cs)
    → (f : PhraseStream) × (run (new_filter g) cs
        ≡ some (
          f,
          searched
              (natural threshold)
              (entries_of u [] (filter_entries blocked weighted exceptions))
              (concat cs),
        ))
unfolding new_phrase_filter_with_exceptions
run-new_phrase_filter_with_exceptions u blocked weighted exceptions (negsuc n) g cs made bytes
      page =
    absurd (cc)
run-new_phrase_filter_with_exceptions u blocked weighted exceptions (pos n) g cs made bytes page =
    let (first, others) = All_split u (map blocked_entry blocked) _ bytes in
    let (second, third) = All_split u (map weighted_entry weighted) _ others in
    let (a, made_of, built, same) =
      finished-compiled u n exceptions (add_weighted u n (add_hard u root_only blocked) weighted) g
        made in
    let holds =
      add_exceptions-Holds u a _ exceptions
        (add_weighted-Holds u n (add_hard u root_only blocked) a _ weighted
          (add_hard-Holds u root_only [] blocked root_only-Holds first) second made_of)
        third in
    let entries = entries_of u [] (filter_entries blocked weighted exceptions) in
    let joined : entries
        ≡ entries_of u
            (entries_of u (entries_of u [] (map blocked_entry blocked))
              (map weighted_entry weighted))
            (map excepted_entry exceptions) =
      entries_of-append u [] (map blocked_entry blocked) _
      ∙ entries_of-append u _ (map weighted_entry weighted) (map excepted_entry exceptions) in
    let (f, runs) =
      run-searched g (add_exceptions u a exceptions) entries
        (subst (Holds (add_exceptions u a exceptions)) (sym joined) holds)
        (says-entries_of u [] (filter_entries blocked weighted exceptions) (unfold says in refl))
        built cs page in
    (f, runs ∙ ap (λ n. some (f, searched n entries (concat cs))) same)
