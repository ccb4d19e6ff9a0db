-- ===== src/SamplePhrases.antt =====
-- Runs of the semantic filter, and its theorems at concrete inputs.
use lucid_gate.Prelude.{
  ◌≤◌, ◌≡◌, Bool, true, false, Option, none, some, List, [], ◌∷◌, ◌++◌, Bytes, codes, pos, All,
  length, refl, arith,
}
use lucid_gate.Text.{is_empty, ◌=ᵇ◌}
use lucid_gate.SamplePolicy.{to_lower_ascii}
use lucid_gate.Filter.Fold.{lower_ascii}
use lucid_gate.Filter.Masking.{normalize_phrase}
use lucid_gate.Filter.InjectionStream.{concat}
use lucid_gate.Semantic.Automaton.{
  PhraseFilter, WeightedPhrase, new_phrase_filter, new_phrase_filter_with_exceptions, add_hard,
  add_weighted, add_exceptions, add_phrase, add_bytes, child_of, append_node, put_node, put_next,
  root_only, build_failures, queue_root, link_queue, link_all, link, bytes_from, compiled,
}
use lucid_gate.Semantic.Stream.{
  PhraseStream, new_filter, process_chunk, match_chunk, match_bytes, match_byte, run,
}
use lucid_gate.Semantic.Chunks.{IsOpen, run-process_chunk, run_prefix}
use lucid_gate.Semantic.Mark.{join}
use lucid_gate.Semantic.Search.{search}
use lucid_gate.Semantic.Entries.{entries_of, filter_entries, told, says}
use lucid_gate.Semantic.Holding.{AreBytes, OfBytes}
use lucid_gate.Semantic.Phrases.{EndsWith}
use lucid_gate.Semantic.Verdict.{searched, run-new_phrase_filter_with_exceptions}
use lucid_gate.Semantic.Cutting.{folded, run-new_phrase_filter}

abbrev pub filter_of_bad : PhraseFilter
filter_of_bad = record {
  automaton = build_failures (add_hard to_lower_ascii root_only (codes "bad" ∷ []));
  threshold = 0;
}

filter-compiled : new_phrase_filter to_lower_ascii (codes "bad" ∷ []) ≡ compiled filter_of_bad
unfolding new_phrase_filter_with_exceptions add_weighted add_exceptions
filter-compiled = refl

abbrev cut_page : List Bytes
cut_page = codes "a BaB" ∷ (codes "aD day" ∷ [])

run-process_chunk_example :
    run (new_filter filter_of_bad) cut_page
    ≡ process_chunk (new_filter filter_of_bad) (concat cut_page)
run-process_chunk_example = run-process_chunk (new_filter filter_of_bad) cut_page

run_prefix_example :
    (g : PhraseStream) × (out : Bytes) × (blocked : Bool) × (rest : Bytes) × (run
        (new_filter filter_of_bad)
        cut_page
      ≡ some (g, (out, blocked)))
    × (out ++ rest ≡ concat cut_page)
    × (blocked ≡ false → rest ≡ [])
    × (IsOpen (new_filter filter_of_bad) → (blocked ≡ false) × IsOpen g)
run_prefix_example = run_prefix (new_filter filter_of_bad) cut_page

abbrev output_of : Option (PhraseStream × (Bytes × Bool)) → Bytes × Bool
output_of none = ([], false)
output_of (some (f, r)) = r

page_blocked : output_of (run (new_filter filter_of_bad) cut_page) ≡ (codes "a BaBaD", true)
unfolding run new_filter process_chunk match_chunk match_bytes match_byte build_failures queue_root
    link_queue link_all link bytes_from add_hard add_phrase add_bytes child_of append_node put_node
    put_next normalize_phrase lower_ascii is_empty
page_blocked = refl

bad-AreBytes : All (λ p. AreBytes (normalize_phrase to_lower_ascii p)) (codes "bad" ∷ [])
unfolding normalize_phrase lower_ascii
bad-AreBytes = (ground arith, tt)

cut_page-AreBytes : AreBytes (concat cut_page)
cut_page-AreBytes = ground arith

run-new_phrase_filter_example :
    (f : PhraseStream) × (out : Bytes) × (blocked : Bool) × (run (new_filter filter_of_bad) cut_page
      ≡ some (f, (out, blocked)))
    × (blocked ≡ true → EndsWith to_lower_ascii (codes "bad" ∷ []) (folded out))
    × ((s t : Bytes)
        → s ++ t ≡ concat cut_page
        → EndsWith to_lower_ascii (codes "bad" ∷ []) (folded s)
        → (blocked ≡ true) × (length out ≤ length s))
    × ((rest : Bytes) × (out ++ rest ≡ concat cut_page) × (blocked ≡ false → rest ≡ []))
run-new_phrase_filter_example =
    run-new_phrase_filter to_lower_ascii (codes "bad" ∷ []) filter_of_bad cut_page filter-compiled
      bad-AreBytes cut_page-AreBytes

-- "bad" blocks, "beer" weighs 3 of 5, and "medic" is an exception.
abbrev weighted : List WeightedPhrase
weighted = record { phrase = codes "beer"; weight = pos 3 } ∷ []

abbrev filter_of_beer : PhraseFilter
filter_of_beer = record {
  automaton = build_failures (
      add_exceptions to_lower_ascii
        (add_phrase to_lower_ascii (add_hard to_lower_ascii root_only (codes "bad" ∷ []))
          (codes "beer") 3 false false)
        (codes "medic" ∷ []));
  threshold = 5;
}

beer-compiled :
    new_phrase_filter_with_exceptions to_lower_ascii
      (codes "bad" ∷ [])
      weighted
      (codes "medic" ∷ [])
      (pos 5)
    ≡ compiled filter_of_beer
unfolding new_phrase_filter_with_exceptions add_weighted
beer-compiled = refl

beer-OfBytes :
    OfBytes to_lower_ascii (filter_entries (codes "bad" ∷ []) weighted (codes "medic" ∷ []))
unfolding normalize_phrase lower_ascii
beer-OfBytes = ground arith

abbrev beer_page : List Bytes
beer_page = codes "one Be" ∷ (codes "er, two BEERs" ∷ [])

beer_page-AreBytes : AreBytes (concat beer_page)
beer_page-AreBytes = ground arith

run-new_phrase_filter_with_exceptions_example :
    (f : PhraseStream) × (run (new_filter filter_of_beer) beer_page
      ≡ some (
        f,
        searched 5
            (entries_of to_lower_ascii []
              (filter_entries (codes "bad" ∷ []) weighted (codes "medic" ∷ [])))
            (concat beer_page),
      ))
run-new_phrase_filter_with_exceptions_example =
    run-new_phrase_filter_with_exceptions to_lower_ascii (codes "bad" ∷ []) weighted
      (codes "medic" ∷ []) (pos 5) filter_of_beer beer_page beer-compiled beer-OfBytes
      beer_page-AreBytes

-- The second "beer" blocks.
beer_blocked :
    searched 5
      (entries_of to_lower_ascii []
        (filter_entries (codes "bad" ∷ []) weighted (codes "medic" ∷ [])))
      (concat beer_page)
    ≡ (codes "one Beer, two BEER", true)
unfolding entries_of normalize_phrase lower_ascii is_empty search told says join ◌=ᵇ◌
beer_blocked = refl
