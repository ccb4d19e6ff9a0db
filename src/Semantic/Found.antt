-- ===== src/Semantic/Found.antt =====
-- The automaton says at each byte what the direct search finds.
use lucid_gate.Prelude.{
  ℕ, suc, ◌+◌, ◌≡◌, ◌<◌, inl, inr, true, false, [], ◌∷◌, ◌++◌, Bytes, arith, ap, ◌∙◌, Bool-cases,
}
use lucid_gate.Filter.Fold.{lower_ascii}
use lucid_gate.Semantic.Automaton.{Automaton, PhraseFilter}
use lucid_gate.Semantic.Trie.{next_of}
use lucid_gate.Semantic.Mark.{Mark, mark_of}
use lucid_gate.Semantic.Holding.{AreBytes}
use lucid_gate.Semantic.Suffixes.{target}
use lucid_gate.Semantic.Search.{Tally, tallied, stops, search}
use lucid_gate.Semantic.Stream.{PhraseStream, match_byte, match_bytes}

lower_ascii_lt : (b : ℕ) → b < 256 → lower_ascii b < 256
unfolding lower_ascii
lower_ascii_lt b h = ground (arith, h)

module _ (g : PhraseFilter) (a : Automaton) (at : Bytes → Mark)
    (move : (s : Bytes) (b : ℕ)
      → b < 256
      → next_of g.automaton (target a s) b ≡ target a (s ++ b ∷ []))
    (mark : (s : Bytes) → mark_of g.automaton (target a s) ≡ at s) where
  -- The stream has read a text.
  abbrev pub Read : Tally → Bytes → PhraseStream → Type 0
  Read t s f =
      (f.node ≡ target a s)
      × (f.score ≡ t.score)
      × (f.excepted ≡ t.excepted)
      × (f.observe_only ≡ false)

  match_byte-stops :
      (t : Tally) (s : Bytes) (f : PhraseStream) (b : ℕ)
      → b < 256
      → Read t s f
      → ((match_byte g f b).1
          ≡ stops g.threshold
              (tallied t (at (s ++ lower_ascii b ∷ [])))
              (at (s ++ lower_ascii b ∷ [])))
        × ((match_byte g f b).1 ≡ false
            → Read
                (tallied t (at (s ++ lower_ascii b ∷ [])))
                (s ++ lower_ascii b ∷ [])
                (match_byte g f b).0)
  unfolding match_byte mark_of
  match_byte-stops t s f b byte (node, score, excepted, observe) =
      let now = s ++ lower_ascii b ∷ [] in
      let there : next_of g.automaton f.node (lower_ascii b) ≡ target a now =
        ap (λ n. next_of g.automaton n (lower_ascii b)) node
        ∙ move s (lower_ascii b) (lower_ascii_lt b byte) in
      let hard : (g.automaton.nodes (target a now)).hard ≡ (at now).hard =
        ap (λ m. m.hard) (mark now) in
      let excpt : (g.automaton.nodes (target a now)).excpt ≡ (at now).excpt =
        ap (λ m. m.excpt) (mark now) in
      let points : (g.automaton.nodes (target a now)).score ≡ (at now).score =
        ap (λ m. m.score) (mark now) in
      rw there (
        ground (arith, hard, excpt, points, score, excepted, observe),
        λ h. ground (arith, hard, excpt, points, score, excepted, observe, h),
      )

  pub match_bytes-search :
      (t : Tally) (s : Bytes) (f : PhraseStream) (rest : Bytes) (i : ℕ)
      → AreBytes rest
      → Read t s f
      → (match_bytes g f rest i).1
        ≡ ((search at g.threshold t s rest).0, i + (search at g.threshold t s rest).1)
  unfolding match_bytes search
  match_bytes-search t s f [] i bytes h = ap (λ n. (false, n)) (omega arith)
  match_bytes-search t s f (b ∷ rest) i bytes h =
      let now = s ++ lower_ascii b ∷ [] in
      let after = tallied t (at now) in
      let (stop, next) = match_byte-stops t s f b bytes.0 h in
      elim (Bool-cases (stops g.threshold after (at now))) [
        | inl e ↦ rw (stop, e) (ap (λ n. (true, n)) (omega arith))
        | inr e ↦
            let later =
              match_bytes-search after now (match_byte g f b).0 rest (suc i) bytes.1
                (next (stop ∙ e)) in
            rw (stop, e)
              (later ∙ ap (λ n. ((search at g.threshold after now rest).0, n)) (omega arith))
      ]
