-- ===== src/Semantic/Search.antt =====
-- A direct search for the phrases: at each byte, all phrases that the text ends with.
use lucid_gate.Prelude.{
  ℕ, suc, ◌+◌, ◌≡◌, Bool, true, false, ◌&&◌, ◌||◌, not, [], ◌∷◌, ◌++◌, Bytes, if◌then◌else◌, arith,
  refl, ap, ◌∙◌,
}
use lucid_gate.Filter.Fold.{lower_ascii}
use lucid_gate.Semantic.Automaton.{i32, is_positive, reaches}
use lucid_gate.Semantic.Mark.{Mark, no_mark}

-- What is kept from one byte to the next.
pub record Tally : Type 0 where
  pub score : ℕ
  pub excepted : Bool

abbrev pub tally_from : Tally
tally_from = record { score = 0; excepted = false }

abbrev pub tallied : Tally → Mark → Tally
tallied t m = record {
  score =
      if not (t.excepted || m.excpt) && is_positive m.score
      then i32 (t.score + m.score)
      else t.score;
  excepted = t.excepted || m.excpt;
}

-- Whether the search stops, by the tally after the byte.
abbrev pub stops : ℕ → Tally → Mark → Bool
stops threshold t m =
    not t.excepted
    && (m.hard
        || (is_positive m.score && is_positive (i32 threshold) && reaches t.score (i32 threshold)))

-- Whether the search stops in `rest` after the text `s`, and after how many bytes of it.
unfoldable pub search : (Bytes → Mark) → ℕ → Tally → Bytes → Bytes → Bool × ℕ
search at threshold t s [] = (false, 0)
search at threshold t s (b ∷ rest) =
    let now = s ++ lower_ascii b ∷ [] in
    let after = tallied t (at now) in
    let later = search at threshold after now rest in
    if stops threshold after (at now) then (true, 1) else (later.0, suc later.1)

-- Where nothing is said nothing stops.
pub search_silent :
    (at : Bytes → Mark) (threshold : ℕ) (t : Tally) (s rest : Bytes)
    → ((s : Bytes) → at s ≡ no_mark)
    → (search at threshold t s rest).0 ≡ false
unfolding search
search_silent at threshold t s [] silent = refl
search_silent at threshold t s (b ∷ rest) silent =
    let now = s ++ lower_ascii b ∷ [] in
    let after = tallied t (at now) in
    let goes_on : stops threshold after (at now) ≡ false =
      ap (λ m. stops threshold (tallied t m) m) (silent now) ∙ ground arith in
    rw goes_on (search_silent at threshold after now rest silent)
