-- ===== src/Semantic/Mark.antt =====
-- proxy/semantic_filter.go: what a node says of the phrases that end there.
use lucid_gate.Prelude.{ℕ, ◌+◌, ◌^◌, ◌<◌, ◌≡◌, Bool, false, ◌||◌, arith}
use lucid_gate.Semantic.Automaton.{i32, Automaton}

pub record Mark : Type 0 where
  pub hard : Bool
  pub excpt : Bool
  pub score : ℕ

abbrev pub no_mark : Mark
no_mark = record { hard = false; excpt = false; score = 0 }

unfoldable pub join : Mark → Mark → Mark
join m k = record {
  hard = m.hard || k.hard;
  excpt = m.excpt || k.excpt;
  score = i32 (m.score + k.score);
}

unfoldable pub mark_of : Automaton → ℕ → Mark
mark_of a n = record {
  hard = (a.nodes n).hard;
  excpt = (a.nodes n).excpt;
  score = (a.nodes n).score;
}

pub Mark-ext : (m k : Mark) → m.hard ≡ k.hard → m.excpt ≡ k.excpt → m.score ≡ k.score → m ≡ k
Mark-ext m k h e s = cc

-- The score is an int32.
abbrev pub Fits : Mark → Type 0
Fits m = m.score < 2 ^ 32

pub Fits-join : (m k : Mark) → Fits (join m k)
unfolding join
Fits-join m k = omega arith

pub join_right : (m : Mark) → Fits m → join m no_mark ≡ m
unfolding join
join_right m h =
    Mark-ext (join m no_mark) m (unfold join in ground arith) (unfold join in ground arith)
      (unfold join in omega (arith, h))

pub join_left : (m : Mark) → Fits m → join no_mark m ≡ m
unfolding join
join_left m h =
    Mark-ext (join no_mark m) m (unfold join in ground arith) (unfold join in ground arith)
      (unfold join in omega (arith, h))
