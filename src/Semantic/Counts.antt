-- ===== src/Semantic/Counts.antt =====
-- The failure links of `buildFailures` add no node.
use lucid_gate.Prelude.{ℕ, zero, suc, ◌≡◌, List, [], ◌∷◌, Bytes, arith, refl, ◌∙◌}
use lucid_gate.Semantic.Automaton.{
  Automaton, put_node, bytes_from, queue_root, link, link_all, link_queue, build_failures,
}
use lucid_gate.Semantic.Children.{rooted_step}

count-queue_root : (a : Automaton) (bs : Bytes) → (queue_root a bs).0.count ≡ a.count
unfolding queue_root put_node
count-queue_root a [] = refl
count-queue_root a (b ∷ bs) =
    count-queue_root (rooted_step a b) bs ∙ unfold put_node in ground arith

count-link : (a : Automaton) (n b : ℕ) → (link a n b).count ≡ a.count
unfolding link put_node
count-link a n b = ground arith

count-link_all : (a : Automaton) (n : ℕ) (bs : Bytes) → (link_all a n bs).0.count ≡ a.count
unfolding link_all
count-link_all a n [] = refl
count-link_all a n (b ∷ bs) = count-link_all (link a n b) n bs ∙ count-link a n b

count-link_queue :
    (fuel : ℕ) (a : Automaton) (queue : List ℕ) → (link_queue fuel a queue).count ≡ a.count
unfolding link_queue
count-link_queue zero a [] = refl
count-link_queue zero a (n ∷ ns) = refl
count-link_queue (suc fuel) a [] = refl
count-link_queue (suc fuel) a (n ∷ ns) =
    count-link_queue fuel (link_all a n (bytes_from 0 256)).0 _
    ∙ count-link_all a n (bytes_from 0 256)

pub count-build_failures : (a : Automaton) → (build_failures a).count ≡ a.count
unfolding build_failures
count-build_failures a =
    count-link_queue a.count (queue_root a (bytes_from 0 256)).0 (queue_root a (bytes_from 0 256)).1
    ∙ count-queue_root a (bytes_from 0 256)
