-- ===== src/BlockingQueue/Fifo.antt =====
-- Order of delivery through the queue of src/BlockingQueue.h.
use mathlib.Core.List.{append_assoc, append-nil}
use my_sqloo.Base.{◌≡◌, sym, ap, ◌∙◌, List, [], ◌∷◌, ◌++◌, none, some}
use my_sqloo.BlockingQueue.{put, take}

-- One call of a producer or of the consumer.
pub data Call {ℓ} (T : Type ℓ) : Type ℓ where
  puts : T → Call T
  takes : Call T

module _ {ℓ} {T : Type ℓ} where
  abbrev pub produced : List (Call T) → List T
  produced [] = []
  produced (puts x ∷ cs) = x ∷ produced cs
  produced (takes ∷ cs) = produced cs

  -- What the consumer received, and the queue after the calls. A `take` on the empty queue waits.
  pub run : List (Call T) → List T → List T × List T
  unfolding put take
  run [] q = ([], q)
  run (puts x ∷ cs) q = run cs (put x q)
  run (takes ∷ cs) q = elim (take q) [
    | none ↦ run cs q
    | some (x, rest) ↦ let (out, left) = run cs rest in (x ∷ out, left)
  ]

  -- Whatever the interleaving of producers and consumer, what was received, followed by what is
  -- still queued, is what was queued at first followed by what was put, in that order.
  pub run_fifo : (cs : List (Call T)) (q : List T) → (run cs q).0 ++ (run cs q).1 ≡ q ++ produced cs
  unfolding run put
  run_fifo [] q = sym (append-nil q)
  run_fifo (puts x ∷ cs) q = run_fifo cs (q ++ (x ∷ [])) ∙ append_assoc q (x ∷ []) (produced cs)
  run_fifo (takes ∷ cs) [] = run_fifo cs []
  run_fifo (takes ∷ cs) (x ∷ q) = ap (◌∷◌ x) (run_fifo cs q)
