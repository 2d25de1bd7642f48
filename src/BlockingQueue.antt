-- ===== src/BlockingQueue.antt =====
-- src/BlockingQueue.h: the queue that the main thread and the database thread share. The front of
-- the deque is the head of the list. Each method holds the mutex, so it is one step; `take` waits
-- on an empty queue, where the model has no result.
pub mod Fifo
pub mod Reorder
pub mod Removal
use my_sqloo.Base.{
  ℕ, zero, suc, Bool, true, false, not, ◌&&◌, Option, none, some, List, [], ◌∷◌, ◌++◌, length,
  get_elem?, set, ◌==◌, if◌then◌else◌,
}

module _ {ℓ} {T : Type ℓ} where
  unfoldable pub put : T → List T → List T
  put elem q = q ++ (elem ∷ [])

  unfoldable pub size : List T → ℕ
  size q = length q

  unfoldable pub empty : List T → Bool
  unfolding size
  empty q = size q == 0

  -- `none`: the caller waits until another thread has put an element.
  unfoldable pub take : List T → Option (T × List T)
  take [] = none
  take (front ∷ rest) = some (front, rest)

  -- The elements that were in the queue, and the queue that is left.
  unfoldable pub clear : List T → List T × List T
  clear q = (q, [])

  -- The position of the first element that satisfies `func`; the end of the list if there is none.
  unfoldable pub find_if : (T → Bool) → List T → ℕ
  find_if func [] = 0
  find_if func (x ∷ xs) = let later = suc (find_if func xs) in if func x then 0 else later

  -- Swaps the element at `pos` with the front.
  unfoldable pub iter_swap : ℕ → List T → List T
  iter_swap pos [] = []
  iter_swap zero (x ∷ xs) = x ∷ xs
  iter_swap (suc pos) (x ∷ xs) = elim (get_elem? xs pos) [
    | none ↦ x ∷ xs
    | some y ↦ y ∷ set xs pos x
  ]

  unfoldable pub swap_to_front_if : (T → Bool) → List T → List T × Bool
  unfolding find_if iter_swap
  swap_to_front_if func q =
      let pos = find_if func q in
      if not (pos == 0) && not (pos == length q) then (iter_swap pos q, true) else (q, false)

  -- `std::remove_if` followed by `erase`.
  unfoldable pub erase_if : (T → Bool) → List T → List T
  erase_if func [] = []
  erase_if func (x ∷ xs) = let rest = erase_if func xs in if func x then rest else x ∷ rest

  -- `remove`, with the equality of entries that `std::remove` uses.
  unfoldable pub remove : (T → T → Bool) → T → List T → List T
  remove equal elem q = erase_if (equal elem) q

  -- The flag compares the end that `std::remove_if` returns with the end of the queue.
  unfoldable pub remove_if : (T → Bool) → List T → List T × Bool
  unfolding erase_if
  remove_if func q = let kept = erase_if func q in (kept, not (length kept == length q))
