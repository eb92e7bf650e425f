-- ===== src/Simulator/Heapq.antt =====
-- Python's `heapq` on a list, as events.py calls it: `heappush` and `heappop` with the sift loops of
-- the standard library, each move of an item into the free place written as a swap. Items are
-- compared through `rank`, a number that orders them as their `<` does.
mod Sift
pub mod Laws
use open_tela.Prelude.{
  ℕ, zero, suc, ◌+◌, ◌-◌, ◌*◌, ◌/◌, ◌≤◌, ◌<◌, ◌≡◌, ◌≢◌, refl, Bool, true, false, ltb, nat_beq, not,
  ◌&&◌, if◌then◌else◌, List, [], ◌∷◌, ◌++◌, length, item, set, Option, none, some,
}

abbrev pub parent : ℕ → ℕ
parent i = (i - 1) / 2

module _ {ℓ} {A : Type ℓ} where
  -- The list without its last item.
  abbrev pub front : A → List A → List A
  front x [] = []
  front x (y ∷ ys) = x ∷ front y ys

  abbrev pub last : A → List A → A
  last x [] = x
  last x (y ∷ ys) = last y ys

module _ {ℓ} {A : Type ℓ} (rank : A → ℕ) (d : A) where
  unfoldable pub swap : List A → ℕ → ℕ → List A
  swap xs i j = set (set xs i (item d xs j)) j (item d xs i)

  abbrev pub at_rank : List A → ℕ → ℕ
  at_rank xs i = rank (item d xs i)

  -- `_siftdown(heap, 0, pos)`: towards the root. The fuel is at least `pos`.
  unfoldable pub siftdown : ℕ → List A → ℕ → List A
  siftdown zero xs pos = xs
  siftdown (suc fuel) xs pos =
      let rest = siftdown fuel (swap xs pos (parent pos)) (parent pos) in
      if nat_beq pos 0
      then xs
      else if ltb (at_rank xs pos) (at_rank xs (parent pos))
      then rest
      else xs

  -- The child that `_siftup` moves: the left one if it is less than the right one.
  unfoldable pub smaller_child : List A → ℕ → ℕ
  smaller_child xs pos =
      let left = 2 * pos + 1 in
      let right = left + 1 in
      if ltb right (length xs) && not (ltb (at_rank xs left) (at_rank xs right))
      then right
      else left

  -- The loop of `_siftup`, down to a leaf: the list, and where the item stands. The fuel is at
  -- least the length less `pos`.
  unfoldable pub sink : ℕ → List A → ℕ → List A × ℕ
  sink zero xs pos = (xs, pos)
  sink (suc fuel) xs pos =
      let child = smaller_child xs pos in
      let rest = sink fuel (swap xs pos child) child in
      if ltb (2 * pos + 1) (length xs) then rest else (xs, pos)

  unfoldable pub siftup : List A → List A
  siftup xs = let (ys, pos) = sink (length xs) xs 0 in siftdown (length ys) ys pos

  unfoldable pub heappush : List A → A → List A
  heappush xs x = let ys = xs ++ x ∷ [] in siftdown (length xs) ys (length xs)

  -- `none` is the IndexError of an empty list.
  unfoldable pub heappop : List A → Option (A × List A)
  heappop [] = none
  heappop (x ∷ xs) = elim (front x xs) [
    | [] ↦ some (last x xs, [])
    | y ∷ ys ↦ some (y, siftup (last x xs ∷ ys))
  ]

  -- No item is less than its parent.
  abbrev pub IsHeap : List A → Type 0
  IsHeap xs = (i : ℕ) → 0 < i → i < length xs → at_rank xs (parent i) ≤ at_rank xs i
