-- ===== src/Sort/Merge.antt =====
-- demos/sort_demo/linux/merge.c. A pointer into a buffer is the list of the words from it to the
-- buffer's end. `none` is an access out of bounds, a division by zero or a recursion cut off.
pub mod Runs
pub mod Blocks
pub mod Recursion
pub mod Odd
use reconos_v.Base.{ℕ, zero, suc, ◌+◌, ◌*◌, ◌/◌, ◌%◌, ◌^◌, Bool, true, false}
use reconos_v.Base.{Option, none, some, List, [], ◌∷◌, ◌++◌, if◌then◌else◌, leb, ◌==◌}
use reconos_v.Base.{take, drop, length}
use reconos_v.Base.Maybe.{◌>>=◌}

abbrev pub deref : List ℕ → Option ℕ
deref [] = none
deref (x ∷ buffer) = some x

abbrev pub compare_heads : (left right : List ℕ) → Option Bool
compare_heads left right = do x ← deref left; y ← deref right; some (leb x y)

-- The test of the merge loop. C reads `*left` and `*right` only when both runs have words left.
unfoldable pub from_left : (blocksize l r : ℕ) (left right : List ℕ) → Option Bool
from_left b l r left right =
    if leb b r then some true else if leb b l then some false else compare_heads left right

-- The `while` loop, `todo` words from its end: the words that it writes from `result` on.
unfoldable pub merge_loop : (todo blocksize l r : ℕ) (left right : List ℕ) → Option (List ℕ)
merge_loop zero b l r left right = some []
merge_loop (suc todo) b l r left right = do
  test ← from_left b l r left right
  word ← deref (if test then left else right)
  rest ←
      merge_loop todo b (if test then l + 1 else l) (if test then r else r + 1)
        (if test then drop 1 left else left) (if test then right else drop 1 right)
  some (word ∷ rest)

unfoldable pub simple_merge : (blocksize : ℕ) (left right : List ℕ) → Option (List ℕ)
simple_merge b left right = merge_loop (b * 2 % 2 ^ 32) b 0 0 left right

-- Words written into a buffer from an index on.
unfoldable pub write_at : (index : ℕ) (words buffer : List ℕ) → Option (List ℕ)
write_at index words buffer =
    if leb (index + length words) (length buffer)
    then some (take index buffer ++ (words ++ drop (index + length words) buffer))
    else none

abbrev pub MergeFun : Type 0
MergeFun = (blocksize : ℕ) (left right : List ℕ) → Option (List ℕ)

-- The `for` loop of `recursive_merge`, `todo` iterations from its end.
unfoldable pub merge_blocks :
    (todo i blocksize : ℕ) (source result : List ℕ) → MergeFun → Option (List ℕ)
merge_blocks zero i b source result mergefun = some result
merge_blocks (suc todo) i b source result mergefun = do
  words ← mergefun b (drop (i * b % 2 ^ 32) source) (drop ((i + 1) * b % 2 ^ 32) source)
  written ← write_at (i * b % 2 ^ 32) words result
  merge_blocks todo (i + 2) b source written mergefun

-- The whole `for` loop. The block size is not 0, and the loop ends: `none` is an access out of bounds.
abbrev pub merge_pass : (size blocksize : ℕ) (source result : List ℕ) → MergeFun → Option (List ℕ)
merge_pass size b source result mergefun =
    merge_blocks ((size / b + 1) / 2) 0 b source result mergefun

-- The buffer that the returned pointer shows. The first argument bounds the depth of the recursion.
unfoldable pub recursive_merge :
    (fuel : ℕ) (source result : List ℕ) (size blocksize : ℕ) → MergeFun → Option (List ℕ)
recursive_merge zero source result size b mergefun = none
recursive_merge (suc fuel) source result size zero mergefun =
    if size == 0 then some source else none
recursive_merge (suc fuel) source result size (suc b') mergefun =
    let b = suc b' in
    let merged = merge_pass size b source result mergefun in
    let deeper = merged >>= λ m. recursive_merge fuel m source size (b * 2 % 2 ^ 32) mergefun in
    if size == b then some source else deeper
