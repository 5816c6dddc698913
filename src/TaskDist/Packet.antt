-- ===== src/TaskDist/Packet.antt =====
-- The packet of a task: its parts, their lengths, and the branches at its end.
use doge_connect.Structs.Fields.{drop_next, take_first}
use doge_connect.TestMiner.{read_sizes, read_branches, sum_sizes}
use doge_connect.TaskDist.{sum_lengths, concat, branch_sizes}
use doge_connect.Prelude.{
  ℕ, length, length-append, take-append, drop-append, le_value, to_le, length-to_le, le_value-to_le,
  ◌*◌, ◌^◌, ◌<◌, ◌≡◌, refl, ap, ap₂, ◌∙◌, List, [], ◌∷◌, ◌++◌, map, append_assoc, arith,
}

pub length-branch_sizes : (bs : List (List ℕ)) → length (branch_sizes bs) ≡ length bs * 4
unfolding branch_sizes
length-branch_sizes [] = refl
length-branch_sizes (b ∷ bs) = omega (
  arith,
  length-append (to_le 4 (length b)) (branch_sizes bs),
  length-to_le 4 (length b),
  length-branch_sizes bs,
)

pub length-concat : (bs : List (List ℕ)) → length (concat bs) ≡ sum_lengths bs
unfolding concat sum_lengths
length-concat [] = refl
length-concat (b ∷ bs) = omega (arith, length-append b (concat bs), length-concat bs)

pub read_sizes-branch_sizes :
    (bs : List (List ℕ)) (rest : List ℕ)
    → sum_lengths bs < 2 ^ 32
    → read_sizes (length bs) (branch_sizes bs ++ rest) ≡ map length bs
unfolding branch_sizes sum_lengths read_sizes
read_sizes-branch_sizes [] rest h = refl
read_sizes-branch_sizes (b ∷ bs) rest h =
    let size = to_le 4 (length b) in
    let four = length-to_le 4 (length b) in
    rw append_assoc (
      ap₂ ◌∷◌
        (ap le_value (take_first 4 size (branch_sizes bs ++ rest) four)
          ∙ le_value-to_le 4 (length b) (omega arith))
        (ap (read_sizes (length bs)) (drop_next 4 4 0 size (branch_sizes bs ++ rest) four refl)
          ∙ read_sizes-branch_sizes bs rest (omega arith)))

pub read_branches-concat :
    (bs : List (List ℕ)) (rest : List ℕ) → read_branches (map length bs) (concat bs ++ rest) ≡ bs
unfolding concat read_branches
read_branches-concat [] rest = refl
read_branches-concat (b ∷ bs) rest =
    rw (append_assoc, take-append b (concat bs ++ rest), drop-append b (concat bs ++ rest))
      (ap (◌∷◌ b) (read_branches-concat bs rest))

pub sum_sizes-lengths : (bs : List (List ℕ)) → sum_sizes (map length bs) ≡ sum_lengths bs
unfolding sum_sizes sum_lengths
sum_sizes-lengths [] = refl
sum_sizes-lengths (b ∷ bs) = omega (arith, sum_sizes-lengths bs)
