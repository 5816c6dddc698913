-- ===== src/TaskDist/Latest.antt =====
-- Messages of a kind in the queue that dispatcher/src/threads/task_dist_thread.cpp drains.
use doge_connect.Prelude.{All, ◌≡◌, refl, ap, ◌∙◌, ◌⊎◌, inl, inr, List, [], ◌∷◌, ◌++◌}

abbrev pub Has : {Json : Type 0} → (Json → Type 0) → List Json → Type 0
Has P [] = ⊥
Has P (m ∷ messages) = P m ⊎ Has P messages

-- `x` is what the last message of the kind `P` gives, and `x0` where there is none.
pub data LatestOf {Json X : Type 0} (P : Json → Type 0) (gives : Json → X → Type 0) (x0 x : X)
    (messages : List Json) : Type 0 where
  no_message : All (λ m. ¬ P m) messages → x ≡ x0 → LatestOf P gives x0 x messages
  last_message :
      (before : List Json) (m : Json) (later : List Json)
      → messages ≡ before ++ m ∷ later
      → P m
      → All (λ m'. ¬ P m') later
      → gives m x
      → LatestOf P gives x0 x messages

pub LatestOf-later :
    {Json X : Type 0} (P : Json → Type 0) (gives : Json → X → Type 0) (x0 x1 x : X) (m : Json)
    (messages : List Json)
    → ((¬ P m) × (x1 ≡ x0)) ⊎ (P m × gives m x1)
    → LatestOf P gives x1 x messages
    → LatestOf P gives x0 x (m ∷ messages)
LatestOf-later P gives x0 x1 x m messages (inl (other, same)) (no_message rest e) =
    no_message (other, rest) (e ∙ same)
LatestOf-later P gives x0 x1 x m messages (inr (here, given)) (no_message rest e) =
    last_message [] m messages refl here rest (rw e given)
LatestOf-later P gives x0 x1 x m messages step (last_message before m' later e here rest given) =
    last_message (m ∷ before) m' later (ap (◌∷◌ m) e) here rest given
