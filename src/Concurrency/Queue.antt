-- ===== src/Concurrency/Queue.antt =====
-- `ConcurrentQueue<T>`: an `std::queue` as a list, its front first.
use doge_connect.Prelude.{Option, none, some, List, [], ◌∷◌, ◌++◌}

module _ {ℓ} {T : Type ℓ} where
  abbrev pub push : T → List T → List T
  push value queue = queue ++ value ∷ []

  -- Empty: `pop` would block.
  abbrev pub try_pop : List T → Option (T × List T)
  try_pop [] = none
  try_pop (value ∷ queue) = some (value, queue)

  -- `pop`: it blocks while the queue is empty.
  abbrev pub pop : List T → Option (T × List T)
  pop = try_pop

  abbrev pub clear : List T → List T
  clear queue = []
