-- ===== src/Structs/Fields.antt =====
-- Members of a packed struct, found behind parts of known length.
use doge_connect.Structs.{field_at}
use doge_connect.Prelude.{
  ℕ, length, take, drop, take-append, drop-append, drop-drop, ◌+◌, ◌≡◌, sym, ap, ◌∙◌, List, ◌++◌,
}

-- A field behind a prefix of known length.
pub field_behind :
    (n k : ℕ) (xs ys zs : List ℕ)
    → length xs ≡ n
    → length ys ≡ k
    → field_at n k (xs ++ (ys ++ zs)) ≡ ys
field_behind n k xs ys zs hx hy = rw (← hx, ← hy, drop-append xs (ys ++ zs)) (take-append ys zs)

-- What follows a prefix of known length.
pub drop_next :
    (o n m : ℕ) (xs ys : List ℕ) → length xs ≡ n → o ≡ n + m → drop o (xs ++ ys) ≡ drop m ys
drop_next o n m xs ys hx e =
    rw e (sym (drop-drop m n (xs ++ ys)) ∙ ap (drop m) (rw (← hx) (drop-append xs ys)))

pub take_first : (k : ℕ) (ys zs : List ℕ) → length ys ≡ k → take k (ys ++ zs) ≡ ys
take_first k ys zs h = rw (← h) (take-append ys zs)
