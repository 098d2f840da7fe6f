-- ===== src/Interval/Order.antt =====
-- Ordered sequences of intervals: splitting at a node, and a linear scan for a point.
use kvmc.Prelude.{
  ℕ, ◌≤◌, ◌<◌, ◌≡◌, refl, List, [], ◌∷◌, ◌++◌, Option, none, some, arith, if◌then◌else◌,
}
use kvmc.Interval.{IntNode, Within, contains}

module _ {V : Type 0} where
  pub Within-le : (lo hi : ℕ) (xs : List (IntNode V)) → Within lo hi xs → lo ≤ hi
  Within-le lo hi [] w = w
  Within-le lo hi (x ∷ xs) w = omega (arith, Within-le x.high hi xs w.2)

  pub Within-split :
      (lo hi : ℕ) (xs : List (IntNode V)) (x : IntNode V) (ys : List (IntNode V))
      → Within lo hi (xs ++ (x ∷ ys))
      → Within lo x.low xs × (x.low ≤ x.high) × Within x.high hi ys
  Within-split lo hi [] x ys w = w
  Within-split lo hi (z ∷ xs) x ys w =
      let (a, b, c) = Within-split z.high hi xs x ys w.2 in ((w.0, w.1, a), b, c)

  pub Within-join :
      (lo hi : ℕ) (xs : List (IntNode V)) (x : IntNode V) (ys : List (IntNode V))
      → Within lo x.low xs
      → x.low ≤ x.high
      → Within x.high hi ys
      → Within lo hi (xs ++ (x ∷ ys))
  Within-join lo hi [] x ys a b c = (a, b, c)
  Within-join lo hi (z ∷ xs) x ys a b c = (a.0, a.1, Within-join z.high hi xs x ys a.2 b c)

  pub Within-widen :
      (lo lo' hi : ℕ) (xs : List (IntNode V)) → lo' ≤ lo → Within lo hi xs → Within lo' hi xs
  Within-widen lo lo' hi [] h w = omega arith
  Within-widen lo lo' hi (x ∷ xs) h w = (omega arith, w.1, w.2)

  -- The first interval of the sequence that contains the point.
  unfoldable pub find : ℕ → List (IntNode V) → Option (IntNode V)
  find p [] = none
  find p (x ∷ xs) = if contains x p then some x else find p xs

  pub find_below :
      (p lo hi : ℕ) (xs : List (IntNode V)) → Within lo hi xs → p < lo → find p xs ≡ none
  unfolding find
  find_below p lo hi [] w h = refl
  find_below p lo hi (x ∷ xs) w h = ground (arith, find_below p x.high hi xs)

  pub find_above :
      (p lo hi : ℕ) (xs : List (IntNode V)) → Within lo hi xs → hi ≤ p → find p xs ≡ none
  unfolding find
  find_above p lo hi [] w h = refl
  find_above p lo hi (x ∷ xs) w h =
      ground (arith, Within-le x.high hi xs, find_above p x.high hi xs)

  abbrev pub or_else : Option (IntNode V) → Option (IntNode V) → Option (IntNode V)
  or_else none b = b
  or_else (some a) b = some a

  pub find-append :
      (p : ℕ) (xs ys : List (IntNode V)) → find p (xs ++ ys) ≡ or_else (find p xs) (find p ys)
  unfolding find
  find-append p [] ys = refl
  find-append p (x ∷ xs) ys = ground (arith, find-append p xs ys)
