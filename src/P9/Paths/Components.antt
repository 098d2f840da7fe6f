-- ===== src/P9/Paths/Components.antt =====
-- The test for illegal paths, against the components of a path.
use kvmc.Prelude.{
  ℕ, suc, ◌-◌, ◌≡◌, refl, ◌∙◌, List, [], ◌∷◌, ◌++◌, Bool, false, arith, leb, ◌==◌, ◌&&◌, ◌||◌,
  if◌then◌else◌, length, drop,
}
use kvmc.P9.{Text}
use kvmc.P9.Paths.{equal, strstr, up_inside, up_at_end, path_is_illegal}

-- The text before the first slash, and the texts between the slashes after it.
abbrev pub components : Text → Text × List Text
components [] = ([], [])
components (c ∷ s) = let (w, ws) = components s in if c == 47 then ([], w ∷ ws) else (c ∷ w, ws)

-- A component is "..".
abbrev pub is_up : Text → Bool
is_up w = equal w (46 ∷ 46 ∷ [])

abbrev pub any_up : List Text → Bool
any_up [] = false
any_up (w ∷ ws) = is_up w || any_up ws

-- The same by recursion on the bytes.
unfoldable pub up_next : Text → Bool
up_next (a ∷ b ∷ []) = a == 46 && b == 46
up_next (a ∷ b ∷ c ∷ s) = a == 46 && (b == 46 && (c == 47))
up_next s = false

unfoldable pub climbs : Text → Bool
climbs [] = false
climbs (c ∷ s) = (c == 47 && up_next s) || climbs s

up_next-components : (s : Text) → up_next s ≡ is_up (components s).0
unfolding up_next
up_next-components [] = refl
up_next-components (a ∷ []) = ground arith
up_next-components (a ∷ b ∷ []) = ground arith
up_next-components (a ∷ b ∷ c ∷ s) = ground arith

pub climbs-components : (s : Text) → climbs s ≡ any_up (components s).1
unfolding climbs
climbs-components [] = refl
climbs-components (c ∷ s) = ground (arith, climbs-components s, up_next-components s)

-- "/.." at the end.
ends_up : Text → Bool
ends_up s = leb 3 (length s) && equal (drop (length s - 3) s) up_at_end

-- `4 + n - 3` and `3 + n - 3`
less_three : (n : ℕ) → suc (suc (suc (suc n))) - 3 ≡ suc n
less_three n = omega arith

less_three' : (n : ℕ) → suc (suc (suc n)) - 3 ≡ n
less_three' n = omega arith

ends_up-long : (a b c d : ℕ) (s : Text) → ends_up (a ∷ b ∷ c ∷ d ∷ s) ≡ ends_up (b ∷ c ∷ d ∷ s)
unfolding ends_up
ends_up-long a b c d s = rw (less_three (length s)) (rw (less_three' (length s)) (ground arith))

climbs-parts : (s : Text) → climbs s ≡ (strstr s up_inside || ends_up s)
unfolding climbs up_next
climbs-parts [] = unfold ends_up in refl
climbs-parts (a ∷ []) = unfold ends_up in ground arith
climbs-parts (a ∷ b ∷ []) = unfold ends_up in ground arith
climbs-parts (a ∷ b ∷ c ∷ []) = unfold ends_up in ground arith
climbs-parts (a ∷ b ∷ c ∷ d ∷ s) =
    ground (arith, climbs-parts (b ∷ c ∷ d ∷ s), ends_up-long a b c d s)

pub path_is_illegal-climbs : (s : Text) → path_is_illegal s ≡ climbs s
unfolding path_is_illegal ends_up
path_is_illegal-climbs s = ground (arith, climbs-parts s)

-- A path is refused exactly when a component behind its first slash is "..".
pub path_is_illegal_lem : (path : Text) → path_is_illegal path ≡ any_up (components path).1
path_is_illegal_lem path = path_is_illegal-climbs path ∙ climbs-components path

-- What follows some text climbs only if the whole does.
pub climbs-append : (a b : Text) → climbs (a ++ b) ≡ false → climbs b ≡ false
unfolding climbs
climbs-append [] b h = h
climbs-append (c ∷ a) b h = climbs-append a b (ground arith)

pub climbs-slash : (s : Text) → climbs (47 ∷ s) ≡ false → climbs s ≡ false
unfolding climbs
climbs-slash s h = ground arith
