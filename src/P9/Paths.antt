-- ===== src/P9/Paths.antt =====
-- hw/virtio/9p.c: path names.
pub mod Components
use kvmc.Prelude.{
  ℕ, zero, suc, ◌+◌, ◌-◌, ◌*◌, List, [], ◌∷◌, ◌++◌, Bool, true, false, ltb, leb, ◌==◌, ◌&&◌, ◌||◌,
  if◌then◌else◌, length, drop,
}
use kvmc.P9.{Text}

abbrev pub path_max : ℕ
path_max = 4096

-- `strcmp(a, b) == 0`
abbrev pub equal : Text → Text → Bool
equal [] [] = true
equal [] (y ∷ b) = false
equal (x ∷ a) [] = false
equal (x ∷ a) (y ∷ b) = x == y && equal a b

-- `strncmp(s, prefix, strlen(prefix)) == 0`
abbrev pub starts_with : Text → Text → Bool
starts_with [] s = true
starts_with (x ∷ prefix) [] = false
starts_with (x ∷ prefix) (y ∷ s) = x == y && starts_with prefix s

-- `strstr(s, needle) != NULL`
abbrev pub strstr : Text → Text → Bool
strstr [] needle = starts_with needle []
strstr (x ∷ s) needle = starts_with needle (x ∷ s) || strstr s needle

-- What C sees of bytes with a NUL after them.
abbrev pub c_string : List ℕ → Text
c_string [] = []
c_string (x ∷ s) = let rest = c_string s in if x == 0 then [] else x ∷ rest

-- "/../" and "/.."
abbrev pub up_inside : Text
up_inside = 47 ∷ 46 ∷ 46 ∷ 47 ∷ []

abbrev pub up_at_end : Text
up_at_end = 47 ∷ 46 ∷ 46 ∷ []

unfoldable pub path_is_illegal : Text → Bool
path_is_illegal path =
    if strstr path up_inside
    then true
    else (let len = length path in
        if leb 3 len && equal (drop (len - 3) path) up_at_end then true else false)

-- `get_full_path_helper` and `get_full_path`: the name, or `errno` (ENAMETOOLONG is 36, EACCES 13).
pub data FullPath : Type 0 where
  full : Text → FullPath
  refused : ℕ → FullPath

unfoldable pub get_full_path_helper : Text → Text → FullPath
get_full_path_helper dirname name =
    let full_path = dirname ++ (47 ∷ name) in
    if leb path_max (length full_path)
    then refused 36
    else (if path_is_illegal full_path then refused 13 else full full_path)

-- `virtio_p9_ancestor`; the byte after the end is NUL.
unfoldable pub virtio_p9_ancestor : Text → Text → Bool
virtio_p9_ancestor path ancestor =
    if starts_with ancestor path
    then (elim (drop (length ancestor) path) [ [] ↦ true | c ∷ rest ↦ c == 47 ])
    else false
