-- ===== src/Qcow/Cache.antt =====
-- The cache of L2 tables in hw/disk/qcow.c.
use kvmc.Prelude.{
  ℕ, ◌+◌, ◌*◌, ◌^◌, ◌≤◌, ◌≡◌, refl, sym, ap, List, [], ◌∷◌, ◌++◌, true, false, Option, none, some,
  arith, ◌==◌, if◌then◌else◌, length, drop, All, Bool-cases, Option-cases, inl, inr, length-append,
  length-drop,
}
use kvmc.Qcow.{
  File, Qcow, L2Table, l2_table_lookup, detach, l2_table_search, cache_table, table_of,
  qcow_read_l2_table,
}

-- What the file holds for an L2 table, if it can be read.
unfoldable pub disk_table : File → Qcow → ℕ → Option L2Table
disk_table f q offset = elim (f.read offset (2 ^ q.l2_bits * 8)) [
  | none ↦ none
  | some got ↦ some (table_of f got offset)
]

disk_table-none :
    (f : File) (q : Qcow) (offset : ℕ)
    → f.read offset (2 ^ q.l2_bits * 8) ≡ none
    → disk_table f q offset ≡ none
unfolding disk_table
disk_table-none f q offset n = ground (arith, n)

disk_table-some :
    (f : File) (q : Qcow) (offset got : ℕ)
    → f.read offset (2 ^ q.l2_bits * 8) ≡ some got
    → disk_table f q offset ≡ some (table_of f got offset)
unfolding disk_table
disk_table-some f q offset got n = rw (disk_table, n) refl

-- Every cached table is the one that the file holds at its offset.
abbrev pub IsCoherent : File → Qcow → List L2Table → Type 0
IsCoherent f q c = All (λ (t : L2Table). disk_table f q t.offset ≡ some t) c

module _ (P : L2Table → Type 0) where
  All-append : (xs : List L2Table) (t : L2Table) → All P xs → P t → All P (xs ++ (t ∷ []))
  All-append [] t h p = (p, tt)
  All-append (x ∷ xs) t h p = (h.0, All-append xs t h.1 p)

  All-detach : (xs : List L2Table) (offset : ℕ) → All P xs → All P (detach xs offset)
  unfolding detach
  All-detach [] offset h = tt
  All-detach (x ∷ xs) offset h =
      elim (x.offset == offset) as (λ b. All P (if b then xs else x ∷ detach xs offset)) [
        | true ↦ h.1
        | false ↦ (h.0, All-detach xs offset h.1)
      ]

  All-evict : (xs : List L2Table) → All P xs → All P (if length xs == 32 then drop 1 xs else xs)
  All-evict [] h = tt
  All-evict (x ∷ xs) h = elim (length (x ∷ xs) == 32) as (λ b. All P (if b then xs else x ∷ xs)) [
    | true ↦ h.1
    | false ↦ h
  ]

lookup_lem :
    (f : File) (q : Qcow) (c : List L2Table) (offset : ℕ) (t : L2Table)
    → IsCoherent f q c
    → l2_table_lookup c offset ≡ some t
    → (disk_table f q offset ≡ some t) × (t.offset ≡ offset)
unfolding l2_table_lookup
lookup_lem f q [] offset t h e = cc
lookup_lem f q (x ∷ c) offset t h e = elim (Bool-cases (x.offset == offset)) [
  | inl same ↦ let t_is : x ≡ t = cc in let at : x.offset ≡ offset = ground arith in (cc, cc)
  | inr other ↦ lookup_lem f q c offset t h.1 (ground arith)
]

length-detach :
    (c : List L2Table) (offset : ℕ) (t : L2Table)
    → l2_table_lookup c offset ≡ some t
    → length (detach c offset) + 1 ≡ length c
unfolding l2_table_lookup detach
length-detach [] offset t e = ground arith
length-detach (x ∷ c) offset t e = ground (arith, length-detach c offset t)

length-evict :
    (c : List L2Table) → length c ≤ 32 → length (if length c == 32 then drop 1 c else c) + 1 ≤ 32
length-evict c small = ground (arith, length-drop 1 c)

cache_table-length :
    (t : L2Table) (c : List L2Table) → length c ≤ 32 → length (cache_table t c) ≤ 32
unfolding cache_table
cache_table-length t c small =
    omega
      (arith, length-append (if length c == 32 then drop 1 c else c) (t ∷ []), length-evict c small)

-- What a read of an L2 table at an offset is to have done.
abbrev pub IsRead : File → Qcow → ℕ → Option L2Table × List L2Table → Type 0
IsRead f q offset r = (r.0 ≡ disk_table f q offset) × IsCoherent f q r.1 × (length r.1 ≤ 32)

module _ (f : File) (q : Qcow) (offset : ℕ) (c : List L2Table) where
  read-hit :
      (t : L2Table)
      → l2_table_lookup c offset ≡ some t
      → qcow_read_l2_table f q true offset c ≡ (some t, detach c offset ++ (t ∷ []))
  unfolding qcow_read_l2_table l2_table_search
  read-hit t e = ground arith

  read-unreadable :
      l2_table_lookup c offset ≡ none
      → f.read offset (2 ^ q.l2_bits * 8) ≡ none
      → qcow_read_l2_table f q true offset c ≡ (none, c)
  unfolding qcow_read_l2_table l2_table_search
  read-unreadable e n = ground arith

  search-miss : l2_table_lookup c offset ≡ none → l2_table_search offset c ≡ (none, c)
  unfolding l2_table_search
  search-miss e = ground arith

  read-miss :
      (got : ℕ)
      → l2_table_lookup c offset ≡ none
      → f.read offset (2 ^ q.l2_bits * 8) ≡ some got
      → qcow_read_l2_table f q true offset c
        ≡ (some (table_of f got offset), cache_table (table_of f got offset) c)
  unfolding qcow_read_l2_table
  read-miss got e n =
      rw (qcow_read_l2_table, search-miss e, n)
        (ap (λ s. (some (table_of f got offset), cache_table (table_of f got offset) s.1))
          (search-miss e))

-- The cache is transparent: with memory for a table and a coherent cache, `qcow_read_l2_table`
-- answers the table that the file holds, whether it is cached or not, and fails exactly if the file
-- cannot be read there. The cache stays coherent, and of at most 32 tables.
pub qcow_read_l2_table_lem :
    (f : File) (q : Qcow) (offset : ℕ) (c : List L2Table)
    → IsCoherent f q c
    → length c ≤ 32
    → IsRead f q offset (qcow_read_l2_table f q true offset c)
unfolding cache_table
qcow_read_l2_table_lem f q offset c h small = elim (Option-cases (l2_table_lookup c offset)) [
  | inl miss ↦ elim (Option-cases (f.read offset (2 ^ q.l2_bits * 8))) [
    | inl n ↦
        rw (read-unreadable f q offset c miss n) (sym (disk_table-none f q offset n), h, small)
    | inr (got, y) ↦ rw (read-miss f q offset c got miss y) (
      sym (disk_table-some f q offset got y),
      All-append _ _ _ (All-evict _ c h) (disk_table-some f q offset got y),
      cache_table-length _ c small,
    )
  ]
  | inr (t, hit) ↦
      let (there, at) = lookup_lem f q c offset t h hit in
      rw (read-hit f q offset c t hit) (
        sym there,
        All-append _ _ t (All-detach _ c offset h) cc,
        omega (arith, length-detach c offset t hit, length-append (detach c offset) (t ∷ [])),
      )
]
