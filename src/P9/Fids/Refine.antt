-- ===== src/P9/Fids/Refine.antt =====
-- Opening and closing fids, as changes of the map from numbers to pointers.
use kvmc.Prelude.{
  ℕ, ◌^◌, ◌<◌, ◌≡◌, refl, sym, ap, ◌∙◌, List, [], ◌∷◌, ◌++◌, true, Option, none, some, arith, ltb,
  ◌==◌, ◌&&◌, if◌then◌else◌, length, get_elem?,
}
use kvmc.P9.{Fid, Node, Host, P9, ok, pure, get_state, ask, deref, modify, run_host, ◌>>=◌}
use kvmc.P9.Paths.{path_max}
use kvmc.P9.Fids.{
  FidBalance, search_fid, add_fid, new_fid, insert_new_fid, find_or_create_fid, get_fid, load_fid,
  close_fid,
}
use kvmc.P9.Fids.Table.{IsTable}
use kvmc.P9.Fids.Erase.{erase-search_fid}
use kvmc.P9.Fids.Insert.{insert_new_fid-search}

-- The structures after a search: a new one where nothing was found.
abbrev pub stored : Option ℕ → ℕ → List Fid → List Fid
stored none fid store = store ++ (new_fid fid ∷ [])
stored (some p) fid store = store

module _ {H : Type 0} (os : Host H) (tree : FidBalance) where
  get_fid-found :
      (s : P9 H) (fid p : ℕ) → search_fid s.fids fid ≡ some p → get_fid os tree fid s ≡ (ok p, s)
  unfolding get_fid find_or_create_fid get_state deref pure ◌>>=◌
  get_fid-found s fid p e = ground (arith, e)

  abbrev opened : P9 H → ℕ → H → P9 H
  opened s fid h = record s {
    store = s.store ++ (new_fid fid ∷ []);
    fids = insert_new_fid tree (record { key = fid; at = length s.store }) s.fids;
    host = h;
  }

  get_fid-new :
      (s : P9 H) (fid : ℕ) (h : H)
      → search_fid s.fids fid ≡ none
      → length s.root_dir < path_max
      → os.calloc s.host ≡ (true, h)
      → get_fid os tree fid s ≡ (ok (length s.store), opened s fid h)
  unfolding get_fid find_or_create_fid add_fid get_state ask deref pure ◌>>=◌
  get_fid-new s fid h e short given = ground (arith, e, given)

  -- `get_fid` on a table whose numbers are below 2 ^ 31, where memory is left: the
  -- number is found afterwards under the pointer that is returned, and every other number as before.
  -- A new fid, which stands for the root directory, is stored exactly where the number was not found.
  pub get_fid_lem :
      (s : P9 H) (fid : ℕ) (h : H)
      → IsTable s.fids
      → fid < 2 ^ 31
      → length s.root_dir < path_max
      → os.calloc s.host ≡ (true, h)
      → (p : ℕ) × (s' : P9 H) × (get_fid os tree fid s ≡ (ok p, s'))
        × IsTable s'.fids
        × ((g : ℕ) → search_fid s'.fids g ≡ (if fid == g then some p else search_fid s.fids g))
        × (s'.store ≡ stored (search_fid s.fids fid) fid s.store)
  get_fid_lem s fid h table lt short given = by_search (search_fid s.fids fid) refl
    where
      by_search :
          (o : Option ℕ)
          → search_fid s.fids fid ≡ o
          → (p : ℕ) × (s' : P9 H) × (get_fid os tree fid s ≡ (ok p, s'))
            × IsTable s'.fids
            × ((g : ℕ) → search_fid s'.fids g ≡ (if fid == g then some p else search_fid s.fids g))
            × (s'.store ≡ stored (search_fid s.fids fid) fid s.store)
      by_search (some p) e = (
        p,
        s,
        get_fid-found s fid p e,
        table,
        (λ g. ground (arith, e)),
        ap (λ o. stored o fid s.store) (sym e),
      )
      by_search none e =
          let n : Node = record { key = fid; at = length s.store } in
          let (table', found) = insert_new_fid-search tree s.fids n table lt e in
          (
            length s.store,
            opened s fid h,
            get_fid-new s fid h e short given,
            table',
            found,
            ap (λ o. stored o fid s.store) (sym e),
          )

  -- What `close_fid` does with the descriptor and the stream of a fid.
  abbrev pub released : Fid → H → H
  released c h =
      let h' = if ltb 0 c.fd && ltb c.fd (2 ^ 31) then os.close c.fd h else h in
      if c.dir == 0 then h' else os.closedir c.dir h'

  close_fid-at :
      (s : P9 H) (fid p : ℕ) (c : Fid)
      → search_fid s.fids fid ≡ some p
      → get_elem? s.store p ≡ some c
      → close_fid os tree fid s ≡ (
        ok tt,
        record s {
          fids = tree.erase (record { key = c.fid; at = p }) s.fids;
          host = released c s.host;
        },
      )
  unfolding close_fid get_fid find_or_create_fid load_fid get_state deref pure run_host modify ◌>>=◌
  close_fid-at s fid p c e f = ground (arith, e, f)

  -- Closing a number of the table closes the descriptor and the stream that its fid has opened, and
  -- leaves a table without the number, in which every other number keeps its pointer.
  pub close_fid_lem :
      (s : P9 H) (fid p : ℕ) (c : Fid)
      → IsTable s.fids
      → search_fid s.fids fid ≡ some p
      → get_elem? s.store p ≡ some c
      → c.fid ≡ fid
      → (s' : P9 H) × (close_fid os tree fid s ≡ (ok tt, s'))
        × IsTable s'.fids
        × ((g : ℕ) → search_fid s'.fids g ≡ (if fid == g then none else search_fid s.fids g))
        × (s'.host ≡ released c s.host)
  close_fid_lem s fid p c table e f own =
      let at : close_fid os tree fid s ≡ (ok tt, closed fid) =
        close_fid-at s fid p c e f ∙ ap (λ k. (ok tt, closed k)) own in
      let (table', found) = erase-search_fid tree s.fids fid p table e in
      (closed fid, at, table', found, refl)
    where
      closed : ℕ → P9 H
      closed k = record s {
        fids = tree.erase (record { key = k; at = p }) s.fids;
        host = released c s.host;
      }
