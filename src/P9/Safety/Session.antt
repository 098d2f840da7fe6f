-- ===== src/P9/Safety/Session.antt =====
-- The table of fids and the replies, as actions that keep the server safe.
use kvmc.Prelude.{
  ℕ, zero, suc, ◌≡◌, refl, sym, ap, ◌∙◌, List, [], ◌∷◌, ◌++◌, false, Option, some, arith, All,
  get_elem?, set, append_assoc, append-nil,
}
use mathlib.Core.Path.{subst}
use kvmc.P9Pdu
use kvmc.P9Pdu.{Arg, Format, Decoded, Value}
use kvmc.P9.{Text, Fid, P9, get_state, deref, modify, ◌>>=◌}
use kvmc.P9.Paths.{FullPath, full, refused, get_full_path_helper}
use kvmc.P9.Paths.Components.{climbs, climbs-append, path_is_illegal-climbs}
use kvmc.P9.Fids.{load_fid, update_fid, abs_path, join_path}
use kvmc.P9.Replies.{writef, seek_read, seek_write, current_offset, raised, get_full_path}
use kvmc.P9.Safety.{
  Rooted, Inside, FidInside, IsSafe, Anything, Keeps, Keeps-pure, Keeps-raise_errno, Keeps-deref,
  Keeps-get_state, Keeps-modify, Keeps-bind, keeps_rules, Keeps-then,
}

some-injective : {A : Type 0} {x y : A} → some x ≡ some y → x ≡ y
some-injective e = cc

module _ {A : Type 0} (P : A → Type 0) where
  pub All-get : (xs : List A) (i : ℕ) (x : A) → All P xs → get_elem? xs i ≡ some x → P x
  All-get [] i x h e = cc
  All-get (y ∷ xs) zero x h e = subst P (some-injective e) h.0
  All-get (y ∷ xs) (suc i) x h e = All-get xs i x h.1 e

  pub All-set : (xs : List A) (i : ℕ) (x : A) → All P xs → P x → All P (set xs i x)
  All-set [] i x h p = tt
  All-set (y ∷ xs) zero x h p = (p, h.1)
  All-set (y ∷ xs) (suc i) x h p = (h.0, All-set xs i x h.1 p)

  pub All-append : (xs : List A) (x : A) → All P xs → P x → All P (xs ++ (x ∷ []))
  All-append [] x h p = (p, tt)
  All-append (y ∷ xs) x h p = (h.0, All-append xs x h.1 p)

pub no_climb : climbs [] ≡ false
unfolding climbs
no_climb = refl

-- A name behind a directory and a slash, if the whole is not refused.
pub full-climbs :
    (dirname name path : Text)
    → get_full_path_helper dirname name ≡ full path
    → (path ≡ dirname ++ (47 ∷ name)) × (climbs path ≡ false)
unfolding get_full_path_helper
full-climbs dirname name path e = ground (arith, path_is_illegal-climbs (dirname ++ (47 ∷ name)))

pub Rooted-slash : (s name : Text) → Rooted s → Rooted (s ++ (47 ∷ name))
Rooted-slash [] name h = refl
Rooted-slash (c ∷ s) name h = h

module _ {H : Type 0} {root : Text} {I : H → Type 0} where
  pub with_pdu : (s : P9 H) (p : P9Pdu.Pdu) → IsSafe root I s → IsSafe root I (record s { pdu = p })
  with_pdu s p h = record { same_root = h.same_root; inside = h.inside; kept = h.kept }

  with_store :
      (s : P9 H) (c : List Fid)
      → IsSafe root I s
      → All FidInside c
      → IsSafe root I (record s { store = c })
  with_store s c h i = record { same_root = h.same_root; inside = i; kept = h.kept }

  pub Keeps-root : Keeps root I (λ r. r ≡ root) (get_state (λ s. s.root_dir))
  unfolding get_state
  Keeps-root = record { at = λ s h. (h, h.same_root) }

  pub Keeps-deref_any : {A : Type 0} (o : Option A) → Keeps {H = H} root I Anything (deref o)
  Keeps-deref_any o = Keeps-deref o (λ a e. tt)

  pub Keeps-load_fid : (p : ℕ) → Keeps root I FidInside (load_fid p)
  unfolding load_fid ◌>>=◌
  Keeps-load_fid p = record {
    at = λ s h.
        (Keeps-deref (get_elem? s.store p) (λ c e. All-get FidInside s.store p c h.inside e)).at s
          h;
  }

  pub Keeps-update_fid :
      (p : ℕ) (f : Fid → Fid)
      → ((c : Fid) → FidInside c → FidInside (f c))
      → Keeps root I Anything (update_fid p f)
  unfolding update_fid
  Keeps-update_fid p f k = Keeps-bind (load_fid p) _ (Keeps-load_fid p) (λ c i. record {
    at = λ s h.
        unfold modify in
        (with_store s _ h (All-set FidInside s.store p (f c) h.inside (k c i)), tt);
  })

  pub Keeps-abs_path : (p : ℕ) → Keeps root I (Inside root) (abs_path p)
  unfolding abs_path
  Keeps-abs_path p = Keeps-bind _ _ (Keeps-load_fid p) (λ c i.
      Keeps-bind _ _ Keeps-root
        (λ r e. Keeps-pure (r ++ c.path) (c.path, ap (λ t. t ++ c.path) e, i.0, i.1)))

  pub Keeps-join_path :
      (p : ℕ) (name : Text)
      → Rooted name
      → climbs name ≡ false
      → Keeps root I Anything (join_path p name)
  unfolding join_path
  Keeps-join_path p name r c = Keeps-then _ _ (Keeps-get_state _) (λ size.
      search (keeps_rules, Keeps-update_fid p (λ c. record c { path = name }) (λ _ _. (r, c))))

  pub Keeps-writef : (args : List Arg) → Keeps root I Anything (writef args)
  unfolding writef
  Keeps-writef args = Keeps-modify _ (λ s. refl) (λ s. refl) (λ s. refl)

  pub Keeps-seek_read : (offset : ℕ) → Keeps root I Anything (seek_read offset)
  unfolding seek_read
  Keeps-seek_read offset = Keeps-modify _ (λ s. refl) (λ s. refl) (λ s. refl)

  pub Keeps-seek_write : (offset : ℕ) → Keeps root I Anything (seek_write offset)
  unfolding seek_write
  Keeps-seek_write offset = Keeps-modify _ (λ s. refl) (λ s. refl) (λ s. refl)

  pub Keeps-current_offset : Keeps root I Anything current_offset
  unfolding current_offset
  Keeps-current_offset = Keeps-get_state _

  -- A full path is below the root, and the name behind the directory does not climb.
  pub Keeps-get_full_path :
      (p : ℕ) (name : Text) → Keeps root I (Inside root) (get_full_path p name)
  unfolding get_full_path
  Keeps-get_full_path p name =
      Keeps-bind (abs_path p) _ (Keeps-abs_path p)
        (λ dirname i. raised_full dirname i (get_full_path_helper dirname name) refl)
    where
      raised_full :
          (dirname : Text)
          → Inside root dirname
          → (f : FullPath) → get_full_path_helper dirname name ≡ f
          → Keeps root I (Inside root) (raised f)
      raised_full dirname (rest, at, r, c) (full path) e =
          let (whole, flat) = full-climbs dirname name path e in
          let split : path ≡ root ++ (rest ++ (47 ∷ name)) =
            whole ∙ ap (λ d. d ++ (47 ∷ name)) at ∙ append_assoc root rest (47 ∷ name) in
          Keeps-pure path (
            rest ++ (47 ∷ name),
            split,
            Rooted-slash rest name r,
            climbs-append root (rest ++ (47 ∷ name)) (ap climbs (sym split) ∙ flat),
          )
      raised_full dirname i (refused n) e = Keeps-raise_errno n

  -- The root directory itself.
  pub Keeps-root_path : Keeps root I (Inside root) (get_state (λ s. s.root_dir))
  unfolding get_state
  Keeps-root_path = record {
    at = λ s h. (h, ([], h.same_root ∙ sym (append-nil root), tt, no_climb));
  }
