-- ===== src/Godot/Tree/Placer/Ends.antt =====
-- src/modules/godot/virtual_tree.cpp: the search of `placer::select` ends.
use observer_modules.Prelude.{
  ℕ, zero, suc, ◌+◌, ◌-◌, ◌≤◌, ◌<◌, ◌==◌, ◌≡◌, ◌≢◌, refl, subst, ◌∙◌, Bool, true, false, ◌||◌, List,
  [], ◌∷◌, ◌++◌, Option, none, some, if◌then◌else◌, ltb, length, length-append, Bool-cases, inl,
  inr, arith,
}
use observer_modules.Failure.{ok, throw, throw_if, tree_budget_error, ◌>>=◌, out_of_fuel}
use observer_modules.Failure.Halts.{Halts, Halts-bind}
use observer_modules.Godot.Tree.Host.{Host, TreeLimits, charge}
use observer_modules.Godot.Tree.Placer.{
  Placer, member, charge_name, taken, fits, find_suffix, remember_suffix, remember, candidate_at,
  select_loop, first_counter, select, accept, accept_rescued, accept_chosen, place,
}

module _ (host : Host) (limits : TreeLimits) where
  -- What the names are compared by: no name is the same as two different ones, and the names of one
  -- base with different suffixes are different.
  pub record IsOrdinal : Type 0 where
    pub agree :
        (a b x : List ℕ)
        → host.ordinal_equal a x ≡ true
        → host.ordinal_equal b x ≡ true
        → host.ordinal_equal a b ≡ true
    pub differ :
        (base : List ℕ) (i j : ℕ)
        → i < j
        → host.ordinal_equal
            (host.widen (candidate_at host limits base i))
            (host.widen (candidate_at host limits base j))
          ≡ false

  remove : List ℕ → List (List ℕ) → List (List ℕ)
  remove key [] = []
  remove key (name ∷ rest) = if host.ordinal_equal key name then rest else name ∷ remove key rest

  length-remove :
      (key : List ℕ) (names : List (List ℕ))
      → member host limits key names ≡ true
      → suc (length (remove key names)) ≡ length names
  unfolding remove member
  length-remove key [] h = cc
  length-remove key (name ∷ rest) h = ground (arith, length-remove key rest)

  member-remove :
      (key other : List ℕ) (names : List (List ℕ))
      → ((x : List ℕ)
          → host.ordinal_equal other x ≡ true
          → host.ordinal_equal key x ≡ true
          → host.ordinal_equal other key ≡ true)
      → host.ordinal_equal other key ≡ false
      → member host limits other names ≡ true
      → member host limits other (remove key names) ≡ true
  unfolding remove member
  member-remove key other [] agree apart h = cc
  member-remove key other (name ∷ rest) agree apart h =
      ground (arith, member-remove key other rest agree apart, agree name)

  member-append :
      (key : List ℕ) (files dirs : List (List ℕ))
      → member host limits key (files ++ dirs)
        ≡ (member host limits key files || member host limits key dirs)
  unfolding member
  member-append key [] dirs = refl
  member-append key (name ∷ rest) dirs = ground (arith, member-append key rest dirs)

  abbrev key_at : List ℕ → ℕ → List ℕ
  key_at base counter = host.widen (candidate_at host limits base counter)

  -- Names that are pairwise different and all taken are no more than there are names.
  all_taken :
      (law : IsOrdinal) (base : List ℕ) (start n : ℕ) (names : List (List ℕ))
      → ((k : ℕ) → k < n → member host limits (key_at base (start + k)) names ≡ true)
      → n ≤ length names
  all_taken law base start zero names h = omega arith
  all_taken law base start (suc n) names h = omega (
    arith,
    length-remove (key_at base (start + n)) names (h n (omega arith)),
    all_taken law base start n (remove (key_at base (start + n)) names) λ k low.
        member-remove (key_at base (start + n)) (key_at base (start + k)) names
          (law.agree (key_at base (start + k)) (key_at base (start + n)))
          (law.differ base (start + k) (start + n) (omega arith)) (h k (omega arith)),
  )

  pub charge-Halts : (bytes used : ℕ) → Halts (charge limits.max_metadata_bytes bytes used)
  unfolding charge Halts
  charge-Halts bytes used = go (ltb (limits.max_metadata_bytes - used) bytes)
    where
      go :
          (b : Bool) → (throw_if b tree_budget_error >>= λ u. ok (used + bytes)) ≢ throw out_of_fuel
      go true e = cc
      go false e = cc

  remember-Halts :
      (base : List ℕ) (counter : ℕ) (p : Placer) → Halts (remember host limits base counter p)
  unfolding remember remember_suffix Halts
  remember-Halts base counter p =
      go (ltb 1 counter) (find_suffix host limits (host.widen base) p.suffix_next)
    where
      go :
          (b : Bool) (o : Option ℕ)
          → (if b then remember_suffix host limits (host.widen base) counter p o else ok p)
            ≢ throw out_of_fuel
      go true none e =
          Halts-bind (charge limits.max_metadata_bytes _ p.used) _ (charge-Halts _ p.used)
            (λ used f. cc) e
      go true (some old) e = cc
      go false o e = cc

  select_loop-Halts :
      (law : IsOrdinal) (base : List ℕ) (start tries fuel : ℕ) (p : Placer)
      → fuel + tries ≡ suc (length p.files + length p.dirs)
      → ((k : ℕ)
          → k < tries
          → member host limits (key_at base (start + k)) (p.files ++ p.dirs) ≡ true)
      → Halts (select_loop host limits fuel base (start + tries) p)
  unfolding select_loop taken Halts
  select_loop-Halts law base start tries zero p sum h e =
      omega
        (arith, all_taken law base start tries (p.files ++ p.dirs) h, length-append p.files p.dirs)
  select_loop-Halts law base start tries (suc fuel) p sum h e =
      go (fits host limits candidate) (taken host limits candidate p) refl
        (λ met.
          subst (λ counter. Halts (select_loop host limits fuel base counter p)) (omega arith)
            (select_loop-Halts law base start (suc tries) fuel p (omega arith) (grown met)))
        e
    where
      candidate : List ℕ
      candidate = candidate_at host limits base (start + tries)

      grown :
          taken host limits candidate p ≡ true
          → (k : ℕ) → k < suc tries
          → member host limits (key_at base (start + k)) (p.files ++ p.dirs) ≡ true
      grown met k low = elim (Bool-cases (k == tries)) [
        | inl e ↦
            let same : tries ≡ k = ground arith in
            subst (λ j. member host limits (key_at base (start + j)) (p.files ++ p.dirs) ≡ true)
              same (member-append (key_at base (start + tries)) p.files p.dirs ∙ met)
        | inr e ↦ h k (ground arith)
      ]

      go :
          (f t : Bool)
          → taken host limits candidate p ≡ t
          → (taken host limits candidate p ≡ true
              → Halts (select_loop host limits fuel base (suc (start + tries)) p))
          → Halts {A = Option (List ℕ) × Placer} (elim f [
            | false ↦ ok (none, p)
            | true ↦ elim t [
              | false ↦
                  remember host limits base (suc (start + tries)) p >>= λ q. ok (some candidate, q)
              | true ↦ select_loop host limits fuel base (suc (start + tries)) p
            ]
          ])
      go false t met later e = cc
      go true false met later e =
          Halts-bind (remember host limits base (suc (start + tries)) p) _
            (remember-Halts base (suc (start + tries)) p) (λ q f. cc) e
      go true true met later e = later met e

  select-Halts : (law : IsOrdinal) (base : List ℕ) (p : Placer) → Halts (select host limits base p)
  unfolding select
  select-Halts law base p =
      subst
        (λ counter.
          Halts (select_loop host limits (suc (length p.files + length p.dirs)) base counter p))
        (omega arith)
        (select_loop-Halts law base
          (first_counter host limits (find_suffix host limits (host.widen base) p.suffix_next)) 0
          (suc (length p.files + length p.dirs)) p (omega arith) λ k low. absurd (omega arith))

  accept-Halts : (name : List ℕ) (p : Placer) → Halts (accept host limits name p)
  unfolding accept charge_name Halts
  accept-Halts name p =
      Halts-bind (charge limits.max_metadata_bytes _ p.used) _ (charge-Halts _ p.used) λ used e. cc

  -- The search for a free name ends, however many names are taken: a round for each name that is
  -- reserved and one more is enough, if the comparison of names tells the suffixed names of one base
  -- apart. So `place` gives a name away or throws an exception of the code.
  pub place_total :
      (law : IsOrdinal) (preferred fallback : List ℕ) (p : Placer)
      → place host limits preferred fallback p ≢ throw out_of_fuel
  unfolding place accept_chosen accept_rescued Halts
  place_total law preferred fallback p =
      Halts-bind (select host limits preferred p) _ (select-Halts law preferred p)
        λ (o, q). chosen o q
    where
      rescued :
          (o : Option (List ℕ)) (q : Placer) → accept_rescued host limits o q ≢ throw out_of_fuel
      rescued none q e = cc
      rescued (some name) q e = accept-Halts name q e

      chosen :
          (o : Option (List ℕ)) (q : Placer)
          → accept_chosen host limits fallback o q ≢ throw out_of_fuel
      chosen (some name) q = accept-Halts name q
      chosen none q =
          Halts-bind (select host limits fallback q) _ (select-Halts law fallback q)
            λ (o, r). rescued o r
