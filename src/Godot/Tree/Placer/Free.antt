-- ===== src/Godot/Tree/Placer/Free.antt =====
-- src/modules/godot/virtual_tree.cpp: the names that `placer::place` gives away.
use observer_modules.Prelude.{
  ℕ, zero, suc, ◌+◌, ◌-◌, ◌≤◌, ◌≡◌, refl, sym, ◌∙◌, Bool, true, false, List, ◌∷◌, Option, none,
  some, ltb, length, ||-eq-false, arith,
}
use observer_modules.Failure.{ok, ◌>>=◌}
use observer_modules.Failure.Ensures.{
  Ensures, Ensures-ok, Ensures-throw, Ensures-if, Ensures-bind, Ensures-guard, Ensures-weaken,
}
use observer_modules.Godot.Tree.Host.{Host, TreeLimits, charge}
use observer_modules.Godot.Tree.Placer.{
  Placer, member, insert_key, charge_name, taken, fits, find_suffix, remember_suffix, remember,
  candidate_at, select_loop, first_counter, select, accept, accept_rescued, accept_chosen, place,
}

pub charge-Ensures :
    (limit bytes used : ℕ)
    → used ≤ limit
    → Ensures (λ after. (after ≡ used + bytes) × (after ≤ limit)) (charge limit bytes used)
unfolding charge
charge-Ensures limit bytes used h =
    Ensures-guard (ltb (limit - used) bytes) _ _ λ e. Ensures-ok (refl, ground arith)

module _ (host : Host) (limits : TreeLimits) where
  -- The budget is charged, and no name is reserved.
  pub record Charged (p q : Placer) : Type 0 where
    pub files : q.files ≡ p.files
    pub dirs : q.dirs ≡ p.dirs
    pub grows : p.used ≤ q.used
    pub bounded : q.used ≤ limits.max_metadata_bytes

  -- A name that is free and not too long, unless there is none.
  abbrev pub IsFree : Placer → Option (List ℕ) → Type 0
  IsFree p none = Unit
  IsFree p (some name) = (taken host limits name p ≡ false) × (fits host limits name ≡ true)

  remember-Charged :
      (base : List ℕ) (counter : ℕ) (p : Placer)
      → p.used ≤ limits.max_metadata_bytes
      → Ensures (Charged p) (remember host limits base counter p)
  unfolding remember remember_suffix
  remember-Charged base counter p h =
      Ensures-if (ltb 1 counter) (λ e. go (find_suffix host limits (host.widen base) p.suffix_next))
        λ e. Ensures-ok (record { files = refl; dirs = refl; grows = omega arith; bounded = h })
    where
      go :
          (o : Option ℕ)
          → Ensures (Charged p) (remember_suffix host limits (host.widen base) counter p o)
      go none =
          Ensures-bind (charge _ _ p.used) _ (charge-Ensures _ _ p.used h) λ used (grown, low).
            Ensures-ok (record { files = refl; dirs = refl; grows = omega arith; bounded = low })
      go (some old) =
          Ensures-ok (record { files = refl; dirs = refl; grows = omega arith; bounded = h })

  select_loop-IsFree :
      (fuel : ℕ) (base : List ℕ) (counter : ℕ) (p : Placer)
      → p.used ≤ limits.max_metadata_bytes
      → Ensures (λ (o, q). IsFree p o × Charged p q) (select_loop host limits fuel base counter p)
  unfolding select_loop
  select_loop-IsFree zero base counter p h = Ensures-throw _
  select_loop-IsFree (suc fuel) base counter p h =
      go (fits host limits candidate) refl (taken host limits candidate p) refl
        (select_loop-IsFree fuel base (suc counter) p h)
    where
      candidate : List ℕ
      candidate = candidate_at host limits base counter

      go :
          (f : Bool)
          → fits host limits candidate ≡ f
          → (t : Bool) → taken host limits candidate p ≡ t
          → Ensures
              (λ (o, q). IsFree p o × Charged p q)
              (select_loop host limits fuel base (suc counter) p)
          → Ensures
              (λ (o, q). IsFree p o × Charged p q)
              (elim f [
                | false ↦ ok (none, p)
                | true ↦ elim t [
                  | false ↦
                      remember host limits base (suc counter) p >>= λ q. ok (some candidate, q)
                  | true ↦ select_loop host limits fuel base (suc counter) p
                ]
              ])
      go false f t e later =
          Ensures-ok (tt, record { files = refl; dirs = refl; grows = omega arith; bounded = h })
      go true f false e later =
          Ensures-bind (remember host limits base (suc counter) p) _
            (remember-Charged base (suc counter) p h) λ q charged. Ensures-ok ((e, f), charged)
      go true f true e later = later

  select-IsFree :
      (base : List ℕ) (p : Placer)
      → p.used ≤ limits.max_metadata_bytes
      → Ensures (λ (o, q). IsFree p o × Charged p q) (select host limits base p)
  unfolding select
  select-IsFree base p h =
      select_loop-IsFree (suc (length p.files + length p.dirs)) base
        (first_counter host limits (find_suffix host limits (host.widen base) p.suffix_next)) p h

  -- A name that was free is now taken: it is among the files, which keep what they were.
  pub record Placed (p : Placer) (name : List ℕ) (q : Placer) : Type 0 where
    pub free : taken host limits name p ≡ false
    pub fit : fits host limits name ≡ true
    pub files : q.files ≡ host.widen name ∷ p.files
    pub dirs : q.dirs ≡ p.dirs
    pub grows : p.used ≤ q.used
    pub bounded : q.used ≤ limits.max_metadata_bytes

  accept-Placed :
      (name : List ℕ) (p q : Placer)
      → IsFree p (some name)
      → Charged p q
      → Ensures (λ (given, r). Placed p given r) (accept host limits name q)
  unfolding accept charge_name insert_key taken
  accept-Placed name p q (free, fit) charged =
      Ensures-bind (charge _ _ q.used) _ (charge-Ensures _ _ q.used charged.bounded)
        λ used (grown, low). Ensures-ok (record {
          free = free;
          fit = fit;
          files =
              let (no_file, no_dir) =
                ||-eq-false (member host limits (host.widen name) p.files)
                  (member host limits (host.widen name) p.dirs) free in
              rw (charged.files, no_file);
          dirs = charged.dirs;
          grows = let before : p.used ≤ q.used = charged.grows in omega arith;
          bounded = low;
        })

  through : (p q r : Placer) (name : List ℕ) → Charged p q → Placed q name r → Placed p name r
  unfolding taken
  through p q r name charged placed = record {
    free = rw (sym charged.files, sym charged.dirs) placed.free;
    fit = placed.fit;
    files = rw (← charged.files) placed.files;
    dirs = placed.dirs ∙ charged.dirs;
    grows =
        let before : p.used ≤ q.used = charged.grows in
        let after : q.used ≤ r.used = placed.grows in omega arith;
    bounded = placed.bounded;
  }

  -- `place` gives a name away that no file and no directory has, and that is not too long; it reserves
  -- this name and no other, and it keeps the budget.
  pub place-Placed :
      (preferred fallback : List ℕ) (p : Placer)
      → p.used ≤ limits.max_metadata_bytes
      → Ensures (λ (name, q). Placed p name q) (place host limits preferred fallback p)
  unfolding place accept_chosen accept_rescued
  place-Placed preferred fallback p h =
      Ensures-bind (select host limits preferred p) _ (select-IsFree preferred p h)
        λ (chosen, q) (free, charged). go chosen q free charged
    where
      rescue :
          (q : Placer) (rescued : Option (List ℕ)) (r : Placer)
          → Charged p q
          → IsFree q rescued
          → Charged q r
          → Ensures (λ (name, s). Placed p name s) (accept_rescued host limits rescued r)
      rescue q none r before free charged = Ensures-throw _
      rescue q (some rescued) r before free charged =
          Ensures-weaken _ (accept-Placed rescued q r free charged)
            λ (name, s) placed. through p q s name before placed

      go :
          (chosen : Option (List ℕ)) (q : Placer)
          → IsFree p chosen
          → Charged p q
          → Ensures (λ (name, r). Placed p name r) (accept_chosen host limits fallback chosen q)
      go (some chosen) q free charged = accept-Placed chosen p q free charged
      go none q free charged =
          Ensures-bind (select host limits fallback q) _ (select-IsFree fallback q charged.bounded)
            λ (rescued, r) (free', charged'). rescue q rescued r charged free' charged'
