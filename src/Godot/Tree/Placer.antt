-- ===== src/Godot/Tree/Placer.antt =====
-- src/modules/godot/virtual_tree.cpp: the class `placer`.
pub mod Free
pub mod Ends
use observer_modules.Prelude.{
  ℕ, zero, suc, ◌+◌, ◌*◌, ◌==◌, Bool, true, false, not, ◌&&◌, ◌||◌, List, [], ◌∷◌, ◌++◌, Option,
  none, some, if◌then◌else◌, ltb, length,
}
use observer_modules.Failure.{Result, ok, throw, ◌>>=◌, ◌>>◌, throw_if, tree_error, out_of_fuel}
use observer_modules.Godot.Tree.Host.{
  Host, TreeLimits, name_node_overhead, map_node_overhead, charge,
}
use observer_modules.Godot.Tree.Names.{suffixed, oversize}

-- A pair of `suffix_next_`.
pub record SuffixNext : Type 0 where
  pub base : List ℕ
  pub counter : ℕ

-- `used` is the counter of the budget that the placer refers to.
pub record Placer : Type 0 where
  pub used : ℕ
  pub files : List (List ℕ)
  pub dirs : List (List ℕ)
  pub suffix_next : List SuffixNext

-- What a member returns, and the placer after it.
abbrev pub Placing : Type 0 → Type 0
Placing A = Result (A × Placer)

module _ (host : Host) (limits : TreeLimits) where
  -- `std::set` with `ordinal_less`: two keys are one where neither is less.
  unfoldable pub member : List ℕ → List (List ℕ) → Bool
  member key [] = false
  member key (name ∷ rest) = host.ordinal_equal key name || member key rest

  unfoldable pub insert_key : List ℕ → List (List ℕ) → List (List ℕ)
  unfolding member
  insert_key key set = if member key set then set else key ∷ set

  unfoldable pub charge_name : List ℕ → ℕ → Result ℕ
  unfolding charge
  charge_name text used =
      charge limits.max_metadata_bytes (length (host.widen text) * 2 + name_node_overhead) used

  unfoldable pub reserve_dir : List ℕ → Placer → Result Placer
  unfolding charge_name insert_key
  reserve_dir path p = do
    used ← charge_name path p.used
    ok (record {
      used = used;
      files = p.files;
      dirs = insert_key (host.widen path) p.dirs;
      suffix_next = p.suffix_next;
    })

  -- `prefix` is the path in front of the cursor.
  unfoldable pub ancestors_loop : List ℕ → List ℕ → Placer → Result Placer
  unfolding reserve_dir
  ancestors_loop prefix [] p = ok p
  ancestors_loop prefix (c ∷ rest) p = elim (c == b'/') [
    | true ↦ reserve_dir prefix p >>= λ q. ancestors_loop (prefix ++ (c ∷ [])) rest q
    | false ↦ ancestors_loop (prefix ++ (c ∷ [])) rest p
  ]

  unfoldable pub reserve_ancestors : List ℕ → Placer → Result Placer
  unfolding ancestors_loop
  reserve_ancestors path p = ancestors_loop [] path p

  unfoldable pub taken : List ℕ → Placer → Bool
  unfolding member
  taken path p = member (host.widen path) p.files || member (host.widen path) p.dirs

  unfoldable pub fits : List ℕ → Bool
  unfolding oversize
  fits path = not (oversize host path limits.max_path_chars)

  unfoldable pub find_suffix : List ℕ → List SuffixNext → Option ℕ
  find_suffix key [] = none
  find_suffix key (entry ∷ rest) = elim (host.ordinal_equal key entry.base) [
    | true ↦ some entry.counter
    | false ↦ find_suffix key rest
  ]

  unfoldable pub set_suffix : List ℕ → ℕ → List SuffixNext → List SuffixNext
  set_suffix key counter [] = []
  set_suffix key counter (entry ∷ rest) = elim (host.ordinal_equal key entry.base) [
    | true ↦ record { base = entry.base; counter = counter } ∷ rest
    | false ↦ entry ∷ set_suffix key counter rest
  ]

  abbrev pub with_suffixes : Placer → ℕ → List SuffixNext → Placer
  with_suffixes p used suffixes = record {
    used = used;
    files = p.files;
    dirs = p.dirs;
    suffix_next = suffixes;
  }

  unfoldable pub remember_suffix : List ℕ → ℕ → Placer → Option ℕ → Result Placer
  unfolding charge set_suffix
  remember_suffix key counter p none = do
    used ← charge limits.max_metadata_bytes (length key * 2 + map_node_overhead) p.used
    ok (with_suffixes p used (record { base = key; counter = counter } ∷ p.suffix_next))
  remember_suffix key counter p (some old) =
      ok (with_suffixes p p.used (set_suffix key counter p.suffix_next))

  -- What `select` does with a free candidate; `counter` is the one after it.
  unfoldable pub remember : List ℕ → ℕ → Placer → Result Placer
  unfolding remember_suffix find_suffix
  remember base counter p =
      if ltb 1 counter
      then remember_suffix (host.widen base) counter p (find_suffix (host.widen base) p.suffix_next)
      else ok p

  unfoldable pub candidate_at : List ℕ → ℕ → List ℕ
  unfolding suffixed
  candidate_at base counter = if counter == 0 then base else suffixed base counter

  unfoldable pub select_loop : ℕ → List ℕ → ℕ → Placer → Placing (Option (List ℕ))
  unfolding candidate_at fits taken remember
  select_loop zero base counter p = throw out_of_fuel
  select_loop (suc fuel) base counter p =
      let candidate : List ℕ = candidate_at base counter in
      elim (fits candidate) [
        | false ↦ ok (none, p)
        | true ↦ elim (taken candidate p) [
          | false ↦ remember base (suc counter) p >>= λ q. ok (some candidate, q)
          | true ↦ select_loop fuel base (suc counter) p
        ]
      ]

  abbrev pub first_counter : Option ℕ → ℕ
  first_counter none = 0
  first_counter (some counter) = counter

  -- Each round but the last meets a name that is taken, so a round for each of them and one more is
  -- fuel enough.
  unfoldable pub select : List ℕ → Placer → Placing (Option (List ℕ))
  unfolding select_loop find_suffix
  select base p =
      select_loop (suc (length p.files + length p.dirs)) base
        (first_counter (find_suffix (host.widen base) p.suffix_next)) p

  unfoldable pub accept : List ℕ → Placer → Placing (List ℕ)
  unfolding charge_name insert_key
  accept candidate p = do
    used ← charge_name candidate p.used
    ok (
      candidate,
      record {
        used = used;
        files = insert_key (host.widen candidate) p.files;
        dirs = p.dirs;
        suffix_next = p.suffix_next;
      },
    )

  unfoldable pub accept_rescued : Option (List ℕ) → Placer → Placing (List ℕ)
  unfolding accept
  accept_rescued none p =
      throw (tree_error "godot virtual tree path limit leaves no room for a fallback")
  accept_rescued (some rescued) p = accept rescued p

  unfoldable pub accept_chosen : List ℕ → Option (List ℕ) → Placer → Placing (List ℕ)
  unfolding accept accept_rescued select
  accept_chosen fallback (some chosen) p = accept chosen p
  accept_chosen fallback none p = select fallback p >>= λ (rescued, q). accept_rescued rescued q

  unfoldable pub place : List ℕ → List ℕ → Placer → Placing (List ℕ)
  unfolding accept_chosen select
  place preferred fallback p = select preferred p >>= λ (chosen, q). accept_chosen fallback chosen q
