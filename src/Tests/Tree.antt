-- ===== src/Tests/Tree.antt =====
-- src/modules/godot/virtual_tree.cpp on a pack of four entries, under a host that takes each byte for a
-- character and compares names byte by byte.
use observer_modules.Prelude.{
  ℕ, zero, suc, ◌<◌, ◌≡◌, ◌≢◌, refl, sym, ◌∙◌, ap, subst, All, Bool, true, false, List, [], ◌∷◌,
  none, some, length, bytes_eq, bytes_eq→eq, bytes_eq_refl, Exists, arith,
}
use observer_modules.Failure.{ok, throw, out_of_fuel}
use observer_modules.Godot.Types.{PckEntry, PckEntryKind, file, removal}
use observer_modules.Godot.Tree.Host.{Host, TreeLimits}
use observer_modules.Godot.Tree.Escape.{escape_component}
use observer_modules.Godot.Tree.Escape.Reversible.{unescape, unescape-escape_component}
use observer_modules.Godot.Tree.Names.{suffixed}
use observer_modules.Godot.Tree.Names.Suffixes.{suffixed-injective, length-suffixed}
use observer_modules.Godot.Tree.Placer.{Placer, place, candidate_at}
use observer_modules.Godot.Tree.Placer.Ends.{IsOrdinal, place_total}
use observer_modules.Godot.Tree.Maps.{ConversionHint}
use observer_modules.Godot.Tree.Build.{
  VirtualEntry, make_virtual_tree, removals_name, manifest_name, row_bound, manifest_row,
}
use observer_modules.Godot.Tree.Build.Apart.{IsTree}
use observer_modules.Godot.Tree.Build.Whole.{make_virtual_tree-IsTree}
use observer_modules.Godot.Tree.Build.Complete.{Shows, make_virtual_tree-Shows}
use observer_modules.Godot.Tree.Build.Ends.{make_virtual_tree_total}
use observer_modules.Godot.Tree.Build.Manifest.{row_bound-manifest_row}

abbrev bytewise : Host
bytewise = record {
  is_utf8 = λ text. true;
  widen = λ text. text;
  ordinal_equal = bytes_eq;
  sizeof_mapping = 96;
  sizeof_row = 72;
  sizeof_size = 8;
}

abbrev limits : TreeLimits
limits = record { max_entries = 10; max_metadata_bytes = 100000; max_path_chars = 100 }

abbrev entry_of : List ℕ → PckEntryKind → PckEntry
entry_of path kind = record {
  path = path;
  body = record { offset = 0; size = 0 };
  md5 = [];
  logical_size = 0;
  kind = kind;
  encrypted = false;
}

-- `a`, `b.x` with the hint `.png`, `a` again, and the removal of `c`.
abbrev entries : List PckEntry
entries =
    entry_of (b'a' ∷ []) file
    ∷ entry_of (b'b' ∷ b'.' ∷ b'x' ∷ []) file
    ∷ entry_of (b'a' ∷ []) file
    ∷ entry_of (b'c' ∷ []) removal
    ∷ []

abbrev hints : List ConversionHint
hints = record { source_index = 1; extension = b'.' ∷ b'p' ∷ b'n' ∷ b'g' ∷ [] } ∷ []

abbrev row_of : List ℕ → ℕ → Bool → VirtualEntry
row_of path index converted = record {
  path = path;
  source_index = some index;
  converted = converted;
  generated_text = [];
}

-- `a`, `a~1`, `b.png`, and the two generated files.
abbrev tree : List VirtualEntry
tree =
    row_of (b'a' ∷ []) 0 false
    ∷ row_of (b'a' ∷ b'~' ∷ b'1' ∷ []) 2 false
    ∷ row_of (b'b' ∷ b'.' ∷ b'p' ∷ b'n' ∷ b'g' ∷ []) 1 true
    ∷ record {
      path = removals_name;
      source_index = none;
      converted = false;
      generated_text = b'3' ∷ 9 ∷ b'c' ∷ 10 ∷ [];
    }
    ∷ record {
      path = manifest_name;
      source_index = none;
      converted = false;
      generated_text =
          b'2' ∷ 9 ∷ b'a' ∷ 9 ∷ b'a' ∷ b'~' ∷ b'1' ∷ 10 ∷ b'1' ∷ 9 ∷ b'b' ∷ b'.' ∷ b'x' ∷ 9 ∷ b'b'
          ∷ b'.' ∷ b'p' ∷ b'n' ∷ b'g' ∷ 10 ∷ [];
    }
    ∷ []

make_virtual_tree-entries : make_virtual_tree bytewise limits entries [] hints ≡ ok tree
unfolding make_virtual_tree
make_virtual_tree-entries = refl

make_virtual_tree-IsTree_example : IsTree bytewise limits tree
make_virtual_tree-IsTree_example =
    make_virtual_tree-IsTree bytewise limits entries [] hints tree make_virtual_tree-entries

make_virtual_tree-Shows_example : Exists (Shows 2) tree
make_virtual_tree-Shows_example =
    make_virtual_tree-Shows bytewise limits entries [] hints tree 2 (entry_of (b'a' ∷ []) file)
      make_virtual_tree-entries refl refl

differs : (xs ys : List ℕ) → xs ≢ ys → bytes_eq xs ys ≡ false
differs xs ys h = ground (arith, bytes_eq→eq xs ys)

candidate_at-suc :
    (base : List ℕ) (j : ℕ) → candidate_at bytewise limits base (suc j) ≡ suffixed base (suc j)
unfolding candidate_at
candidate_at-suc base j = ground arith

candidate_at-differ :
    (base : List ℕ) (i j : ℕ)
    → i < j
    → bytes_eq (candidate_at bytewise limits base i) (candidate_at bytewise limits base j) ≡ false
unfolding candidate_at
candidate_at-differ base i zero low = absurd (omega arith)
candidate_at-differ base zero (suc j) low = rw (candidate_at-suc base j) (
    differs base (suffixed base (suc j))
      λ e. omega (arith, length-suffixed base (suc j), ap length e))
candidate_at-differ base (suc i) (suc j) low =
    rw (candidate_at-suc base i, candidate_at-suc base j)
      (differs (suffixed base (suc i)) (suffixed base (suc j))
        λ e. omega (arith, suffixed-injective base (suc i) (suc j) e))

bytewise-IsOrdinal : IsOrdinal bytewise limits
bytewise-IsOrdinal = record {
  agree = λ a b x h k.
      let same : a ≡ b = bytes_eq→eq a x h ∙ sym (bytes_eq→eq b x k) in
      subst (λ c. bytes_eq a c ≡ true) same (bytes_eq_refl a);
  differ = candidate_at-differ;
}

make_virtual_tree_total_example :
    make_virtual_tree bytewise limits entries [] hints ≢ throw out_of_fuel
make_virtual_tree_total_example =
    make_virtual_tree_total bytewise limits bytewise-IsOrdinal entries [] hints

-- A placer that has `a` as a file and as a directory.
abbrev taken_twice : Placer
taken_twice = record {
  used = 0;
  files = (b'a' ∷ []) ∷ [];
  dirs = (b'a' ∷ b'~' ∷ b'1' ∷ []) ∷ [];
  suffix_next = [];
}

place_total_example : place bytewise limits (b'a' ∷ []) (b'0' ∷ []) taken_twice ≢ throw out_of_fuel
place_total_example =
    place_total bytewise limits bytewise-IsOrdinal (b'a' ∷ []) (b'0' ∷ []) taken_twice

-- `a%b.` has an escape character and ends with a dot.
abbrev component : List ℕ
component = b'a' ∷ b'%' ∷ b'b' ∷ b'.' ∷ []

component_bytes : All (λ b. b < 256) component
component_bytes = (omega arith, (omega arith, (omega arith, (omega arith, tt))))

unescape-escape_component_example : unescape (escape_component bytewise component) ≡ component
unescape-escape_component_example = unescape-escape_component bytewise component component_bytes

row_bound-manifest_row_example :
    row_bound bytewise limits 12 component (b'a' ∷ [])
    ≡ length (manifest_row bytewise limits 12 component (b'a' ∷ []))
row_bound-manifest_row_example = row_bound-manifest_row bytewise limits 12 component (b'a' ∷ [])
