-- ===== src/Godot/Pck/Path.antt =====
-- src/core/godot/pck.cpp: the names of a pack's entries.
pub mod Safe
use observer_modules.Prelude.{
  ℕ, ◌==◌, Bool, true, false, ◌&&◌, ◌||◌, List, [], ◌∷◌, ◌++◌, if◌then◌else◌, drop, bytes_eq,
  reverse, take,
}
use observer_modules.Failure.{pck_error, Result, throw_if, ok, ◌>>=◌, ◌>>◌}

abbrev pub resource_prefix : List ℕ
resource_prefix = b'r' ∷ b'e' ∷ b's' ∷ b':' ∷ b'/' ∷ b'/' ∷ []

abbrev pub parent : List ℕ
parent = b'.' ∷ b'.' ∷ []

unfoldable pub has_byte : ℕ → List ℕ → Bool
has_byte b [] = false
has_byte b (x ∷ xs) = x == b || has_byte b xs

abbrev pub strip_resource : List ℕ → List ℕ
strip_resource raw = if bytes_eq (take 6 raw) resource_prefix then drop 6 raw else raw

abbrev pub is_empty : List ℕ → Bool
is_empty [] = true
is_empty (x ∷ xs) = false

abbrev pub is_absolute : List ℕ → Bool
is_absolute [] = false
is_absolute (x ∷ xs) = x == b'/'

unfoldable pub has_unsafe_byte : List ℕ → Bool
has_unsafe_byte [] = false
has_unsafe_byte (x ∷ xs) = x == b'\\' || x == b':' || has_unsafe_byte xs

-- The loop over the components: `part` is what stands between the cursor and the bytes that are
-- left, `found` whether an earlier component threw.
unfoldable pub escapes : Bool → List ℕ → List ℕ → Bool
escapes found part [] = found || bytes_eq part parent
escapes found part (b ∷ bs) =
    escapes (found || (b == b'/' && bytes_eq part parent))
      (if b == b'/' then [] else part ++ (b ∷ [])) bs

unfoldable pub sanitize_path : List ℕ → Result (List ℕ)
unfolding has_byte has_unsafe_byte escapes
sanitize_path raw = do
  throw_if (has_byte 0 raw) (pck_error "pack entry name contains NUL")
  let name : List ℕ = strip_resource raw
  throw_if (is_empty name) (pck_error "pack entry name is empty")
  throw_if (is_absolute name) (pck_error "pack entry name is absolute")
  throw_if (has_unsafe_byte name) (pck_error "pack entry name is unsafe")
  throw_if (escapes false [] name) (pck_error "pack entry name escapes its directory")
  ok name

-- The trailing NULs, in front of a reversed name.
unfoldable pub drop_nuls : List ℕ → List ℕ
drop_nuls [] = []
drop_nuls (b ∷ bs) = let rest = drop_nuls bs in if b == 0 then rest else b ∷ bs

unfoldable pub trim_nuls : List ℕ → List ℕ
unfolding drop_nuls
trim_nuls raw = reverse (drop_nuls (reverse raw))
