-- ===== src/Godot/Tree/Escape.antt =====
-- src/modules/godot/virtual_tree.cpp: how the bytes of a name are escaped.
pub mod Reversible
use observer_modules.Prelude.{
  ℕ, zero, suc, ◌+◌, ◌-◌, ◌/◌, ◌%◌, ◌==◌, Bool, true, false, not, ◌&&◌, ◌||◌, List, [], ◌∷◌, ◌++◌,
  if◌then◌else◌, leb, ltb, length, take, drop, reverse, bytes_eq,
}
use observer_modules.Godot.Pck.Path.{parent, is_empty}
use observer_modules.Godot.Remap.Path.{here}
use observer_modules.Godot.Tree.Host.{Host, is_valid_utf8}

abbrev pub is_unsafe_ascii : ℕ → Bool
is_unsafe_ascii b =
    b == b'<'
    || b == b'>'
    || b == b':'
    || b == b'"'
    || b == b'|'
    || b == b'?'
    || b == b'*'
    || b == b'/'
    || b == b'\\'

abbrev pub hex_digit : ℕ → ℕ
hex_digit n = if ltb n 10 then b'0' + n else b'A' + (n - 10)

-- The three characters of an escaped byte.
abbrev pub escape_byte : ℕ → List ℕ → List ℕ
escape_byte b rest = b'%' ∷ hex_digit (b / 16) ∷ hex_digit (b % 16) ∷ rest

-- The bytes that are escaped, and the others as they are; `index` is the index of the first one.
unfoldable pub escape_where : (ℕ → ℕ → Bool) → ℕ → List ℕ → List ℕ
escape_where escaped index [] = []
escape_where escaped index (b ∷ rest) =
    let later : List ℕ = escape_where escaped (suc index) rest in
    if escaped index b then escape_byte b later else b ∷ later

abbrev pub is_reserved_device_suffix : List ℕ → Bool
is_reserved_device_suffix [] = false
is_reserved_device_suffix (code ∷ []) =
    leb b'1' code && leb code b'9' || code == 0xb9 || code == 0xb2 || code == 0xb3
is_reserved_device_suffix (code ∷ d ∷ rest) = false

-- `component.substr(0, component.find('.'))`
unfoldable pub before_dot : List ℕ → List ℕ
before_dot [] = []
before_dot (c ∷ rest) = if c == b'.' then [] else c ∷ before_dot rest

-- The loop that counts `trailing`, over the reversed component.
unfoldable pub count_trailing : List ℕ → ℕ
count_trailing [] = 0
count_trailing (c ∷ rest) = if c == b'.' || c == b' ' then suc (count_trailing rest) else 0

module _ (host : Host) where
  abbrev pub is_base_device : List ℕ → Bool
  is_base_device wide =
      host.ordinal_equal wide (b'C' ∷ b'O' ∷ b'N' ∷ [])
      || host.ordinal_equal wide (b'P' ∷ b'R' ∷ b'N' ∷ [])
      || host.ordinal_equal wide (b'A' ∷ b'U' ∷ b'X' ∷ [])
      || host.ordinal_equal wide (b'N' ∷ b'U' ∷ b'L' ∷ [])

  abbrev pub is_port_prefix : List ℕ → Bool
  is_port_prefix prefix =
      host.ordinal_equal prefix (b'C' ∷ b'O' ∷ b'M' ∷ [])
      || host.ordinal_equal prefix (b'L' ∷ b'P' ∷ b'T' ∷ [])

  unfoldable pub is_device_name : List ℕ → Bool
  is_device_name [] = false
  is_device_name (c ∷ rest) =
      let wide : List ℕ = host.widen (c ∷ rest) in
      if is_base_device wide
      then true
      else if leb 4 (length wide)
      then is_port_prefix (take 3 wide) && is_reserved_device_suffix (drop 3 wide)
      else false

  -- `escape_byte` in `escape_component`: the byte `b` at `index`.
  abbrev pub component_byte_escaped : Bool → Bool → Bool → ℕ → ℕ → ℕ → ℕ → Bool
  component_byte_escaped valid dot_pair device trailing size index b =
      not valid
      || dot_pair
      || ltb b 32
      || b == 127
      || b == b'%'
      || is_unsafe_ascii b
      || (device && index == 0)
      || (not (trailing == 0) && leb (size - trailing) index)

  unfoldable pub escape_component : List ℕ → List ℕ
  unfolding is_valid_utf8 count_trailing is_device_name before_dot escape_where bytes_eq
  escape_component component =
      escape_where
        (component_byte_escaped (is_valid_utf8 host component)
          (bytes_eq component here || bytes_eq component parent)
          (is_device_name (before_dot component)) (count_trailing (reverse component))
          (length component))
        0 component

  -- The lambda `flush` of `escape_path`.
  unfoldable pub flush_escaped : List ℕ → List ℕ → List ℕ
  unfolding escape_component
  flush_escaped out component =
      if is_empty component
      then out
      else if is_empty out
      then escape_component component
      else out ++ (b'/' ∷ escape_component component)

  unfoldable pub escape_path_loop : List ℕ → List ℕ → List ℕ → List ℕ
  unfolding flush_escaped
  escape_path_loop out component [] = flush_escaped out component
  escape_path_loop out component (c ∷ rest) = elim (c == b'/' || c == b'\\') [
    | true ↦ escape_path_loop (flush_escaped out component) [] rest
    | false ↦ escape_path_loop out (component ++ (c ∷ [])) rest
  ]

  abbrev pub or_placeholder : List ℕ → List ℕ
  or_placeholder [] = b'%' ∷ b'0' ∷ b'0' ∷ []
  or_placeholder (c ∷ rest) = c ∷ rest

  unfoldable pub escape_path : List ℕ → List ℕ
  unfolding escape_path_loop
  escape_path raw = or_placeholder (escape_path_loop [] [] raw)

  -- One field of the manifest.
  abbrev pub field_byte_escaped : Bool → ℕ → Bool
  field_byte_escaped valid b = ltb b 32 || b == 127 || b == b'%' || (not valid && leb 128 b)

  unfoldable pub escape_field : List ℕ → List ℕ
  unfolding is_valid_utf8 escape_where
  escape_field text = escape_where (λ index. field_byte_escaped (is_valid_utf8 host text)) 0 text

  unfoldable pub field_size_loop : Bool → List ℕ → ℕ
  field_size_loop valid [] = 0
  field_size_loop valid (b ∷ rest) =
      (if field_byte_escaped valid b then 3 else 1) + field_size_loop valid rest

  unfoldable pub escaped_field_size : List ℕ → ℕ
  unfolding is_valid_utf8 field_size_loop
  escaped_field_size text = field_size_loop (is_valid_utf8 host text) text
