-- ===== src/Types/Address.antt =====
-- internal/types/address.go: addresses, their 14 bytes, their order and their distance.
pub mod Laws
pub mod Text
pub mod Parsing
use memory3d.Prelude.{
  ℕ, zero, suc, ◌+◌, ◌-◌, ◌*◌, ◌/◌, ◌%◌, ◌^◌, Bool, true, false, ◌&&◌, Option, none, some, List, [],
  ◌∷◌, ◌++◌, ltb, ◌==◌, if◌then◌else◌, length, get_or, take, drop, u16, u32, u64,
}
use memory3d.Types.Constants.{max_x_regions, max_y_planes, max_z_offset}

-- X is a uint64, Y a uint32 and Z a uint16.
pub record Address3D : Type 0 where
  pub x : ℕ
  pub y : ℕ
  pub z : ℕ

abbrev pub new_address : ℕ → ℕ → ℕ → Address3D
new_address x y z = record { x = x; y = y; z = z }

unfoldable pub is_valid : Address3D → Bool
is_valid a = (ltb a.x max_x_regions && ltb a.y max_y_planes) && ltb a.z max_z_offset

-- encoding/binary's BigEndian: the `k` bytes of a number, most significant first, and back.
unfoldable pub put_big_endian : ℕ → ℕ → List ℕ
put_big_endian zero n = []
put_big_endian (suc k) n = (n / 256 ^ k) % 256 ∷ put_big_endian k n

unfoldable pub big_endian_from : ℕ → List ℕ → ℕ
big_endian_from acc [] = acc
big_endian_from acc (b ∷ bs) = big_endian_from (acc * 256 + b) bs

unfoldable pub big_endian : List ℕ → ℕ
unfolding big_endian_from
big_endian bs = big_endian_from 0 bs

unfoldable pub bytes : Address3D → List ℕ
unfolding put_big_endian
bytes a = put_big_endian 8 a.x ++ (put_big_endian 4 a.y ++ put_big_endian 2 a.z)

-- `none` is the error "invalid address length".
unfoldable pub from_bytes : List ℕ → Option Address3D
unfolding big_endian
from_bytes bs =
    if length bs == 14
    then some (record {
      x = big_endian (take 8 bs);
      y = big_endian (take 4 (drop 8 bs));
      z = big_endian (drop 12 bs);
    })
    else none

unfoldable pub add_z : Address3D → ℕ → Address3D
add_z a offset = record a { z = u16 (a.z + offset) }

unfoldable pub next_y : Address3D → Address3D
next_y a = record a { y = u32 (a.y + 1); z = 0 }

-- The results -1, 0 and 1 of Compare.
pub data Sign : Type 0 where
  minus null plus : Sign

unfoldable pub compare_address : Address3D → Address3D → Sign
compare_address a b =
    if a.x == b.x
    then if a.y == b.y
      then if a.z == b.z then null else if ltb a.z b.z then minus else plus
      else if ltb a.y b.y
      then minus
      else plus
    else if ltb a.x b.x
    then minus
    else plus

-- absDiff64, absDiff32 and absDiff16 are this function: nothing wraps.
unfoldable pub abs_diff : ℕ → ℕ → ℕ
abs_diff a b = if ltb b a then a - b else b - a

unfoldable pub manhattan_distance : Address3D → Address3D → ℕ
unfolding abs_diff
manhattan_distance a b =
    u64 (u64 (u64 (abs_diff a.x b.x * 100) + abs_diff a.y b.y * 10) + abs_diff a.z b.z)

-- Go's == on addresses, by which maps find their keys.
abbrev pub same_address : Address3D → Address3D → Bool
same_address a b = (a.x == b.x && a.y == b.y) && a.z == b.z
