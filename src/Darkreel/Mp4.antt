-- ===== src/Darkreel/Mp4.antt =====
-- The boxes of an MP4 file, of src/darkreel/mp4-codecs.ts. A buffer is a list of bytes, and a read
-- out of range gives nothing, where `readUInt32BE` throws and an index gives `undefined`. A type of a
-- box is its four bytes. The walks stop when their fuel is out; each box has at least eight bytes, so
-- the length of the walked part is fuel enough.
pub mod Walk
use ppvda.Base.{
  ℕ, zero, suc, ◌+◌, ◌-◌, ◌*◌, ◌/◌, ◌%◌, Bool, true, false, List, [], ◌∷◌, Option, none, some, ltb,
  leb, ◌==◌, if◌then◌else◌, get_elem?, length, take,
}
use ppvda.Base.Text.{Text, codes, equal}

abbrev pub max_read_bytes : ℕ
max_read_bytes = 2_097_152

-- `BoxHeader`
pub record BoxHeader : Type 0 where
  pub type : Text
  pub content_start : ℕ
  pub content_end : ℕ
  pub end : ℕ

-- `data[i]`
abbrev pub byte_at : Text → ℕ → Option ℕ
byte_at buf i = get_elem? buf i

join4 : Option ℕ → Option ℕ → Option ℕ → Option ℕ → Option ℕ
join4 (some a) (some b) (some c) (some d) = some (a * 16_777_216 + b * 65_536 + c * 256 + d)
join4 _ _ _ _ = none

-- `data.readUInt32BE(pos)`
unfoldable pub read_uint32_be : Text → ℕ → Option ℕ
unfolding join4
read_uint32_be buf pos =
    join4 (byte_at buf pos) (byte_at buf (pos + 1)) (byte_at buf (pos + 2)) (byte_at buf (pos + 3))

list4 : Option ℕ → Option ℕ → Option ℕ → Option ℕ → Text
list4 (some a) (some b) (some c) (some d) = a ∷ b ∷ c ∷ d ∷ []
list4 _ _ _ _ = []

-- `data.subarray(pos, pos + 4)`, where all of it is there.
pub type_at : Text → ℕ → Text
unfolding list4
type_at buf pos =
    list4 (byte_at buf pos) (byte_at buf (pos + 1)) (byte_at buf (pos + 2)) (byte_at buf (pos + 3))

-- The box that ends `size` bytes after its start, within the limit.
pub bounded_box : Text → ℕ → ℕ → ℕ → ℕ → Option BoxHeader
bounded_box type pos content_start size limit =
    if ltb size 8
    then none
    else if ltb limit (pos + size)
    then none
    else some (record {
      type = type;
      content_start = content_start;
      content_end = pos + size;
      end = pos + size;
    })

-- The two halves of a 64-bit size; a read that throws gives no box.
large_box : Text → ℕ → ℕ → Option ℕ → Option ℕ → Option BoxHeader
unfolding bounded_box
large_box type pos limit (some hi) (some lo) =
    bounded_box type pos (pos + 16) (hi * 4_294_967_296 + lo) limit
large_box type pos limit _ _ = none

sized_box : Text → Text → ℕ → ℕ → Option ℕ → Option BoxHeader
unfolding large_box bounded_box read_uint32_be
sized_box buf type pos limit none = none
sized_box buf type pos limit (some raw_size) =
    if raw_size == 1
    then (if ltb limit (pos + 16)
        then none
        else large_box type pos limit (read_uint32_be buf (pos + 8))
            (read_uint32_be buf (pos + 12)))
    else if raw_size == 0
    then bounded_box type pos (pos + 8) (limit - pos) limit
    else bounded_box type pos (pos + 8) raw_size limit

unfoldable pub read_box_header : Text → ℕ → ℕ → Option BoxHeader
unfolding sized_box type_at read_uint32_be
read_box_header buf pos limit =
    if ltb limit (pos + 8)
    then none
    else sized_box buf (type_at buf (pos + 4)) pos limit (read_uint32_be buf pos)

-- How a walk comes out that has fuel: it ends with what it found, or the fuel is spent.
pub data WalkResult : Type 0 where
  out_of_fuel : WalkResult
  ended : Option BoxHeader → WalkResult

unfoldable pub find_box : ℕ → Text → ℕ → ℕ → Text → WalkResult
unfolding read_box_header
find_box zero buf pos end want = out_of_fuel
find_box (suc fuel) buf pos end want =
    if ltb end (pos + 8) then ended none else elim (read_box_header buf pos end) [
      | none ↦ ended none
      | some box ↦
          let rest = find_box fuel buf box.end end want in
          if equal box.type want then ended (some box) else rest
    ]

-- The box of a walk that ended.
pub found_by : WalkResult → Option BoxHeader
found_by out_of_fuel = none
found_by (ended o) = o

-- `findBox` with fuel for every box of the part.
unfoldable pub find_box_in : Text → ℕ → ℕ → Text → Option BoxHeader
unfolding find_box found_by
find_box_in buf start end want = found_by (find_box (suc end) buf start end want)

unfoldable pub find_box_in_container : Text → ℕ → ℕ → List Text → Option BoxHeader
unfolding find_box_in
find_box_in_container buf start end [] = none
find_box_in_container buf start end (want ∷ []) = find_box_in buf start end want
find_box_in_container buf start end (want ∷ next ∷ path) = elim (find_box_in buf start end want) [
  | none ↦ none
  | some box ↦ find_box_in_container buf box.content_start box.content_end (next ∷ path)
]
