-- ===== src/Darkreel/Codecs.antt =====
-- The codec strings of src/darkreel/mp4-codecs.ts. The parts that a string is read from lie within the
-- buffer, so a byte that is not there, which the source would print as `undefined`, is 0 here.
pub mod Walk
mod Tests
use ppvda.Base.{
  ℕ, zero, suc, ◌+◌, ◌-◌, ◌*◌, ◌/◌, ◌%◌, ◌^◌, Bool, true, false, ◌&&◌, ◌||◌, not, List, [], ◌∷◌,
  ◌++◌, Option, none, some, ltb, leb, ◌==◌, if◌then◌else◌, length, take, drop,
}
use ppvda.Base.Text.{Text, codes, equal}
use ppvda.Darkreel.Mp4.{
  BoxHeader, byte_at, read_uint32_be, read_box_header, find_box_in, find_box_in_container,
  max_read_bytes,
}

abbrev visual_sample_entry_header : ℕ
visual_sample_entry_header = 78

abbrev audio_sample_entry_header : ℕ
audio_sample_entry_header = 28

abbrev value : Option ℕ → ℕ
value none = 0
value (some n) = n

abbrev byte : Text → ℕ → ℕ
byte buf i = value (byte_at buf i)

abbrev digit : ℕ → ℕ → ℕ
digit ten n = if ltb n 10 then n + b'0' else n - 10 + ten

-- `toString(base)`, with `ten` the first letter; the fuel is the number of digits at most.
pub digits : ℕ → ℕ → ℕ → ℕ → Text
digits zero ten base n = []
digits (suc k) ten base n =
    let high = digits k ten base (n / base) in
    if ltb n base then digit ten n ∷ [] else high ++ digit ten (n % base) ∷ []

-- Numbers of at most 32 bits.
abbrev pub to_decimal : ℕ → Text
to_decimal n = digits 10 b'a' 10 n

abbrev pub to_hex : ℕ → Text
to_hex n = digits 8 b'a' 16 n

-- `toString(16).toUpperCase()`
abbrev pub to_upper_hex : ℕ → Text
to_upper_hex n = digits 8 b'A' 16 n

-- `padStart(2, '0')`
abbrev pad2 : Text → Text
pad2 t = if ltb (length t) 2 then (if length t == 0 then b'0' ∷ b'0' ∷ [] else b'0' ∷ t) else t

pub hex2 : ℕ → Text
unfolding digits
hex2 n = pad2 (to_hex n)

reverse_bits : ℕ → ℕ → ℕ → ℕ
reverse_bits zero n r = r
reverse_bits (suc k) n r = reverse_bits k (n / 2) ((r * 2 + n % 2) % 2 ^ 32)

pub reverse_bits32 : ℕ → ℕ
unfolding reverse_bits
reverse_bits32 n = reverse_bits 32 n 0

pub trim_zeros : Text → Text
trim_zeros [] = []
trim_zeros (b ∷ bs) = elim (trim_zeros bs) [
  | [] ↦ if b == 0 then [] else b ∷ []
  | c ∷ cs ↦ b ∷ c ∷ cs
]

join_hex : Text → Text
unfolding digits
join_hex [] = []
join_hex (b ∷ []) = pad2 (to_upper_hex b)
join_hex (b ∷ c ∷ bs) = pad2 (to_upper_hex b) ++ b'.' ∷ join_hex (c ∷ bs)

pub hex_trim_trailing_zeros : Text → Text
unfolding trim_zeros join_hex
hex_trim_trailing_zeros bytes = join_hex (trim_zeros bytes)

avc_string : Text → BoxHeader → Option BoxHeader → Option Text
unfolding hex2
avc_string buf entry none = none
avc_string buf entry (some c) =
    if ltb c.content_end (c.content_start + 4)
    then none
    else some (
        entry.type
        ++ b'.' ∷ hex2 (byte buf (c.content_start + 1))
        ++ hex2 (byte buf (c.content_start + 2))
        ++ hex2 (byte buf (c.content_start + 3)))

pub build_avc_codec_string : Text → BoxHeader → Option Text
unfolding avc_string find_box_in
build_avc_codec_string buf entry = avc_string buf entry (
    find_box_in buf (entry.content_start + visual_sample_entry_header) entry.content_end
      (codes "avcC"))

abbrev space_char : ℕ → Text
space_char n =
    if n == 1 then codes "A" else if n == 2 then codes "B" else if n == 3 then codes "C" else []

abbrev dotted_part : Text → Text
dotted_part [] = []
dotted_part (c ∷ t) = b'.' ∷ c ∷ t

hevc_string : Text → BoxHeader → Option BoxHeader → Option Text
unfolding digits reverse_bits32 hex_trim_trailing_zeros
hevc_string buf entry none = none
hevc_string buf entry (some c) =
    let cs = c.content_start in
    let byte1 = byte buf (cs + 1) in
    if ltb c.content_end (cs + 13)
    then none
    else some (
        entry.type
        ++ b'.' ∷ space_char (byte1 / 64 % 4)
        ++ to_decimal (byte1 % 32)
        ++ b'.' ∷ to_upper_hex (reverse_bits32 (value (read_uint32_be buf (cs + 2))))
        ++ b'.' ∷ (if byte1 / 32 % 2 == 0 then b'L' else b'H') ∷ to_decimal (byte buf (cs + 12))
        ++ dotted_part (hex_trim_trailing_zeros (take 6 (drop (cs + 6) buf))))

pub build_hevc_codec_string : Text → BoxHeader → Option Text
unfolding hevc_string find_box_in
build_hevc_codec_string buf entry = hevc_string buf entry (
    find_box_in buf (entry.content_start + visual_sample_entry_header) entry.content_end
      (codes "hvcC"))

-- `while (j < end && (data[j] & 0x80) !== 0) j++`, with fuel for the bytes up to the end.
pub skip_length : ℕ → Text → ℕ → ℕ → ℕ
skip_length zero buf end j = j
skip_length (suc k) buf end j =
    let rest = skip_length k buf end (j + 1) in
    if ltb j end && (byte buf j / 128 % 2 == 1) then rest else j

-- The audio object type at `j`.
audio_object_type : Text → ℕ → ℕ → ℕ
audio_object_type buf end j =
    let byte0 = byte buf j in
    if (byte0 / 8 % 32 == 31) && ltb (j + 1) end
    then 32 + byte0 % 8 * 8 + byte buf (j + 1) / 32 % 8
    else byte0 / 8 % 32

abbrev aac_string : ℕ → Text
aac_string n = codes "mp4a.40." ++ to_decimal n

-- The scan for the tag; `k` is the number of the places that are left.
pub scan_tag : ℕ → Text → ℕ → ℕ → Text
unfolding skip_length audio_object_type digits
scan_tag zero buf end i = codes "mp4a.40.2"
scan_tag (suc k) buf end i =
    let rest = scan_tag k buf end (i + 1) in
    let j = skip_length (end - (i + 1)) buf end (i + 1) + 1 in
    if byte buf i == 5
    then (if leb end j then codes "mp4a.40.2" else aac_string (audio_object_type buf end j))
    else rest

aac_of : Text → Option BoxHeader → Option Text
unfolding scan_tag
aac_of buf none = none
aac_of buf (some c) =
    some
      (scan_tag (c.content_end - 2 - (c.content_start + 4)) buf c.content_end (c.content_start + 4))

pub build_aac_codec_string : Text → BoxHeader → Option Text
unfolding aac_of find_box_in
build_aac_codec_string buf entry = aac_of buf (
    find_box_in buf (entry.content_start + audio_sample_entry_header) entry.content_end
      (codes "esds"))

-- The bit depth of AV1.
pub bit_depth : ℕ → ℕ → ℕ → ℕ
bit_depth profile high twelve =
    if (profile == 2) && not (high == 0)
    then (if twelve == 0 then 10 else 12)
    else if high == 0
    then 8
    else 10

av1_string : Text → Option BoxHeader → Option Text
unfolding digits bit_depth
av1_string buf none = none
av1_string buf (some c) =
    let byte1 = byte buf (c.content_start + 1) in
    let byte2 = byte buf (c.content_start + 2) in
    if ltb c.content_end (c.content_start + 4)
    then none
    else some (
        codes "av01."
        ++ to_decimal (byte1 / 32 % 8)
        ++ b'.' ∷ pad2 (to_decimal (byte1 % 32))
        ++ (if byte2 / 128 % 2 == 0 then b'M' else b'H')
          ∷ b'.'
          ∷ pad2 (to_decimal (bit_depth (byte1 / 32 % 8) (byte2 / 64 % 2) (byte2 / 32 % 2))))

pub build_av1_codec_string : Text → BoxHeader → Option Text
unfolding av1_string find_box_in
build_av1_codec_string buf entry = av1_string buf (
    find_box_in buf (entry.content_start + visual_sample_entry_header) entry.content_end
      (codes "av1C"))

-- The first sample entry, by its type.
codec_of_entry : Text → Option BoxHeader → Option Text
unfolding build_avc_codec_string build_hevc_codec_string build_aac_codec_string
    build_av1_codec_string
codec_of_entry buf none = none
codec_of_entry buf (some entry) =
    if equal entry.type (codes "avc1") || equal entry.type (codes "avc3")
    then build_avc_codec_string buf entry
    else if equal entry.type (codes "hvc1") || equal entry.type (codes "hev1")
    then build_hevc_codec_string buf entry
    else if equal entry.type (codes "mp4a")
    then build_aac_codec_string buf entry
    else if equal entry.type (codes "av01")
    then build_av1_codec_string buf entry
    else none

codec_of_stsd : Text → Option BoxHeader → Option Text
unfolding codec_of_entry read_box_header
codec_of_stsd buf none = none
codec_of_stsd buf (some stsd) =
    if ltb stsd.content_end (stsd.content_start + 8 + 8)
    then none
    else codec_of_entry buf (read_box_header buf (stsd.content_start + 8) stsd.content_end)

pub extract_codec_from_trak : Text → ℕ → ℕ → Option Text
unfolding codec_of_stsd find_box_in_container
extract_codec_from_trak buf trak_start trak_end = codec_of_stsd buf (
    find_box_in_container buf trak_start trak_end
      (codes "mdia" ∷ codes "minf" ∷ codes "stbl" ∷ codes "stsd" ∷ []))

-- The codec of a box, if it is a track that has one: the empty text is dropped as well.
pub codec_of_box : Text → BoxHeader → List Text
unfolding extract_codec_from_trak
codec_of_box buf box =
    if equal box.type (codes "trak")
    then elim (extract_codec_from_trak buf box.content_start box.content_end) [
      | none ↦ []
      | some [] ↦ []
      | some (c ∷ t) ↦ (c ∷ t) ∷ []
    ]
    else []

-- The walk over the boxes of `moov`, with fuel.
pub collect_codecs : ℕ → Text → ℕ → ℕ → List Text
unfolding codec_of_box read_box_header
collect_codecs zero buf pos end = []
collect_codecs (suc fuel) buf pos end =
    if ltb end (pos + 8) then [] else elim (read_box_header buf pos end) [
      | none ↦ []
      | some box ↦ codec_of_box buf box ++ collect_codecs fuel buf box.end end
    ]

-- `codecs.join(',')`
join_codecs : List Text → Text
join_codecs [] = []
join_codecs (c ∷ []) = c
join_codecs (c ∷ d ∷ cs) = c ++ b',' ∷ join_codecs (d ∷ cs)

join_some : List Text → Option Text
unfolding join_codecs
join_some [] = none
join_some (c ∷ cs) = some (join_codecs (c ∷ cs))

codecs_of_moov : Text → Option BoxHeader → Option Text
unfolding collect_codecs join_some
codecs_of_moov buf none = none
codecs_of_moov buf (some moov) =
    join_some (collect_codecs (suc moov.content_end) buf moov.content_start moov.content_end)

-- `extractCodecsFromMP4`, of the bytes of the file; an error of the file system gives nothing.
pub extract_codecs_from_mp4 : Option Text → Option Text
unfolding codecs_of_moov find_box_in
extract_codecs_from_mp4 none = none
extract_codecs_from_mp4 (some file) =
    let buf = take max_read_bytes file in
    codecs_of_moov buf (find_box_in buf 0 (length buf) (codes "moov"))
