-- ===== src/Darkreel/Codecs/Tests.antt =====
-- Codec strings of small buffers, and the theorems at concrete inputs.
use ppvda.Base.{ℕ, [], ◌∷◌, ◌++◌, some, ◌≡◌, refl, arith, replicate}
use ppvda.Base.Text.{Text, codes}
use ppvda.Darkreel.Mp4.{BoxHeader, ended, find_box, find_box_in, read_uint32_be}
use ppvda.Darkreel.Mp4.Walk.{find_box-eq-in, read_uint32_be_in_range}
use ppvda.Darkreel.Codecs.{build_avc_codec_string, reverse_bits32}

-- An empty `free` box and a `moov` box with two bytes.
abbrev sample : Text
sample = 0 ∷ 0 ∷ 0 ∷ 8 ∷ codes "free" ++ 0 ∷ 0 ∷ 0 ∷ 10 ∷ codes "moov" ++ 1 ∷ 2 ∷ []

abbrev found : BoxHeader
found = record { type = codes "moov"; content_start = 16; content_end = 18; end = 18 }

abbrev avc_entry : Text
avc_entry = replicate 78 0 ++ 0 ∷ 0 ∷ 0 ∷ 12 ∷ codes "avcC" ++ 1 ∷ 100 ∷ 0 ∷ 31 ∷ []

avc_read :
    build_avc_codec_string avc_entry
      (record { type = codes "avc1"; content_start = 0; content_end = 90; end = 90 })
    ≡ some (codes "avc1.64001f")
unfolding build_avc_codec_string
avc_read = refl

reversed : reverse_bits32 0x6000_0000 ≡ 6
unfolding reverse_bits32
reversed = refl

find_box-eq-in_example :
    find_box 30 sample 0 18 (codes "moov") ≡ ended (find_box_in sample 0 18 (codes "moov"))
find_box-eq-in_example = find_box-eq-in 30 sample 0 18 (codes "moov") (omega arith)

sample_read : (n : ℕ) × (read_uint32_be sample 8 ≡ some n)
sample_read = read_uint32_be_in_range sample 8 (omega arith)
