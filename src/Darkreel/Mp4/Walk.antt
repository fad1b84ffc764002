-- ===== src/Darkreel/Mp4/Walk.antt =====
-- The walks stay within their part, make progress, and do not depend on their fuel.
use ppvda.Base.{
  ℕ, zero, suc, ◌+◌, ◌-◌, ◌≤◌, ◌<◌, ◌*◌, true, [], ◌∷◌, Option, none, some, ◌≡◌, refl, arith, ltb,
  ◌==◌, Bool-cases, Option-cases, inl, inr, length, ◌∙◌, ap,
}
use ppvda.Base.Text.{Text, equal}
use ppvda.Darkreel.Mp4.{
  BoxHeader, bounded_box, large_box, sized_box, read_uint32_be, type_at, read_box_header, find_box,
  find_box_in, byte_at, join4, WalkResult, out_of_fuel, ended, found_by,
}

-- A box within a part: it has at least eight bytes and ends within the limit.
pub record IsWithinPart (pos limit : ℕ) (box : BoxHeader) : Type 0 where
  pub progress : pos + 8 ≤ box.end
  pub within : box.end ≤ limit
  pub ends : box.content_end ≡ box.end
  pub starts : pos + 8 ≤ box.content_start

bounded_box-IsWithinPart :
    (type : Text) (pos start size limit : ℕ) (box : BoxHeader)
    → pos + 8 ≤ start
    → bounded_box type pos start size limit ≡ some box
    → IsWithinPart pos limit box
unfolding bounded_box
bounded_box-IsWithinPart type pos start size limit box s h = record {
  progress = ground arith;
  within = ground arith;
  ends = ground arith;
  starts = ground arith;
}

large_box-IsWithinPart :
    (type : Text) (pos limit : ℕ) (hi lo : Option ℕ) (box : BoxHeader)
    → large_box type pos limit hi lo ≡ some box
    → IsWithinPart pos limit box
unfolding large_box
large_box-IsWithinPart type pos limit (some hi) (some lo) box h =
    bounded_box-IsWithinPart type pos (pos + 16) _ limit box (omega arith) h
large_box-IsWithinPart type pos limit none lo box h = cc
large_box-IsWithinPart type pos limit (some hi) none box h = cc

sized_box-IsWithinPart :
    (buf : Text) (type : Text) (pos limit : ℕ) (o : Option ℕ) (box : BoxHeader)
    → sized_box buf type pos limit o ≡ some box
    → IsWithinPart pos limit box
unfolding sized_box
sized_box-IsWithinPart buf type pos limit none box h = cc
sized_box-IsWithinPart buf type pos limit (some raw) box h = elim (Bool-cases (raw == 1)) [
  | inl e ↦ elim (Bool-cases (ltb limit (pos + 16))) [
    | inl l ↦ ground (arith, h, e, l)
    | inr l ↦
        large_box-IsWithinPart type pos limit (read_uint32_be buf (pos + 8))
          (read_uint32_be buf (pos + 12)) box (ground (arith, h, e, l))
  ]
  | inr e ↦ elim (Bool-cases (raw == 0)) [
    | inl z ↦
        bounded_box-IsWithinPart type pos (pos + 8) (limit - pos) limit box (omega arith)
          (ground (arith, h, e, z))
    | inr z ↦
        bounded_box-IsWithinPart type pos (pos + 8) raw limit box (omega arith)
          (ground (arith, h, e, z))
  ]
]

pub read_box_header-IsWithinPart :
    (buf : Text) (pos limit : ℕ) (box : BoxHeader)
    → read_box_header buf pos limit ≡ some box
    → IsWithinPart pos limit box
unfolding read_box_header
read_box_header-IsWithinPart buf pos limit box h = elim (Bool-cases (ltb limit (pos + 8))) [
  | inl l ↦ ground (arith, h, l)
  | inr l ↦
      sized_box-IsWithinPart buf (type_at buf (pos + 4)) pos limit (read_uint32_be buf pos) box
        (ground (arith, h, l))
]

-- A box that a walk finds has the type that was asked for and lies within the part.
pub record IsFound (start end : ℕ) (want : Text) (box : BoxHeader) : Type 0 where
  pub asked : equal box.type want ≡ true
  pub after_start : start + 8 ≤ box.content_start
  pub progress : start + 8 ≤ box.end
  pub within : box.end ≤ end
  pub ends : box.content_end ≡ box.end

find_box-IsFound :
    (fuel : ℕ) (buf : Text) (pos end : ℕ) (want : Text) (box : BoxHeader)
    → find_box fuel buf pos end want ≡ ended (some box)
    → IsFound pos end want box
unfolding find_box
find_box-IsFound zero buf pos end want box h = cc
find_box-IsFound (suc fuel) buf pos end want box h = elim (Bool-cases (ltb end (pos + 8))) [
  | inl l ↦ ground (arith, h, l)
  | inr l ↦ elim (Option-cases (read_box_header buf pos end)) [
    | inl e ↦ ground (arith, h, l, e)
    | inr (first, e) ↦
        let w = read_box_header-IsWithinPart buf pos end first e in
        elim (Bool-cases (equal first.type want)) [
          | inl q ↦
              let same : first ≡ box = ground (arith, h, l, e, q) in
              ground (arith, same, q, w.progress, w.within, w.ends, w.starts)
          | inr q ↦
              let f =
                find_box-IsFound fuel buf first.end end want box (ground (arith, h, l, e, q)) in
              record {
                asked = f.asked;
                after_start = omega (arith, f.after_start, w.progress);
                progress = omega (arith, f.progress, w.progress);
                within = f.within;
                ends = f.ends;
              }
        ]
  ]
]

-- The walk ends: enough fuel for every byte is enough fuel for every box.
find_box_total :
    (fuel : ℕ) (buf : Text) (pos end : ℕ) (want : Text)
    → end - pos < fuel
    → (o : Option BoxHeader) × (find_box fuel buf pos end want ≡ ended o)
unfolding find_box
find_box_total zero buf pos end want h = elim h [ ]
find_box_total (suc fuel) buf pos end want h = elim (Bool-cases (ltb end (pos + 8))) [
  | inl l ↦ (none, rw l refl)
  | inr l ↦ elim (Option-cases (read_box_header buf pos end)) [
    | inl e ↦ (none, rw (e, l) refl)
    | inr (box, e) ↦
        let w = read_box_header-IsWithinPart buf pos end box e in
        let (o, q) =
          find_box_total fuel buf box.end end want (omega (arith, h, w.progress, w.within)) in
        elim (Bool-cases (equal box.type want)) [
          | inl same ↦ (some box, rw (e, l, same) refl)
          | inr differs ↦ (o, rw (e, l, differs) q)
        ]
  ]
]

-- Fuel changes nothing but whether the walk ends.
find_box_agrees :
    (f g : ℕ) (buf : Text) (pos end : ℕ) (want : Text)
    → end - pos < f
    → end - pos < g
    → find_box f buf pos end want ≡ find_box g buf pos end want
unfolding find_box
find_box_agrees zero g buf pos end want h k = elim h [ ]
find_box_agrees (suc f) zero buf pos end want h k = elim k [ ]
find_box_agrees (suc f) (suc g) buf pos end want h k =
    elim (Option-cases (read_box_header buf pos end)) [
      | inl e ↦ rw e refl
      | inr (box, e) ↦
          let w = read_box_header-IsWithinPart buf pos end box e in
          rw
            (
              e,
              find_box_agrees f g buf box.end end want (omega (arith, h, w.progress, w.within))
                  (omega (arith, k, w.progress, w.within)),
            )
            refl
    ]

found_by-ended : (w : WalkResult) (o : Option BoxHeader) → w ≡ ended o → w ≡ ended (found_by w)
unfolding found_by
found_by-ended out_of_fuel o h = cc
found_by-ended (ended x) o h = refl

-- The walk over the boxes of a part ends: with every fuel that exceeds the bytes of the part it does not
-- run out of fuel, and its result is the result of `findBox`.
pub find_box-eq-in :
    (fuel : ℕ) (buf : Text) (pos end : ℕ) (want : Text)
    → end - pos < fuel
    → find_box fuel buf pos end want ≡ ended (find_box_in buf pos end want)
unfolding find_box_in
find_box-eq-in fuel buf pos end want h =
    let (o, e) = find_box_total (suc end) buf pos end want (omega arith) in
    find_box_agrees fuel (suc end) buf pos end want h (omega arith)
    ∙ found_by-ended (find_box (suc end) buf pos end want) o e

-- A box that `findBox` finds has the type that was asked for, lies within the part, and is at least
-- eight bytes long.
find_box_in-IsFound :
    (buf : Text) (pos end : ℕ) (want : Text) (box : BoxHeader)
    → find_box_in buf pos end want ≡ some box
    → IsFound pos end want box
find_box_in-IsFound buf pos end want box h =
    find_box-IsFound (suc end) buf pos end want box
      (find_box-eq-in (suc end) buf pos end want (omega arith) ∙ ap ended h)

-- A byte within the buffer is there.
byte_in_range : (buf : Text) (i : ℕ) → i < length buf → (b : ℕ) × (byte_at buf i ≡ some b)
byte_in_range [] i h = ground (arith, h)
byte_in_range (b ∷ buf) zero h = (b, refl)
byte_in_range (b ∷ buf) (suc i) h = byte_in_range buf i (omega (arith, h))

-- Four bytes that lie within the buffer are read: no read of a box header that lies within the
-- buffer throws.
pub read_uint32_be_in_range :
    (buf : Text) (pos : ℕ) → pos + 4 ≤ length buf → (n : ℕ) × (read_uint32_be buf pos ≡ some n)
unfolding read_uint32_be join4
read_uint32_be_in_range buf pos h =
    let (a, ea) = byte_in_range buf pos (omega (arith, h)) in
    let (b, eb) = byte_in_range buf (pos + 1) (omega (arith, h)) in
    let (c, ec) = byte_in_range buf (pos + 2) (omega (arith, h)) in
    let (d, ed) = byte_in_range buf (pos + 3) (omega (arith, h)) in
    (a * 16_777_216 + b * 65_536 + c * 256 + d, rw (ea, eb, ec, ed) refl)
