-- ===== src/Darkreel/Codecs/Walk.antt =====
-- The walk over the tracks ends, and its result does not depend on the fuel.
use ppvda.Base.{ℕ, zero, suc, ◌+◌, ◌<◌, ◌≡◌, refl, arith, Option-cases, inl, inr}
use ppvda.Base.Text.{Text}
use ppvda.Darkreel.Mp4.{read_box_header}
use ppvda.Darkreel.Mp4.Walk.{read_box_header-IsWithinPart}
use ppvda.Darkreel.Codecs.{collect_codecs}

-- Any two amounts of fuel that exceed the bytes of `moov` collect the same codecs: the loop over the
-- tracks ends on every file.
collect_codecs_agrees :
    (f g : ℕ) (buf : Text) (pos end : ℕ)
    → end < pos + f
    → end < pos + g
    → collect_codecs f buf pos end ≡ collect_codecs g buf pos end
unfolding collect_codecs
collect_codecs_agrees zero zero buf pos end h k = refl
collect_codecs_agrees zero (suc g) buf pos end h k = ground arith
collect_codecs_agrees (suc f) zero buf pos end h k = ground arith
collect_codecs_agrees (suc f) (suc g) buf pos end h k =
    elim (Option-cases (read_box_header buf pos end)) [
      | inl e ↦ rw e refl
      | inr (box, e) ↦
          let w = read_box_header-IsWithinPart buf pos end box e in
          rw
            (
              e,
              collect_codecs_agrees f g buf box.end end (omega (arith, h, w.progress))
                  (omega (arith, k, w.progress)),
            )
            refl
    ]
