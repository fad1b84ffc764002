-- ===== src/Utils/Fs/Tests.antt =====
-- The overwriting at concrete inputs.
use ppvda.Base.{
  ℕ, zero, suc, ◌≡◌, refl, [], ◌∷◌, some, length, replicate, arith, true, false, none, ◌==◌,
  if◌then◌else◌,
}
use ppvda.Base.Text.{Text, codes}
use ppvda.Utils.Fs.{
  Disk, overwrite, regular, other, directory, unlinks, unlinks_file, removes_dir, secure_remove_dir,
}
use ppvda.Utils.Fs.Overwritten.{overwrite_forgets}

abbrev sevens : ℕ → Text
sevens n = replicate n 7

length-sevens : (n : ℕ) → length (sevens n) ≡ n
length-sevens zero = refl
length-sevens (suc n) = omega (arith, length-sevens n)

abbrev disk : Disk
disk = record { random = sevens; opens = λ name. true; written = λ name offset len. some len }

-- The second write throws, or the file does not open.
abbrev full_disk : Disk
full_disk = record disk { written = λ name offset len. if offset == 0 then some 1 else none }

abbrev locked_disk : Disk
locked_disk = record disk { opens = λ name. false }

-- Files are overwritten, other entries unlinked, and directories left.
removed :
    secure_remove_dir disk
      (codes "job-1")
      (some ((codes "a", regular (1 ∷ 2 ∷ [])) ∷ (codes "b", other) ∷ (codes "c", directory) ∷ []))
    ≡ unlinks_file (codes "a") (7 ∷ 7 ∷ []) ∷ unlinks (codes "b") ∷ removes_dir (codes "job-1") ∷ []
unfolding secure_remove_dir
removed = refl

-- Bytes are left where a write is short, and all of them where the file does not open.
bytes_left :
    (overwrite full_disk (codes "a") (1 ∷ 2 ∷ []) ≡ 7 ∷ 2 ∷ [])
    × (overwrite locked_disk (codes "a") (1 ∷ 2 ∷ []) ≡ 1 ∷ 2 ∷ [])
unfolding overwrite
bytes_left = (refl, refl)

overwrite_forgets_example :
    overwrite disk (codes "a") (1 ∷ 2 ∷ 3 ∷ []) ≡ overwrite disk (codes "a") (4 ∷ 5 ∷ 6 ∷ [])
overwrite_forgets_example =
    overwrite_forgets disk (codes "a") (1 ∷ 2 ∷ 3 ∷ []) (4 ∷ 5 ∷ 6 ∷ []) refl (λ at len. refl)
      length-sevens refl
