-- ===== src/Utils/Fs/Overwritten.antt =====
-- When nothing of a file is left as it is unlinked.
use ppvda.Utils.Fs.{Disk, overwrite, overwrite_chunk, overwrite_from, write_at}
use ppvda.Base.{
  Bool-cases, true, Option, some, ap, inl, inr, length-append, ltb, min, subst, sym, ◌<◌, ◌∙◌, ◌⊎◌,
  ℕ, zero, suc, ◌+◌, ◌-◌, ◌≤◌, ◌≡◌, refl, [], ◌∷◌, ◌++◌, length, take, drop, arith,
}
use ppvda.Base.Text.{Text}

take_all : (n : ℕ) (xs : Text) → length xs ≤ n → take n xs ≡ xs
take_all zero [] h = refl
take_all zero (x ∷ xs) h = ground (arith, h)
take_all (suc n) [] h = refl
take_all (suc n) (x ∷ xs) h = rw (take_all n xs (omega (arith, h))) refl

length-take : (n : ℕ) (xs : Text) → n ≤ length xs → length (take n xs) ≡ n
length-take zero xs h = refl
length-take (suc n) [] h = ground (arith, h)
length-take (suc n) (x ∷ xs) h = omega (arith, length-take n xs (omega (arith, h)))

length-drop : (n : ℕ) (xs : Text) → length (drop n xs) ≡ length xs - n
length-drop zero xs = omega arith
length-drop (suc n) [] = omega arith
length-drop (suc n) (x ∷ xs) = omega (arith, length-drop n xs)

-- The front of an appended text, at its length or behind it.
take-append_length :
    (xs ys zs : Text) (n : ℕ) → n ≡ length xs + length ys → take n (xs ++ (ys ++ zs)) ≡ xs ++ ys
take-append_length [] [] zs n h = rw h refl
take-append_length [] (y ∷ ys) zs zero h = ground (arith, h)
take-append_length [] (y ∷ ys) zs (suc n) h =
    rw (take-append_length [] ys zs n (omega (arith, h))) refl
take-append_length (x ∷ xs) ys zs zero h = ground (arith, h)
take-append_length (x ∷ xs) ys zs (suc n) h =
    rw (take-append_length xs ys zs n (omega (arith, h))) refl

length-write_at :
    (offset : ℕ) (bytes file : Text)
    → offset + length bytes ≤ length file
    → length (write_at offset bytes file) ≡ length file
unfolding write_at
length-write_at offset bytes file h = omega (
  arith,
  h,
  length-append (take offset file) (bytes ++ drop (offset + length bytes) file),
  length-append bytes (drop (offset + length bytes) file),
  length-take offset file (omega (arith, h)),
  length-drop (offset + length bytes) file,
)

take-write_at :
    (n offset : ℕ) (bytes file : Text)
    → offset ≤ length file
    → n ≡ offset + length bytes
    → take n (write_at offset bytes file) ≡ take offset file ++ bytes
unfolding write_at
take-write_at n offset bytes file h e =
    take-append_length (take offset file) bytes (drop (offset + length bytes) file) n
      (omega (arith, e, length-take offset file h))

-- Two files of one size with the same front.
abbrev Agrees : ℕ → ℕ → Text → Text → Type 0
Agrees size offset f g = (length f ≡ size) × (length g ≡ size) × (take offset f ≡ take offset g)

Agrees-all : (size offset : ℕ) (f g : Text) → size ≤ offset → Agrees size offset f g → f ≡ g
Agrees-all size offset f g h a =
    sym (take_all offset f (omega (arith, h, a.0)))
    ∙ a.2
    ∙ take_all offset g (omega (arith, h, a.1))

-- A write at the front makes the front longer.
Agrees-write_at :
    (size offset : ℕ) (bytes f g : Text)
    → offset + length bytes ≤ size
    → Agrees size offset f g
    → Agrees size (offset + length bytes) (write_at offset bytes f) (write_at offset bytes g)
Agrees-write_at size offset bytes f g h a = (
  length-write_at offset bytes f (omega (arith, h, a.0)) ∙ a.0,
  length-write_at offset bytes g (omega (arith, h, a.1)) ∙ a.1,
  take-write_at (offset + length bytes) offset bytes f (omega (arith, h, a.0)) refl
      ∙ ap (λ t. t ++ bytes) a.2
      ∙ sym (take-write_at (offset + length bytes) offset bytes g (omega (arith, h, a.1)) refl),
)

-- Behind the end the whole files agree.
Agrees-later :
    (size m n : ℕ) (f g : Text) → (m ≡ n) ⊎ (size ≤ m) → Agrees size m f g → Agrees size n f g
Agrees-later size m n f g (inl e) a = (a.0, a.1, subst (λ k. take k f ≡ take k g) e a.2)
Agrees-later size m n f g (inr h) a = (a.0, a.1, ap (take n) (Agrees-all size m f g h a))

-- Where the next turn begins.
turn_end :
    (b size offset : ℕ)
    → offset < size
    → (offset + min b (size - offset) ≡ offset + b) ⊎ (size ≤ offset + min b (size - offset))
turn_end b size offset h = elim (Bool-cases (ltb (size - offset) b)) [
  | inl l ↦ inr (ground (arith, h, l))
  | inr l ↦ inl (ground (arith, h, l))
]

take-take : (n : ℕ) (xs : Text) → n ≤ length xs → take n (take n xs) ≡ take n xs
take-take n xs h = take_all n (take n xs) (omega (arith, length-take n xs h))

overwrite_from-Agrees :
    (n : ℕ) (written : ℕ → ℕ → Option ℕ) (size : ℕ) (buf : Text) (offset : ℕ) (f g : Text)
    → ((at len : ℕ) → written at len ≡ some len)
    → 0 < length buf
    → size ≤ offset + n
    → Agrees size offset f g
    → overwrite_from n written size buf offset f ≡ overwrite_from n written size buf offset g
unfolding overwrite_from
overwrite_from-Agrees zero written size buf offset f g full b h a =
    Agrees-all size offset f g (omega (arith, h)) a
overwrite_from-Agrees (suc n) written size buf offset f g full b h a =
    elim (Bool-cases (ltb offset size)) [
      | inr over ↦ rw over (Agrees-all size offset f g (ground (arith, over)) a)
      | inl inside ↦
          let len = min (length buf) (size - offset) in
          let l = length-take len buf (omega arith) in
          let next = Agrees-write_at size offset (take len buf) f g (ground (arith, inside, l)) a in
          rw (inside, full offset len, take-take len buf (omega arith))
            (overwrite_from-Agrees n written size buf (offset + length buf)
              (write_at offset (take len buf) f) (write_at offset (take len buf) g) full b
              (omega (arith, h, b))
              (Agrees-later size (offset + length (take len buf)) (offset + length buf) _ _
                (rw l (turn_end (length buf) size offset (ground (arith, inside)))) next))
    ]

no_bytes : (f : Text) → length f ≡ 0 → f ≡ []
no_bytes [] h = refl
no_bytes (x ∷ f) h = ground (arith, h)

-- Where the file opens, every write puts down all of its bytes and `randomBytes` gives as many bytes as it
-- is asked for, the bytes with which a file is unlinked do not depend on what it held, but only on
-- its size.
pub overwrite_forgets :
    (disk : Disk) (name f g : Text)
    → disk.opens name ≡ true
    → ((at len : ℕ) → disk.written name at len ≡ some len)
    → ((n : ℕ) → length (disk.random n) ≡ n)
    → length f ≡ length g
    → overwrite disk name f ≡ overwrite disk name g
unfolding overwrite
overwrite_forgets disk name f g o full r e = elim (Bool-cases (ltb 0 (length f))) [
  | inr none_left ↦
      ap (overwrite disk name)
        (no_bytes f (ground (arith, none_left)) ∙ sym (no_bytes g (ground (arith, none_left, e))))
  | inl some_left ↦
      rw (o, sym e)
        (overwrite_from-Agrees (length f) (disk.written name) (length f)
          (disk.random (min overwrite_chunk (length f))) 0 f g full
          (ground (arith, r (min overwrite_chunk (length f)), some_left)) (omega arith)
          (refl, sym e, refl))
]
