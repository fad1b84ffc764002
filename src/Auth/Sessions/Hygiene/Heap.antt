-- ===== src/Auth/Sessions/Hygiene/Heap.antt =====
-- The bytes of a heap after one buffer is zeroed, and after one is added.
use ppvda.Base.{ℕ, zero, suc, ◌≡◌, refl, ap, ◌≢◌, List, [], ◌∷◌, ◌++◌, length, replicate, All}
use ppvda.Auth.Sessions.{buffer, zero_buffer}

abbrev pub IsZero : List ℕ → Type 0
IsZero = All (λ b. b ≡ 0)

replicate-IsZero : (n : ℕ) → IsZero (replicate n 0)
replicate-IsZero zero = tt
replicate-IsZero (suc n) = (refl, replicate-IsZero n)

pub IsZero-self : (h : List (List ℕ)) (a : ℕ) → IsZero (buffer (zero_buffer h a) a)
unfolding zero_buffer
IsZero-self [] a = tt
IsZero-self (b ∷ h) zero = replicate-IsZero (length b)
IsZero-self (b ∷ h) (suc a) = IsZero-self h a

pub buffer-zero_buffer_ne :
    (h : List (List ℕ)) (a c : ℕ) → a ≢ c → buffer (zero_buffer h a) c ≡ buffer h c
unfolding zero_buffer
buffer-zero_buffer_ne [] a c n = refl
buffer-zero_buffer_ne (b ∷ h) zero zero n = absurd (n refl)
buffer-zero_buffer_ne (b ∷ h) zero (suc c) n = refl
buffer-zero_buffer_ne (b ∷ h) (suc a) zero n = refl
buffer-zero_buffer_ne (b ∷ h) (suc a) (suc c) n = buffer-zero_buffer_ne h a c (λ e. n (ap suc e))

-- Zeroing keeps what is zero.
pub IsZero-zero_buffer :
    (h : List (List ℕ)) (a c : ℕ) → IsZero (buffer h c) → IsZero (buffer (zero_buffer h a) c)
unfolding zero_buffer
IsZero-zero_buffer [] a c z = z
IsZero-zero_buffer (b ∷ h) zero zero z = replicate-IsZero (length b)
IsZero-zero_buffer (b ∷ h) zero (suc c) z = z
IsZero-zero_buffer (b ∷ h) (suc a) zero z = z
IsZero-zero_buffer (b ∷ h) (suc a) (suc c) z = IsZero-zero_buffer h a c z

pub length-zero_buffer : (h : List (List ℕ)) (a : ℕ) → length (zero_buffer h a) ≡ length h
unfolding zero_buffer
length-zero_buffer [] a = refl
length-zero_buffer (b ∷ h) zero = refl
length-zero_buffer (b ∷ h) (suc a) = ap suc (length-zero_buffer h a)

pub buffer-append_ne :
    (h : List (List ℕ)) (b : List ℕ) (a : ℕ) → length h ≢ a → buffer (h ++ b ∷ []) a ≡ buffer h a
unfolding buffer
buffer-append_ne [] b zero n = absurd (n refl)
buffer-append_ne [] b (suc a) n = refl
buffer-append_ne (c ∷ h) b zero n = refl
buffer-append_ne (c ∷ h) b (suc a) n = buffer-append_ne h b a (λ e. n (ap suc e))

pub buffer-append_self : (h : List (List ℕ)) (b : List ℕ) → buffer (h ++ b ∷ []) (length h) ≡ b
unfolding buffer
buffer-append_self [] b = refl
buffer-append_self (c ∷ h) b = buffer-append_self h b
