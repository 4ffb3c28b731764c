-- ===== src/StateRoot/Xor.antt =====
-- The laws of the exclusive-or on the bytes of a root.
use nftlox.Prelude.{
  ℕ, zero, suc, ◌+◌, ◌*◌, ◌/◌, ◌%◌, ◌^◌, ◌<◌, ◌≡◌, refl, sym, ◌∙◌, List, [], ◌∷◌, length, arith,
}
use nftlox.StateRoot.Hash.{zeros, xor_bits, xor_bytes}

xor_bits_comm : (n a b : ℕ) → xor_bits n a b ≡ xor_bits n b a
unfolding xor_bits
xor_bits_comm zero a b = refl
xor_bits_comm (suc n) a b = omega (arith, xor_bits_comm n (a / 2) (b / 2))

zero_bits : (a b : ℕ) → xor_bits zero a b ≡ 0
unfolding xor_bits
zero_bits a b = refl

low : (n a b : ℕ) → xor_bits (suc n) a b % 2 ≡ (a + b) % 2
unfolding xor_bits
low n a b = omega arith

high : (n a b : ℕ) → xor_bits (suc n) a b / 2 ≡ xor_bits n (a / 2) (b / 2)
unfolding xor_bits
high n a b = omega arith

step : (n a b : ℕ) → xor_bits (suc n) a b ≡ (a % 2 + b % 2) % 2 + 2 * xor_bits n (a / 2) (b / 2)
unfolding xor_bits
step n a b = refl

xor_bits_assoc : (n a b c : ℕ) → xor_bits n (xor_bits n a b) c ≡ xor_bits n a (xor_bits n b c)
xor_bits_assoc zero a b c = zero_bits (xor_bits zero a b) c ∙ sym (zero_bits a (xor_bits zero b c))
xor_bits_assoc (suc n) a b c =
    rw
      (
        step n (xor_bits (suc n) a b) c,
        step n a (xor_bits (suc n) b c),
        high n a b,
        high n b c,
        low n a b,
        low n b c,
        xor_bits_assoc n (a / 2) (b / 2) (c / 2),
      )
      (omega arith)

xor_bits_self : (n a : ℕ) → xor_bits n a a ≡ 0
unfolding xor_bits
xor_bits_self zero a = refl
xor_bits_self (suc n) a = omega (arith, xor_bits_self n (a / 2))

xor_bits-zero : (n a : ℕ) → a < 2 ^ n → xor_bits n a 0 ≡ a
unfolding xor_bits
xor_bits-zero zero a h = omega arith
xor_bits-zero (suc n) a h = omega (arith, xor_bits-zero n (a / 2) (omega arith))

xor_bits-lt : (n a b : ℕ) → xor_bits n a b < 2 ^ n
unfolding xor_bits
xor_bits-lt zero a b = omega arith
xor_bits-lt (suc n) a b = omega (arith, xor_bits-lt n (a / 2) (b / 2))

-- Bytes, `n` of them.
unfoldable pub IsRoot : ℕ → List ℕ → Type 0
IsRoot zero [] = Unit
IsRoot zero (a ∷ xs) = ⊥
IsRoot (suc n) [] = ⊥
IsRoot (suc n) (a ∷ xs) = (a < 256) × IsRoot n xs

pub length-IsRoot : (n : ℕ) (xs : List ℕ) → IsRoot n xs → length xs ≡ n
unfolding IsRoot
length-IsRoot zero [] h = refl
length-IsRoot zero (a ∷ xs) h = elim h [ ]
length-IsRoot (suc n) [] h = elim h [ ]
length-IsRoot (suc n) (a ∷ xs) h = omega (arith, length-IsRoot n xs h.1)

pub xor_bytes-IsRoot :
    (n : ℕ) (xs ys : List ℕ) → IsRoot n xs → IsRoot n ys → IsRoot n (xor_bytes xs ys)
unfolding xor_bytes IsRoot
xor_bytes-IsRoot zero [] [] h k = tt
xor_bytes-IsRoot zero [] (b ∷ ys) h k = elim k [ ]
xor_bytes-IsRoot zero (a ∷ xs) ys h k = elim h [ ]
xor_bytes-IsRoot (suc n) [] ys h k = elim h [ ]
xor_bytes-IsRoot (suc n) (a ∷ xs) [] h k = elim k [ ]
xor_bytes-IsRoot (suc n) (a ∷ xs) (b ∷ ys) h k =
    (omega (arith, xor_bits-lt 8 a b), xor_bytes-IsRoot n xs ys h.1 k.1)

pub zeros-IsRoot : (n : ℕ) → IsRoot n (zeros n)
unfolding zeros IsRoot
zeros-IsRoot zero = tt
zeros-IsRoot (suc n) = (omega arith, zeros-IsRoot n)

pub xor_bytes_comm : (xs ys : List ℕ) → xor_bytes xs ys ≡ xor_bytes ys xs
unfolding xor_bytes
xor_bytes_comm [] [] = refl
xor_bytes_comm [] (b ∷ ys) = refl
xor_bytes_comm (a ∷ xs) [] = refl
xor_bytes_comm (a ∷ xs) (b ∷ ys) = rw (xor_bits_comm 8 a b, xor_bytes_comm xs ys) refl

pub xor_bytes_assoc :
    (xs ys zs : List ℕ) → xor_bytes (xor_bytes xs ys) zs ≡ xor_bytes xs (xor_bytes ys zs)
unfolding xor_bytes
xor_bytes_assoc [] [] zs = refl
xor_bytes_assoc [] (b ∷ ys) [] = refl
xor_bytes_assoc [] (b ∷ ys) (c ∷ zs) = refl
xor_bytes_assoc (a ∷ xs) [] zs = refl
xor_bytes_assoc (a ∷ xs) (b ∷ ys) [] = refl
xor_bytes_assoc (a ∷ xs) (b ∷ ys) (c ∷ zs) =
    rw (xor_bits_assoc 8 a b c, xor_bytes_assoc xs ys zs) refl

pub xor_bytes-zeros : (n : ℕ) (xs : List ℕ) → IsRoot n xs → xor_bytes xs (zeros n) ≡ xs
unfolding xor_bytes zeros IsRoot
xor_bytes-zeros zero [] h = refl
xor_bytes-zeros zero (a ∷ xs) h = elim h [ ]
xor_bytes-zeros (suc n) [] h = elim h [ ]
xor_bytes-zeros (suc n) (a ∷ xs) h =
    rw (xor_bits-zero 8 a (omega (arith, h.0)), xor_bytes-zeros n xs h.1) refl

pub xor_bytes_self : (n : ℕ) (xs : List ℕ) → IsRoot n xs → xor_bytes xs xs ≡ zeros n
unfolding xor_bytes zeros IsRoot
xor_bytes_self zero [] h = refl
xor_bytes_self zero (a ∷ xs) h = elim h [ ]
xor_bytes_self (suc n) [] h = elim h [ ]
xor_bytes_self (suc n) (a ∷ xs) h = rw (xor_bits_self 8 a, xor_bytes_self n xs h.1) refl

-- A root that is combined twice drops out.
pub xor_bytes_twice :
    (n : ℕ) (xs ys : List ℕ) → IsRoot n xs → IsRoot n ys → xor_bytes (xor_bytes xs ys) ys ≡ xs
xor_bytes_twice n xs ys h k =
    rw (xor_bytes_assoc xs ys ys, xor_bytes_self n ys k) (xor_bytes-zeros n xs h)
