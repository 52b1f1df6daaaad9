-- ===== src/Socks/Bytes.antt =====
-- Numbers as bytes, and the lengths of texts that are cut.
use em_wall.Prelude.{
  ℕ, zero, suc, ◌+◌, ◌*◌, ◌/◌, ◌%◌, ◌^◌, ◌<◌, ◌≡◌, ◌∙◌, refl, ap, List, [], ◌∷◌, ◌++◌, Text, length,
  drop, length-append, arith,
}
use em_wall.Socks.{take, put_bytes, get_bytes}

pub length-put_bytes : (k n : ℕ) → length (put_bytes k n) ≡ k
unfolding put_bytes
length-put_bytes zero n = omega arith
length-put_bytes (suc k) n =
    omega
      (arith, length-append (put_bytes k (n / 256)) (n % 256 ∷ []), length-put_bytes k (n / 256))

get_bytes-append : (acc : ℕ) (d e : Text) → get_bytes acc (d ++ e) ≡ get_bytes (get_bytes acc d) e
unfolding get_bytes
get_bytes-append acc [] e = refl
get_bytes-append acc (b ∷ d) e = get_bytes-append (acc * 256 + b) d e

-- The number that its lowest bytes stand for.
pub get_bytes-put_bytes : (k n : ℕ) → n < 256 ^ k → get_bytes 0 (put_bytes k n) ≡ n
unfolding put_bytes get_bytes
get_bytes-put_bytes zero n h = omega arith
get_bytes-put_bytes (suc k) n h =
    let smaller : n / 256 < 256 ^ k = grind arith in
    let ih = get_bytes-put_bytes k (n / 256) smaller in
    get_bytes-append 0 (put_bytes k (n / 256)) (n % 256 ∷ []) ∙ omega (arith, ih)

pub take-append {ℓ} : {A : Type ℓ} (n : ℕ) (xs ys : List A) → length xs ≡ n → take n (xs ++ ys) ≡ xs
take-append zero [] ys h = refl
take-append zero (x ∷ xs) ys h = absurd (omega (arith, h))
take-append (suc n) [] ys h = absurd (omega (arith, h))
take-append (suc n) (x ∷ xs) ys h = ap (λ zs. x ∷ zs) (take-append n xs ys (omega (arith, h)))

pub drop-append {ℓ} : {A : Type ℓ} (n : ℕ) (xs ys : List A) → length xs ≡ n → drop n (xs ++ ys) ≡ ys
drop-append zero [] ys h = refl
drop-append zero (x ∷ xs) ys h = absurd (omega (arith, h))
drop-append (suc n) [] ys h = absurd (omega (arith, h))
drop-append (suc n) (x ∷ xs) ys h = drop-append n xs ys (omega (arith, h))
