-- ===== src/Worker/Sender/Numbers.antt =====
-- Numbers in a row.
use not_so_simple_software_f.Prelude.{
  ℕ, zero, suc, ◌+◌, ◌≡◌, refl, ap, ◌∙◌, List, [], ◌∷◌, ◌++◌, arith, length,
}
use mathlib.Core.List.{cons≢nil, tail-eq_of_cons-eq}

-- k, k + 1, ..., k + n - 1
unfoldable pub count_from : ℕ → ℕ → List ℕ
count_from k zero = []
count_from k (suc n) = k ∷ count_from (suc k) n

count_from-snoc : (k n : ℕ) → count_from k n ++ (k + n) ∷ [] ≡ count_from k (suc n)
unfolding count_from
count_from-snoc k zero = let e : k + 0 ≡ k = omega arith in ap (λ m. m ∷ []) e
count_from-snoc k (suc n) =
    let e : k + suc n ≡ suc k + n = omega arith in
    ap (λ m. k ∷ (count_from (suc k) n ++ m ∷ [])) e
    ∙ ap (λ rest. k ∷ rest) (count_from-snoc (suc k) n)

-- 0, 1, ..., n - 1
abbrev pub numbered : ℕ → List ℕ
numbered n = count_from 0 n

pub numbered_succ : (n : ℕ) → numbered n ++ n ∷ [] ≡ numbered (n + 1)
numbered_succ n =
    let e : n ≡ 0 + n = omega arith in
    let f : suc n ≡ n + 1 = omega arith in
    ap (λ m. numbered n ++ m ∷ []) e ∙ count_from-snoc 0 n ∙ ap numbered f

-- The beginning of a list of numbers.
pub count_from-prefix :
    (k n : ℕ) (front back : List ℕ)
    → front ++ back ≡ count_from k n
    → front ≡ count_from k (length front)
unfolding count_from
count_from-prefix k n [] back h = refl
count_from-prefix k zero (x ∷ front) back h = absurd (cons≢nil h)
count_from-prefix k (suc n) (x ∷ front) back h =
    let rest = count_from-prefix (suc k) n front back (tail-eq_of_cons-eq h) in cc
