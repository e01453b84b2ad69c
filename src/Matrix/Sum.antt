-- ===== src/Matrix/Sum.antt =====
-- Sums over ranges of indices.
use cse4300_project.Prelude.{
  ℕ, zero, suc, ◌+◌, ◌*◌, ◌≤◌, ◌<◌, ◌≡◌, refl, ap, ◌∙◌, sym, arith, ◌==◌, if◌then◌else◌, Bool, true,
  false, inl, inr, Bool-cases,
}
use mathlib.Core.Path.{ap₂}

-- f i + … + f (i + n - 1)
abbrev pub sum_range : ℕ → ℕ → (ℕ → ℕ) → ℕ
sum_range zero i f = 0
sum_range (suc n) i f = f i + sum_range n (i + 1) f

pub sum_range-ext :
    (n i : ℕ) (f g : ℕ → ℕ)
    → ((j : ℕ) → i ≤ j → j < i + n → f j ≡ g j)
    → sum_range n i f ≡ sum_range n i g
sum_range-ext zero i f g h = refl
sum_range-ext (suc n) i f g h =
    ap₂ ◌+◌ (h i (omega arith) (omega arith))
      (sum_range-ext n (i + 1) f g (λ j p q. h j (omega arith) (omega arith)))

pub sum_range-zero : (n i : ℕ) → sum_range n i (λ j. 0) ≡ 0
sum_range-zero zero i = refl
sum_range-zero (suc n) i = omega (arith, sum_range-zero n (i + 1))

pub sum_range-outside :
    (n i k : ℕ) (f : ℕ → ℕ) → k < i → sum_range n i (λ j. if j == k then f j else 0) ≡ 0
sum_range-outside zero i k f h = refl
sum_range-outside (suc n) i k f h = ground (arith, sum_range-outside n (i + 1) k f)

pub sum_range-single :
    (n i k : ℕ) (f : ℕ → ℕ)
    → i ≤ k
    → k < i + n
    → sum_range n i (λ j. if j == k then f j else 0) ≡ f k
sum_range-single zero i k f h l = absurd (omega arith)
sum_range-single (suc n) i k f h l = elim (Bool-cases (i == k)) [
  | inl here ↦
      let same : i ≡ k = ground arith in
      rw here (ground (arith, sum_range-outside n (i + 1) k f (omega arith), ap f same))
  | inr later ↦
      rw later (omega (arith, sum_range-single n (i + 1) k f (ground arith) (omega arith)))
]

pub sum_range-append :
    (n m l i j : ℕ) (f : ℕ → ℕ)
    → l ≡ n + m
    → i + n ≡ j
    → sum_range n i f + sum_range m j f ≡ sum_range l i f
sum_range-append zero m l i j f e h =
    let same_length : l ≡ m = omega arith in
    let same_start : i ≡ j = omega arith in rw (same_length, same_start) (omega arith)
sum_range-append (suc n) m l i j f e h =
    let longer : l ≡ suc (n + m) = omega arith in
    rw longer (omega (arith, sum_range-append n m (n + m) (i + 1) j f refl (omega arith)))

pub sum_range-shift :
    (n i b k : ℕ) (f : ℕ → ℕ) → i + b ≡ k → sum_range n i (λ j. f (j + b)) ≡ sum_range n k f
sum_range-shift zero i b k f e = refl
sum_range-shift (suc n) i b k f e =
    ap₂ ◌+◌ (ap f e) (sum_range-shift n (i + 1) b (k + 1) f (omega arith))

-- Blocks of `c` indices, one after the other.
pub sum_range-blocks :
    (n b c : ℕ) (f : ℕ → ℕ)
    → sum_range n b (λ me. sum_range c 0 (λ j. f (j + me * c))) ≡ sum_range (n * c) (b * c) f
sum_range-blocks zero b c f = let none_left : 0 * c ≡ 0 = omega arith in rw none_left
sum_range-blocks (suc n) b c f =
    ap₂ ◌+◌ (sum_range-shift c 0 (b * c) (b * c) f (omega arith)) (sum_range-blocks n (b + 1) c f)
    ∙ sum_range-append c (n * c) (suc n * c) (b * c) ((b + 1) * c) f (omega arith) (omega arith)

-- The two loops of a double sum may be exchanged.
pub sum_range-add :
    (n i : ℕ) (f g : ℕ → ℕ) → sum_range n i (λ j. f j + g j) ≡ sum_range n i f + sum_range n i g
sum_range-add zero i f g = omega arith
sum_range-add (suc n) i f g = omega (arith, sum_range-add n (i + 1) f g)

pub sum_range-swap :
    (n m i j : ℕ) (f : ℕ → ℕ → ℕ)
    → sum_range n i (λ a. sum_range m j (λ b. f a b))
      ≡ sum_range m j (λ b. sum_range n i (λ a. f a b))
sum_range-swap zero m i j f = sym (sum_range-zero m j)
sum_range-swap (suc n) m i j f =
    ap (λ t. sum_range m j (f i) + t) (sum_range-swap n m (i + 1) j f)
    ∙ sym (sum_range-add m j (f i) (λ b. sum_range n (i + 1) (λ a. f a b)))

pub sum_range-le : (n i c : ℕ) (f : ℕ → ℕ) → ((j : ℕ) → f j ≤ c) → sum_range n i f ≤ n * c
sum_range-le zero i c f h = omega arith
sum_range-le (suc n) i c f h = omega (arith, h i, sum_range-le n (i + 1) c f h)

pub sum_range-blocks_all :
    (n c : ℕ) (f : ℕ → ℕ)
    → sum_range n 0 (λ me. sum_range c 0 (λ j. f (j + me * c))) ≡ sum_range (n * c) 0 f
sum_range-blocks_all n c f =
    let first : 0 * c ≡ 0 = omega arith in rw first at (sum_range-blocks n 0 c f)

pub sum_range-if :
    (b : Bool) (n i : ℕ) (f : ℕ → ℕ)
    → sum_range n i (λ j. if b then f j else 0) ≡ (if b then sum_range n i f else 0)
sum_range-if true n i f = refl
sum_range-if false n i f = sum_range-zero n i
