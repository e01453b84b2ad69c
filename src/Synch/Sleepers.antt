-- ===== src/Synch/Sleepers.antt =====
-- The sleepers on one address, when others are woken and when a thread goes to sleep.
use cse4300_project.Prelude.{
  ◌≡◌, ◌≢◌, refl, Bool, false, List, [], ◌∷◌, ◌++◌, Option, some, arith, ◌==◌, inl, inr, ◌⊎◌,
  Bool-cases,
}
use cse4300_project.Platform.{Ptr, Platform}
use cse4300_project.Platform.Arrays.{select, reject}
use cse4300_project.Kernel.{Thread, update, waits}

pub none_selected :
    {A : Type 0} (q : A → Bool) (x : A) (xs : List A)
    → select q (x ∷ xs) ≡ []
    → (q x ≡ false) × (select q xs ≡ [])
none_selected q x xs h = ground arith

module _ {A : Type 0} (p : A → Bool) where
  pub select-reject : (xs : List A) → select p (reject p xs) ≡ []
  select-reject [] = refl
  select-reject (x ∷ xs) = elim (Bool-cases (p x)) [
    | inl hit ↦ rw hit (select-reject xs)
    | inr miss ↦ rw miss (rw miss (select-reject xs))
  ]

  pub select-reject_other :
      (q : A → Bool) (xs : List A) → select q xs ≡ [] → select q (reject p xs) ≡ []
  select-reject_other q [] h = refl
  select-reject_other q (x ∷ xs) h = elim (Bool-cases (p x)) [
    | inl hit ↦ rw hit (select-reject_other q xs (none_selected q x xs h).1)
    | inr miss ↦
        rw (miss, (none_selected q x xs h).0) (select-reject_other q xs (none_selected q x xs h).1)
  ]

module _ ⦃os : Platform⦄ where
  abbrev pub asleep_at : (Ptr → Option Thread) → Ptr → Ptr → Thread → Ptr → Option Thread
  asleep_at threads cur addr t = update threads cur (some (record t { t_sleepaddr = addr }))

  waits-asleep_at :
      (threads : Ptr → Option Thread) (cur addr other : Ptr) (t : Thread) (x : Ptr)
      → addr ≢ other
      → (waits threads other x ≡ false) ⊎ (cur ≡ x)
      → waits (asleep_at threads cur addr t) other x ≡ false
  waits-asleep_at threads cur addr other t x ne h = elim (Bool-cases (cur == x)) [
    | inl now ↦ let apart : (addr == other) ≡ false = ground arith in rw (now, waits) apart
    | inr before ↦ rw (before, waits) (ground arith)
  ]

  -- A new sleeper on `addr` is no sleeper on another address.
  pub select-asleep_at :
      (threads : Ptr → Option Thread) (cur addr other : Ptr) (t : Thread) (xs : List Ptr)
      → addr ≢ other
      → select (waits threads other) xs ≡ []
      → select (waits (asleep_at threads cur addr t) other) (xs ++ cur ∷ []) ≡ []
  select-asleep_at threads cur addr other t [] ne h =
      rw (waits-asleep_at threads cur addr other t cur ne (inr refl)) refl
  select-asleep_at threads cur addr other t (x ∷ xs) ne h =
      let (miss, rest) = none_selected (waits threads other) x xs h in
      rw (waits-asleep_at threads cur addr other t x ne (inl miss))
        (select-asleep_at threads cur addr other t xs ne rest)
