-- ===== src/Server/NameLocks/Threads.antt =====
-- internal/server/name_locks.go: how many goroutines refer to a lock, and hold it.
use mini.Prelude.{
  ℕ, zero, suc, ◌+◌, ◌≤◌, ◌<◌, ◌≡◌, refl, false, ◌==◌, if◌then◌else◌, inl, inr, Bool-cases, Bytes,
  Option, none, some, ap, ==_iff, arith,
}
use mini.Server.NameLocks.{set, Thread, idle, waiting, holding, releasing}

abbrev pub refers : ℕ → Thread → ℕ
refers id idle = 0
refers id (waiting name j) = if j == id then 1 else 0
refers id (holding name j) = if j == id then 1 else 0
refers id (releasing name j) = if j == id then 1 else 0

abbrev pub holds : ℕ → Thread → ℕ
holds id (holding name j) = if j == id then 1 else 0
holds id _ = 0

-- The sum of a weight over the first n goroutines.
unfoldable pub total : (Thread → ℕ) → ℕ → (ℕ → Thread) → ℕ
total w zero thread = 0
total w (suc n) thread = w (thread n) + total w n thread

module _ (w : Thread → ℕ) (thread : ℕ → Thread) where
  total-unchanged : (n i : ℕ) (t : Thread) → n ≤ i → total w n (set thread i t) ≡ total w n thread
  unfolding total
  total-unchanged zero i t h = refl
  total-unchanged (suc n) i t h = ground (arith, total-unchanged n i t (omega arith))

  -- When goroutine i moves, its weight is replaced.
  pub total-set :
      (n i : ℕ) (t : Thread)
      → i < n
      → total w n (set thread i t) + w (thread i) ≡ total w n thread + w t
  unfolding total
  total-set zero i t h = absurd (omega arith)
  total-set (suc n) i t h = elim (Bool-cases (i == n)) [
    | inl e ↦ ground (arith, e, total-unchanged n i t (ground (arith, e)))
    | inr e ↦ ground (arith, e, total-set n i t (ground (arith, e)))
  ]

  pub weight-total : (n i : ℕ) → i < n → w (thread i) ≤ total w n thread
  unfolding total
  weight-total zero i h = absurd (omega arith)
  weight-total (suc n) i h = elim (Bool-cases (i == n)) [
    | inl e ↦ ground (arith, e)
    | inr e ↦ ground (arith, e, weight-total n i (ground (arith, e)))
  ]

  -- Two goroutines weigh as much as both.
  pub weights-total :
      (n i j : ℕ)
      → i < n
      → j < n
      → (i == j) ≡ false
      → w (thread i) + w (thread j) ≤ total w n thread
  unfolding total
  weights-total zero i j h k d = absurd (omega arith)
  weights-total (suc n) i j h k d = elim (Bool-cases (i == n)) [
    | inl e ↦ ground (arith, e, weight-total n j (ground (arith, e, d)))
    | inr e ↦ elim (Bool-cases (j == n)) [
      | inl f ↦ ground (arith, e, f, weight-total n i (ground (arith, e)))
      | inr f ↦ ground (arith, e, f, weights-total n i j (ground (arith, e)) (ground (arith, f)) d)
    ]
  ]

  -- If the sum is not 0, some goroutine has a weight.
  pub total-exists : (n : ℕ) → 1 ≤ total w n thread → (i : ℕ) × (i < n) × (1 ≤ w (thread i))
  unfolding total
  total-exists zero h = absurd (omega arith)
  total-exists (suc n) h = elim (Bool-cases (w (thread n) == 0)) [
    | inl e ↦ let (i, lt, p) = total-exists n (ground (arith, e)) in (i, omega arith, p)
    | inr e ↦ (n, omega arith, ground (arith, e))
  ]

-- The lock to which a goroutine refers, and under which name.
abbrev pub reference : Thread → Option (Bytes × ℕ)
reference idle = none
reference (waiting name id) = some (name, id)
reference (holding name id) = some (name, id)
reference (releasing name id) = some (name, id)

pub refers-reference :
    (id : ℕ) (t : Thread) → 1 ≤ refers id t → (name : Bytes) × (reference t ≡ some (name, id))
refers-reference id idle h = absurd (omega arith)
refers-reference id (waiting name j) h =
    (name, ap (λ k. some (name, k)) ((==_iff j id).0 (ground arith)))
refers-reference id (holding name j) h =
    (name, ap (λ k. some (name, k)) ((==_iff j id).0 (ground arith)))
refers-reference id (releasing name j) h =
    (name, ap (λ k. some (name, k)) ((==_iff j id).0 (ground arith)))

pub reference-refers :
    (t : Thread) (name : Bytes) (id : ℕ) → reference t ≡ some (name, id) → refers id t ≡ 1
reference-refers idle name id e = absurd cc
reference-refers (waiting k j) name id e = ground arith
reference-refers (holding k j) name id e = ground arith
reference-refers (releasing k j) name id e = ground arith

holds-refers : (id : ℕ) (t : Thread) → holds id t ≤ refers id t
holds-refers id idle = omega arith
holds-refers id (waiting name j) = ground arith
holds-refers id (holding name j) = omega arith
holds-refers id (releasing name j) = ground arith

pub holds-total :
    (thread : ℕ → Thread) (id n : ℕ) → total (holds id) n thread ≤ total (refers id) n thread
unfolding total
holds-total thread id zero = omega arith
holds-total thread id (suc n) = omega (arith, holds-refers id (thread n), holds-total thread id n)

pub total-idle : (w : Thread → ℕ) (n : ℕ) → w idle ≡ 0 → 0 ≡ total w n (λ _. idle)
unfolding total
total-idle w zero e = refl
total-idle w (suc n) e = omega (arith, e, total-idle w n e)
