-- ===== src/Response/Store/Accounting.antt =====
-- internal/response/storage_cleanup.go: the count of used bytes, kept by every part under the mutex.
use mini.Prelude.{
  ℕ, ◌+◌, ◌-◌, ◌≡◌, ap, refl, ◌||◌, not, List, [], ◌∷◌, ◌++◌, Bytes, is_empty, ltb, if-elim, arith,
}
use mini.Prelude.Int.{ℤ}
use mini.Response.Store.{
  StoredFile, Store, over, is_zero, Evicted, evict_loop, evict_overshoot, record_write,
  partition_by_expiry, release, evict_expired, reclaim, restore_failed,
}

abbrev pub total : List StoredFile → ℕ
total [] = 0
total (f ∷ files) = f.size + total files

-- The store counts the bytes of the files that it lists.
abbrev pub Accounted : Store → Type 0
Accounted s = s.used_bytes ≡ total s.files

total-append : (a b : List StoredFile) → total (a ++ b) ≡ total a + total b
total-append [] b = omega arith
total-append (f ∷ a) b = omega (arith, total-append a b)

pub out-kept :
    (budget : ℤ) (used : ℕ) (files : List StoredFile)
    → (evict_loop budget used files).out ++ (evict_loop budget used files).kept ≡ files
unfolding evict_loop
out-kept budget used [] = refl
out-kept budget used (f ∷ []) = refl
out-kept budget used (f ∷ g ∷ files) =
    if-elim (λ (e : Evicted). e.out ++ e.kept ≡ f ∷ g ∷ files) (over used budget) _ _
      (λ _. ap (◌∷◌ f) (out-kept budget (used - f.size) (g ∷ files))) (λ _. refl)

pub evict_loop-counts :
    (budget : ℤ) (used : ℕ) (files : List StoredFile)
    → used ≡ total files
    → (evict_loop budget used files).used ≡ total (evict_loop budget used files).kept
unfolding evict_loop
evict_loop-counts budget used [] h = h
evict_loop-counts budget used (f ∷ []) h = h
evict_loop-counts budget used (f ∷ g ∷ files) h =
    if-elim (λ (e : Evicted). e.used ≡ total e.kept) (over used budget) _ _
      (λ _. evict_loop-counts budget (used - f.size) (g ∷ files) (omega arith)) (λ _. h)

pub evict_overshoot-Accounted : (s : Store) → Accounted s → Accounted (evict_overshoot s).1
unfolding evict_overshoot
evict_overshoot-Accounted s h =
    if-elim (λ (r : List StoredFile × Store). Accounted r.1)
      (is_zero s.budget_bytes || not (over s.used_bytes s.budget_bytes)) _ _ (λ _. h)
      (λ _. evict_loop-counts s.budget_bytes s.used_bytes s.files h)

pub record_write-Accounted :
    (path : Bytes) (size now : ℕ) (s : Store)
    → Accounted s
    → Accounted (record_write path size now s).1
unfolding record_write
record_write-Accounted path size now s h =
    let f : StoredFile = record { path = path; size = size; expires = now + s.ttl } in
    evict_overshoot-Accounted _ (omega (arith, h, total-append s.files (f ∷ [])))

-- partition splits the sizes, too.
total-partition :
    (files : List StoredFile) (now : ℕ)
    → total files
      ≡ total (partition_by_expiry files now).0 + total (partition_by_expiry files now).1
unfolding partition_by_expiry
total-partition [] now = refl
total-partition (f ∷ files) now =
    if-elim
      (λ (r : List StoredFile × List StoredFile). f.size + total files ≡ total r.0 + total r.1)
      (ltb now f.expires) _ _ (λ _. omega (arith, total-partition files now))
      (λ _. omega (arith, total-partition files now))

release_lem : (used : ℕ) (files : List StoredFile) → release used files ≡ used - total files
unfolding release
release_lem used [] = omega arith
release_lem used (f ∷ files) = omega (arith, release_lem (used - f.size) files)

reclaim_lem : (used : ℕ) (files : List StoredFile) → reclaim used files ≡ used + total files
unfolding reclaim
reclaim_lem used [] = omega arith
reclaim_lem used (f ∷ files) = omega (arith, reclaim_lem (used + f.size) files)

pub evict_expired-Accounted :
    (now : ℕ) (s : Store) → Accounted s → Accounted (evict_expired now s).1
unfolding evict_expired
evict_expired-Accounted now s h = omega (
  arith,
  h,
  total-partition s.files now,
  release_lem s.used_bytes (partition_by_expiry s.files now).1,
)

pub restore_failed-Accounted :
    (failed : List StoredFile) (s : Store) → Accounted s → Accounted (restore_failed failed s)
unfolding restore_failed
restore_failed-Accounted failed s h =
    if-elim Accounted (is_empty failed) _ _ (λ _. h)
      (λ _. omega (arith, h, reclaim_lem s.used_bytes failed, total-append failed s.files))
