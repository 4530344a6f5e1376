-- ===== src/Server/NameLocks/Invariant.antt =====
-- internal/server/name_locks.go: what holds of the locks and the goroutines in every reachable state.
use mini.Prelude.{
  ℕ, ◌+◌, ◌≤◌, ◌<◌, ◌≡◌, Bool, false, Option, none, some, Bytes, bytes_eq, bytes_eq_iff, ◌==◌,
  if◌then◌else◌, if-elim, Bool-cases, inl, inr, ==_iff, arith,
}
use mini.Prelude.Map.{lookup, insert, lookup-insert}
use mini.Server.NameLocks.{set, NameLocks, entry_of, Thread}
use mini.Server.NameLocks.Threads.{
  refers, holds, total, total-set, reference, refers-reference, holds-total,
}

abbrev pub bit : Bool → ℕ
bit b = if b then 1 else 0

-- Counts, mutexes and the map agree with the goroutines; every name has a lock of its own.
pub record IsCounted (n : ℕ) (l : NameLocks) (thread : ℕ → Thread) : Type 0 where
  pub counted : (id : ℕ) → l.refs id ≡ total (refers id) n thread
  pub owned : (id : ℕ) → bit (l.held id) ≡ total (holds id) n thread
  pub mapped :
      (i : ℕ) (name : Bytes) (id : ℕ)
      → i < n
      → reference (thread i) ≡ some (name, id)
      → lookup l.locks name ≡ some id
  pub known : (name : Bytes) (id : ℕ) → lookup l.locks name ≡ some id → id < l.allocated
  pub distinct :
      (name other : Bytes) (id : ℕ)
      → lookup l.locks name ≡ some id
      → lookup l.locks other ≡ some id
      → name ≡ other
  pub fresh : (id : ℕ) → l.allocated ≤ id → l.refs id ≡ 0

-- Every lock of the map has a reference; or every other one.
abbrev pub IsUsed : NameLocks → Type 0
IsUsed l = (name : Bytes) (id : ℕ) → lookup l.locks name ≡ some id → 1 ≤ l.refs id

abbrev pub IsUsedBut : ℕ → NameLocks → Type 0
IsUsedBut id l =
    (name : Bytes) (j : ℕ) → lookup l.locks name ≡ some j → (j == id) ≡ false → 1 ≤ l.refs j

abbrev with_counts : NameLocks → (ℕ → Bool) → (ℕ → ℕ) → NameLocks
with_counts l held refs = record {
  locks = l.locks;
  held = held;
  refs = refs;
  allocated = l.allocated;
}

-- The name has this lock, which may be the only one without a reference.
abbrev pub Entered : ℕ → (ℕ → Thread) → Bytes → ℕ × NameLocks → Type 0
Entered n thread name (id, m) =
    IsCounted n m thread × (lookup m.locks name ≡ some id) × IsUsedBut id m

module _ (n : ℕ) (l : NameLocks) (thread : ℕ → Thread) (inv : IsCounted n l thread) where
  -- One goroutine moves, and the counts follow.
  pub move-IsCounted :
      (i : ℕ) (t : Thread) (held : ℕ → Bool) (refs : ℕ → ℕ)
      → i < n
      → ((id : ℕ) → refs id + refers id (thread i) ≡ l.refs id + refers id t)
      → ((id : ℕ) → bit (held id) + holds id (thread i) ≡ bit (l.held id) + holds id t)
      → ((name : Bytes) (id : ℕ) → reference t ≡ some (name, id) → lookup l.locks name ≡ some id)
      → IsCounted n (with_counts l held refs) (set thread i t)
  move-IsCounted i t held refs lt r h m = record {
    counted = λ id. omega (arith, r id, inv.counted id, total-set (refers id) thread n i t lt);
    owned = λ id. omega (arith, h id, inv.owned id, total-set (holds id) thread n i t lt);
    mapped = λ j name id below.
        if-elim (λ (u : Thread). reference u ≡ some (name, id) → lookup l.locks name ≡ some id)
          (i == j) _ _ (λ _. m name id) (λ _. inv.mapped j name id below);
    known = inv.known;
    distinct = inv.distinct;
    fresh = λ id above. elim (Bool-cases (refers id t == 0)) [
      | inl e ↦ omega (arith, r id, inv.fresh id above, (==_iff (refers id t) 0).0 e)
      | inr e ↦
          let (name, f) = refers-reference id t (ground (arith, e)) in
          let below = inv.known name id (m name id f) in absurd (omega arith)
    ];
  }

  pub entry-Entered :
      (name : Bytes) (found : Option ℕ)
      → IsUsed l
      → lookup l.locks name ≡ found
      → Entered n thread name (entry_of l name found)
  entry-Entered name (some id) used e = (inv, e, λ k j f _. used k j f)
  entry-Entered name none used e = (
    record {
      counted = λ id.
          let unused = inv.fresh l.allocated (omega arith) in
          let count = inv.counted id in ground arith;
      owned = λ id.
          let unused = inv.fresh l.allocated (omega arith) in
          let count = inv.counted l.allocated in
          let few = holds-total thread l.allocated n in let own = inv.owned id in ground arith;
      mapped = λ i k id below f.
          let found = inv.mapped i k id below f in
          ground (arith, lookup-insert l.locks name k l.allocated, bytes_eq_iff name k);
      known = λ k id f. elim (Bool-cases (bytes_eq name k)) [
        | inl b ↦ ground (arith, b, lookup-insert l.locks name k l.allocated)
        | inr b ↦ let below = inv.known k id (other-found k id b f) in omega arith
      ];
      distinct = λ k j id f g. ground (
        arith,
        lookup-insert l.locks name k l.allocated,
        lookup-insert l.locks name j l.allocated,
        bytes_eq_iff name k,
        bytes_eq_iff name j,
        inv.distinct k j id,
        inv.known k id,
        inv.known j id,
      );
      fresh = λ id above. let unused = inv.fresh id (omega arith) in ground arith;
    },
    ground (arith, lookup-insert l.locks name name l.allocated, bytes_eq_iff name name),
    λ k j f d. elim (Bool-cases (bytes_eq name k)) [
      | inl b ↦ absurd (ground (arith, b, lookup-insert l.locks name k l.allocated))
      | inr b ↦ let one = used k j (other-found k j b f) in ground arith
    ],
  )
    where
      other-found :
          (k : Bytes) (id : ℕ)
          → bytes_eq name k ≡ false
          → lookup (insert l.locks name l.allocated) k ≡ some id
          → lookup l.locks k ≡ some id
      other-found k id b f = ground (arith, lookup-insert l.locks name k l.allocated)
