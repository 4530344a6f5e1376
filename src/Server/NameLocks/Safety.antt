-- ===== src/Server/NameLocks/Safety.antt =====
-- internal/server/name_locks.go: what the callers of lock and tryLock rely on.
use mini.Prelude.{
  ℕ, ◌≤◌, ◌<◌, ◌≡◌, refl, sym, ◌∙◌, ap, Bool, true, false, Option, none, some, Bytes, ◌==◌, ==_iff,
  Bool-cases, Option-cases, ◌↔◌, ◌⊎◌, inl, inr, arith,
}
use mini.Prelude.Map.{lookup}
use mini.Server.NameLocks.{
  entry_of, entry_locked, try_entry, try_lock, Thread, idle, waiting, holding, releasing, System,
  Reach,
}
use mini.Server.NameLocks.Threads.{refers, holds, total-exists, weights-total, reference}
use mini.Server.NameLocks.Steps.{Reach-Inv, unlocked_count, not_some}

holds-holding : (id : ℕ) (t : Thread) → 1 ≤ holds id t → (name : Bytes) × (t ≡ holding name id)
holds-holding id idle h = absurd (omega arith)
holds-holding id (waiting name j) h = absurd (omega arith)
holds-holding id (releasing name j) h = absurd (omega arith)
holds-holding id (holding name j) h =
    (name, ap (λ k. holding name k) ((==_iff j id).0 (ground arith)))

-- Whatever the order in which goroutines call lock, tryLock and unlock, no two of them are
-- between a call for a name and its unlock at once.
pub mutual_exclusion :
    {n : ℕ} {s : System} (r : Reach n s) (i j : ℕ) (name : Bytes) (a b : ℕ)
    → i < n
    → j < n
    → s.thread i ≡ holding name a
    → s.thread j ≡ holding name b
    → i ≡ j
mutual_exclusion {n} {s} r i j name a b lt below e f = elim (Bool-cases (i == j)) [
  | inl same ↦ (==_iff i j).0 same
  | inr differ ↦
      let (inv, used) = Reach-Inv r in
      let g : some a ≡ some b =
        sym (inv.mapped i name a lt (ap reference e))
        ∙ inv.mapped j name b below (ap reference f) in
      let both = weights-total (holds a) s.thread n i j lt below differ in
      let own = inv.owned a in
      let v = ap (holds a) e in let w = ap (holds a) f in absurd (ground arith)
]

-- In every reachable state in which all goroutines are outside of lock, tryLock and release, the
-- map holds no lock: entries do not pile up.
pub no_lock_left :
    {n : ℕ} {s : System} (r : Reach n s) (name : Bytes)
    → ((i : ℕ) → i < n → s.thread i ≡ idle)
    → lookup s.shared.locks name ≡ none
no_lock_left {n} {s} r name quiet = elim (Option-cases (lookup s.shared.locks name)) [
  | inl e ↦ e
  | inr (id, e) ↦
      let (inv, used) = Reach-Inv r in
      let one = used name id e in
      let count = inv.counted id in
      let (i, lt, p) = total-exists (refers id) s.thread n (omega arith) in
      let w = ap (refers id) (quiet i lt) in absurd (omega arith)
]

-- A goroutine that holds this lock, under the name; one that holds some lock under the name.
abbrev pub Holds : ℕ → System → Bytes → ℕ → Type 0
Holds n s name id = (j : ℕ) × (j < n) × (s.thread j ≡ holding name id)

abbrev pub Holder : ℕ → System → Bytes → Type 0
Holder n s name = (j : ℕ) × (id : ℕ) × (j < n) × (s.thread j ≡ holding name id)

held-Holds :
    {n : ℕ} {s : System} (r : Reach n s) (name : Bytes) (id : ℕ)
    → lookup s.shared.locks name ≡ some id
    → s.shared.held id ≡ true
    → Holds n s name id
held-Holds {n} {s} r name id e h =
    let (inv, used) = Reach-Inv r in
    let own = inv.owned id in
    let (j, lt, p) = total-exists (holds id) s.thread n (ground arith) in
    let (other, f) = holds-holding id (s.thread j) p in
    let same = inv.distinct other name id (inv.mapped j other id lt (ap reference f)) e in
    (j, lt, f ∙ ap (λ k. holding k id) same)

-- In every reachable state the lock that a goroutine waits for is the one that the map has under
-- its name, and it is free, or a goroutine is between a call for the name that gave it this lock
-- and its unlock.
pub no_deadlock :
    {n : ℕ} {s : System} (r : Reach n s) (i : ℕ) (name : Bytes) (id : ℕ)
    → i < n
    → s.thread i ≡ waiting name id
    → (lookup s.shared.locks name ≡ some id) × ((s.shared.held id ≡ false) ⊎ Holds n s name id)
no_deadlock {n} {s} r i name id lt e =
    let mapped = (Reach-Inv r).0.mapped i name id lt (ap reference e) in
    (
      mapped,
      elim (Bool-cases (s.shared.held id)) [
        | inl h ↦ inr (held-Holds r name id mapped h)
        | inr h ↦ inl h
      ],
    )

abbrev fails : Option ℕ → Bool
fails none = true
fails (some id) = false

tried :
    {n : ℕ} {s : System} (r : Reach n s) (name : Bytes) (found : Option ℕ)
    → lookup s.shared.locks name ≡ found
    → (try_entry (entry_of s.shared name found)).0 ≡ none
    → Holder n s name
tried {n} {s} r name none e f = absurd (ground arith)
tried {n} {s} r name (some id) e f =
    let (j, lt, h) = held-Holds r name id e (ground arith) in (j, id, lt, h)

failed :
    {n : ℕ} {s : System} (r : Reach n s) (name : Bytes) (found : Option ℕ)
    → lookup s.shared.locks name ≡ found
    → Holder n s name
    → (try_entry (entry_of s.shared name found)).0 ≡ none
failed {n} {s} r name none e (j, id, lt, f) =
    absurd (not_some (sym e ∙ (Reach-Inv r).0.mapped j name id lt (ap reference f)))
failed {n} {s} r name (some k) e (j, id, lt, f) =
    let g = (Reach-Inv r).0.mapped j name id lt (ap reference f) in
    let one = unlocked_count n s.shared s.thread j name id lt (Reach-Inv r) f in ground arith

-- In every reachable state tryLock fails just when some goroutine is between a call for the name
-- and its unlock.
pub try_lock-none :
    {n : ℕ} {s : System} (r : Reach n s) (name : Bytes)
    → ((try_lock s.shared name).0 ≡ none) ↔ Holder n s name
unfolding try_lock entry_locked
try_lock-none {s} r name = (
  tried r name (lookup s.shared.locks name) refl,
  failed r name (lookup s.shared.locks name) refl,
)
