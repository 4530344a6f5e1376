-- ===== src/Server/NameLocks/Steps.antt =====
-- internal/server/name_locks.go: every step keeps the invariant.
use mini.Prelude.{
  ℕ, ◌+◌, ◌-◌, ◌≤◌, ◌<◌, ◌≡◌, refl, sym, ◌∙◌, subst, Bool, true, false, Option, none, some, Bytes,
  bytes_eq, bytes_eq_iff, ◌==◌, if◌then◌else◌, if-elim, Bool-cases, inl, inr, ==_iff, ap, arith,
}
use mini.Prelude.Map.{lookup, erase, lookup-erase}
use mini.Server.NameLocks.{
  set, NameLocks, entry_locked, with_refs, begin_lock, try_entry, try_lock, delete_unused,
  drop_reference, Thread, idle, waiting, holding, releasing, after_try, System, Step, calls_lock,
  acquires, calls_try_lock, unlocks, drops, init, Reach, start, later,
}
use mini.Server.NameLocks.Threads.{
  refers, holds, weight-total, reference, reference-refers, holds-total, total-idle,
}
use mini.Server.NameLocks.Invariant.{
  bit, IsCounted, IsUsed, IsUsedBut, Entered, move-IsCounted, entry-Entered,
}

abbrev pub Inv : ℕ → NameLocks → (ℕ → Thread) → Type 0
Inv n l thread = IsCounted n l thread × IsUsed l

reference-injective :
    (name other : Bytes) (id j : ℕ)
    → ◌≡◌ {A = Option (Bytes × ℕ)} (some (name, id)) (some (other, j))
    → (name ≡ other) × (id ≡ j)
reference-injective name other id j e = (cc, cc)

pub not_some : {A : Type 0} {a : A} → ◌≡◌ {A = Option A} none (some a) → ⊥
not_some e = cc

-- A lock without a reference is dropped, and no other.
deleted-Inv :
    (n : ℕ) (l : NameLocks) (thread : ℕ → Thread) (name : Bytes) (id : ℕ)
    → IsCounted n l thread
    → lookup l.locks name ≡ some id
    → IsUsedBut id l
    → Inv n (delete_unused l name id) thread
deleted-Inv n l thread name id inv f used =
    if-elim (λ (m : NameLocks). Inv n m thread) (l.refs id == 0) _ _
      (λ z. (
        record {
          counted = inv.counted;
          owned = inv.owned;
          mapped = λ i k j lt g. elim (Bool-cases (bytes_eq name k)) [
            | inl b ↦
                let found = inv.mapped i k j lt g in
                let one = weight-total (refers j) thread n i lt in
                let w = reference-refers (thread i) k j g in
                let count = inv.counted j in
                let same = (bytes_eq_iff name k).0 b in absurd (ground arith)
            | inr b ↦ rw (lookup-erase l.locks name k) (rw b (inv.mapped i k j lt g))
          ];
          known = λ k j g. inv.known k j (kept k j g);
          distinct = λ k o j g h. inv.distinct k o j (kept k j g) (kept o j h);
          fresh = inv.fresh;
        },
        λ k j g. used k j (kept k j g) (other k j g),
      ))
      (λ z. (
        inv,
        λ k j g. elim (Bool-cases (j == id)) [
          | inl d ↦ ground (arith, d, z)
          | inr d ↦ used k j g d
        ],
      ))
  where
    kept : (k : Bytes) (j : ℕ) → lookup (erase l.locks name) k ≡ some j → lookup l.locks k ≡ some j
    kept k j g = ground (arith, lookup-erase l.locks name k)

    other : (k : Bytes) (j : ℕ) → lookup (erase l.locks name) k ≡ some j → (j == id) ≡ false
    other k j g = ground (
      arith,
      lookup-erase l.locks name k,
      bytes_eq_iff name k,
      inv.distinct name k id f,
      kept k j g,
    )

module _ (n : ℕ) (l : NameLocks) (thread : ℕ → Thread) (i : ℕ) (name : Bytes) (id : ℕ)
    (lt : i < n) where
  -- A new reference, to a lock under its name.
  referred-Inv :
      (t : Thread) (held : ℕ → Bool)
      → IsCounted n l thread
      → lookup l.locks name ≡ some id
      → IsUsedBut id l
      → thread i ≡ idle
      → ((j : ℕ) → refers j t ≡ (if id == j then 1 else 0))
      → ((j : ℕ) → bit (held j) ≡ bit (l.held j) + holds j t)
      → reference t ≡ some (name, id)
      → Inv n
          (record {
            locks = l.locks;
            held = held;
            refs = set l.refs id (l.refs id + 1);
            allocated = l.allocated;
          })
          (set thread i t)
  referred-Inv t held inv f used e r h m = (
    move-IsCounted n l thread inv i t held (set l.refs id (l.refs id + 1)) lt
        (λ j. let w = r j in rw e (ground arith)) (λ j. let w = h j in rw e (omega arith))
        (λ k j g.
          let (a, b) = reference-injective name k id j (sym m ∙ g) in
          subst (λ (x : Bytes). lookup l.locks x ≡ some j) a (f ∙ ap some b)),
    λ k j g. elim (Bool-cases (j == id)) [
      | inl d ↦ ground (arith, d)
      | inr d ↦ let one = used k j g d in ground (arith, d)
    ],
  )

  -- One that stays where it is, with its mutex locked or unlocked.
  kept-Inv :
      (t u : Thread) (held : ℕ → Bool)
      → Inv n l thread
      → thread i ≡ t
      → reference t ≡ some (name, id)
      → reference u ≡ some (name, id)
      → ((j : ℕ) → refers j u ≡ refers j t)
      → ((j : ℕ) → bit (held j) + holds j t ≡ bit (l.held j) + holds j u)
      → Inv n
          (record { locks = l.locks; held = held; refs = l.refs; allocated = l.allocated })
          (set thread i u)
  kept-Inv t u held (inv, used) e f g r h = (
    move-IsCounted n l thread inv i u held l.refs lt (λ j. let w = r j in rw e (omega arith))
        (λ j. rw e (h j))
        (λ k j m.
          let (a, b) = reference-injective name k id j (sym g ∙ m) in
          inv.mapped i k j lt (ap reference e ∙ f ∙ sym g ∙ m)),
    used,
  )

  tried-Inv :
      Entered n thread name (id, l)
      → thread i ≡ idle
      → Inv n (try_entry (id, l)).1 (set thread i (after_try name (try_entry (id, l)).0))
  tried-Inv (inv, f, used) e =
      if-elim (λ (r : Option ℕ × NameLocks). Inv n r.1 (set thread i (after_try name r.0)))
        (l.held id) _ _
        (λ h. (
          move-IsCounted n l thread inv i idle l.held l.refs lt (λ j. rw e refl) (λ j. rw e refl)
              (λ k j m. absurd (not_some m)),
          λ k j g. elim (Bool-cases (j == id)) [
            | inl d ↦
                subst (λ (x : ℕ). 1 ≤ l.refs x) (sym ((==_iff j id).0 d))
                  (let own = inv.owned id in
                    let count = inv.counted id in
                    let few = holds-total thread id n in ground (arith, h))
            | inr d ↦ used k j g d
          ],
        ))
        (λ h.
          referred-Inv (holding name id) (set l.held id true) inv f used e (λ j. refl)
            (λ j. ground (arith, h)) refl)

  pub unlocked_count : Inv n l thread → thread i ≡ holding name id → bit (l.held id) ≡ 1
  unlocked_count (inv, used) e =
      let one = weight-total (holds id) thread n i lt in
      let w = ap (holds id) e in let own = inv.owned id in ground arith

  dropped-Inv :
      Inv n l thread
      → thread i ≡ releasing name id
      → Inv n (drop_reference l name id) (set thread i idle)
  unfolding drop_reference
  dropped-Inv (inv, used) e =
      let m = with_refs l id (l.refs id - 1) in
      let f : lookup l.locks name ≡ some id = inv.mapped i name id lt (ap reference e) in
      let one = weight-total (refers id) thread n i lt in
      let w = ap (refers id) e in
      let count = inv.counted id in
      let counted : IsCounted n m (set thread i idle) =
        move-IsCounted n l thread inv i idle l.held (set l.refs id (l.refs id - 1)) lt
          (λ j. rw e (ground arith)) (λ j. rw e refl) (λ k j g. absurd (not_some g)) in
      deleted-Inv n m (set thread i idle) name id counted f
        (λ k j g d. let one = used k j g in ground (arith, d))

pub Step-Inv :
    {n : ℕ} {s t : System} → Step n s t → Inv n s.shared s.thread → Inv n t.shared t.thread
unfolding entry_locked begin_lock try_lock
Step-Inv {n} {s} (calls_lock i name lt e) (inv, used) =
    let r = entry_locked s.shared name in
    let (core, f, others) = entry-Entered n s.shared s.thread inv name _ used refl in
    referred-Inv n r.1 s.thread i name r.0 lt (waiting name r.0) r.1.held core f others e
      (λ j. refl) (λ j. omega arith) refl
Step-Inv {n} {s} (acquires i name id lt e h) v =
    kept-Inv n s.shared s.thread i name id lt (waiting name id) (holding name id)
      (set s.shared.held id true) v e refl refl (λ j. refl) (λ j. ground arith)
Step-Inv {n} {s} (calls_try_lock i name lt e) (inv, used) =
    let r = entry_locked s.shared name in
    tried-Inv n r.1 s.thread i name r.0 lt (entry-Entered n s.shared s.thread inv name _ used refl)
      e
Step-Inv {n} {s} (unlocks i name id lt e) v =
    let one = unlocked_count n s.shared s.thread i name id lt v e in
    kept-Inv n s.shared s.thread i name id lt (holding name id) (releasing name id)
      (set s.shared.held id false) v e refl refl (λ j. refl) (λ j. ground arith)
Step-Inv {n} {s} (drops i name id lt e) v = dropped-Inv n s.shared s.thread i name id lt v e

init-Inv : (n : ℕ) → Inv n init.shared init.thread
unfolding lookup
init-Inv n = (
  record {
    counted = λ id. total-idle (refers id) n refl;
    owned = λ id. total-idle (holds id) n refl;
    mapped = λ i name id lt e. absurd (not_some e);
    known = λ name id e. absurd (not_some e);
    distinct = λ name other id e f. absurd (not_some e);
    fresh = λ id above. refl;
  },
  λ name id e. absurd (not_some e),
)

pub Reach-Inv : {n : ℕ} {s : System} → Reach n s → Inv n s.shared s.thread
Reach-Inv {n} start = init-Inv n
Reach-Inv (later r st) = Step-Inv st (Reach-Inv r)
