-- ===== src/Response/Store/Tracked.antt =====
-- internal/response: no interleaving of calls loses a file of the store, or the count of its bytes.
use mini.Prelude.{
  ℕ, ◌+◌, ◌≡◌, ap, refl, Bool, true, false, not, ◌&&◌, ◌||◌, List, [], ◌∷◌, ◌++◌, Bytes, bytes_eq,
  bytes_eq_iff, contains, if-elim, ltb, arith,
}
use mini.Response.Store.{
  StoredFile, Store, evict_overshoot, record_write, partition_by_expiry, evict_expired,
  restore_failed,
}
use mini.Response.Store.Accounting.{
  Accounted, record_write-Accounted, evict_expired-Accounted, restore_failed-Accounted,
}
use mini.Response.Store.Eviction.{evict_overshoot-splits}
use mini.Response.Store.System.{
  Writing, Removing, System, unlink, Step, create, record_file, expire, remove_file, remove_refused,
  restore, delete, Reach, start, step,
}

abbrev pub lists : List StoredFile → Bytes → Bool
lists [] p = false
lists (f ∷ files) p = bytes_eq f.path p || lists files p

abbrev pub writes : List Writing → Bytes → Bool
writes [] p = false
writes (w ∷ ws) p = bytes_eq w.path p || writes ws p

abbrev pub removes : List Removing → Bytes → Bool
removes [] p = false
removes (r ∷ rs) p = (lists r.waiting p || lists r.failed p) || removes rs p

-- The store lists the file, or a call in progress is about to list or to remove it.
abbrev pub tracks : System → Bytes → Bool
tracks s p = lists s.store.files p || (writes s.writings p || removes s.removings p)

pub record IsSound (s : System) : Type 0 where
  pub accounted : Accounted s.store
  pub all_tracked : (p : Bytes) → contains s.disk p ≡ true → tracks s p ≡ true

lists-append : (a b : List StoredFile) (p : Bytes) → lists (a ++ b) p ≡ lists a p || lists b p
lists-append [] b p = refl
lists-append (f ∷ a) b p = ground (arith, lists-append a b p)

writes-append : (a b : List Writing) (p : Bytes) → writes (a ++ b) p ≡ writes a p || writes b p
writes-append [] b p = refl
writes-append (w ∷ a) b p = ground (arith, writes-append a b p)

removes-append : (a b : List Removing) (p : Bytes) → removes (a ++ b) p ≡ removes a p || removes b p
removes-append [] b p = refl
removes-append (r ∷ a) b p = ground (arith, removes-append a b p)

contains-unlink :
    (disk : List Bytes) (path p : Bytes)
    → contains (unlink disk path) p ≡ not (bytes_eq path p) && contains disk p
unfolding unlink contains
contains-unlink [] path p = ground arith
contains-unlink (d ∷ disk) path p =
    ground (
      arith,
      contains-unlink disk path p,
      bytes_eq_iff d path,
      bytes_eq_iff path p,
      bytes_eq_iff d p,
    )

lists-record_write :
    (path : Bytes) (size now : ℕ) (s : Store) (p : Bytes)
    → lists (record_write path size now s).0 p || lists (record_write path size now s).1.files p
      ≡ lists s.files p || bytes_eq path p
unfolding record_write
lists-record_write path size now s p =
    let f : StoredFile = record { path = path; size = size; expires = now + s.ttl } in
    let t : Store = record s { files = s.files ++ f ∷ []; used_bytes = s.used_bytes + size } in
    let (out, kept) = evict_overshoot t in
    let split : lists (out ++ kept.files) p ≡ lists (s.files ++ f ∷ []) p =
      ap (λ l. lists l p) (evict_overshoot-splits t) in
    ground (arith, split, lists-append out kept.files p, lists-append s.files (f ∷ []) p)

lists-partition :
    (files : List StoredFile) (now : ℕ) (p : Bytes)
    → lists (partition_by_expiry files now).1 p || lists (partition_by_expiry files now).0 p
      ≡ lists files p
unfolding partition_by_expiry
lists-partition [] now p = refl
lists-partition (f ∷ files) now p =
    if-elim
      (λ (r : List StoredFile × List StoredFile).
        lists r.1 p || lists r.0 p ≡ bytes_eq f.path p || lists files p)
      (ltb now f.expires) _ _ (λ _. ground (arith, lists-partition files now p))
      (λ _. ground (arith, lists-partition files now p))

lists-evict_expired :
    (now : ℕ) (s : Store) (p : Bytes)
    → lists (evict_expired now s).0 p || lists (evict_expired now s).1.files p ≡ lists s.files p
unfolding evict_expired
lists-evict_expired now s p = lists-partition s.files now p

lists-restore_failed :
    (failed : List StoredFile) (s : Store) (p : Bytes)
    → lists (restore_failed failed s).files p ≡ lists failed p || lists s.files p
unfolding restore_failed
lists-restore_failed [] s p = refl
lists-restore_failed (f ∷ failed) s p = lists-append (f ∷ failed) s.files p

Step-IsSound : {s t : System} → Step s t → IsSound s → IsSound t
unfolding contains
Step-IsSound {s} (create path size new) h = record {
  accounted = h.accounted;
  all_tracked = λ p e. ground (arith, h.all_tracked p);
}
Step-IsSound {s} (record_file before after w now e) h = record {
  accounted = record_write-Accounted w.path w.size now s.store h.accounted;
  all_tracked = λ p d.
      let old : writes s.writings p ≡ writes (before ++ w ∷ after) p = ap (λ l. writes l p) e in
      ground (
        arith,
        h.all_tracked p,
        old,
        writes-append before (w ∷ after) p,
        writes-append before after p,
        lists-record_write w.path w.size now s.store p,
      );
}
Step-IsSound {s} (expire now) h = record {
  accounted = evict_expired-Accounted now s.store h.accounted;
  all_tracked = λ p d. ground (arith, h.all_tracked p, lists-evict_expired now s.store p);
}
Step-IsSound {s} (remove_file before after f waiting failed e) h = record {
  accounted = h.accounted;
  all_tracked = λ p d.
      let old : removes s.removings p
          ≡ removes (before ++ record { waiting = f ∷ waiting; failed = failed } ∷ after) p =
        ap (λ l. removes l p) e in
      ground (
        arith,
        h.all_tracked p,
        old,
        removes-append before (record { waiting = f ∷ waiting; failed = failed } ∷ after) p,
        removes-append before (record { waiting = waiting; failed = failed } ∷ after) p,
        contains-unlink s.disk f.path p,
      );
}
Step-IsSound {s} (remove_refused before after f waiting failed e) h = record {
  accounted = h.accounted;
  all_tracked = λ p d.
      let old : removes s.removings p
          ≡ removes (before ++ record { waiting = f ∷ waiting; failed = failed } ∷ after) p =
        ap (λ l. removes l p) e in
      ground (
        arith,
        h.all_tracked p,
        old,
        removes-append before (record { waiting = f ∷ waiting; failed = failed } ∷ after) p,
        removes-append before (record { waiting = waiting; failed = failed ++ f ∷ [] } ∷ after) p,
        lists-append failed (f ∷ []) p,
      );
}
Step-IsSound {s} (restore before after failed e) h = record {
  accounted = restore_failed-Accounted failed s.store h.accounted;
  all_tracked = λ p d.
      let old : removes s.removings p
          ≡ removes (before ++ record { waiting = []; failed = failed } ∷ after) p =
        ap (λ l. removes l p) e in
      ground (
        arith,
        h.all_tracked p,
        old,
        removes-append before (record { waiting = []; failed = failed } ∷ after) p,
        removes-append before after p,
        lists-restore_failed failed s.store p,
      );
}
Step-IsSound {s} (delete path) h = record {
  accounted = h.accounted;
  all_tracked = λ p d. ground (arith, h.all_tracked p, contains-unlink s.disk path p);
}

-- However the calls on the store interleave, from a sound system on: the used bytes are those of
-- the listed files, and each file on the disk is listed or in the hands of a call in progress.
pub Reach-IsSound : {s t : System} → Reach s t → IsSound s → IsSound t
Reach-IsSound start h = h
Reach-IsSound (step r one) h = Step-IsSound one (Reach-IsSound r h)
