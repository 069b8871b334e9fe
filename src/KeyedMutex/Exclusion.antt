-- ===== src/KeyedMutex/Exclusion.antt =====
-- Mutual exclusion by key, that Unlock finds its mutex, and that the map holds just the keys in use.
use golagram.Base.{
  ℕ, suc, ◌≡◌, ◌≢◌, ◌∙◌, sym, ap, ◌≤◌, ◌-◌, refl, false, List, Option, some, none, get_elem?, All,
  arith, if◌then◌else◌, ◌==◌, ==_iff, some_inj, Bool-cases, inl, inr,
}
use mathlib.Core.Path.{subst}
use golagram.Base.Assoc.{lookup, erase, lookup-insert, lookup-erase}
use golagram.Fsm.{StorageKey, storage_key, key_beq, key_beq_iff}
use golagram.KeyedMutex.{
  RefCountedMutex, Phase, holding, leaving, KeyedMutex, set_at, released, leave_with, unlock_enter,
  Step, enters, acquires, unlocks, leaves, Reachable, start, step,
}
use golagram.KeyedMutex.Counts.{
  bit, count, count-set_at, count-two, count-none, All-get_elem?, All-set_at, All-map, All-both,
}
use golagram.KeyedMutex.Invariant.{
  uses_key, owns, refs_of, Agrees, IsConsistent, Agrees-insert, Agrees-erase,
  new_keyed_mutex-IsConsistent, lock_enter-IsConsistent, lock_acquire-IsConsistent,
  unlock_leave-IsConsistent, bit-le, used-insert, used-erase,
}

==_false_pos : (n : ℕ) → (n == 0) ≡ false → 1 ≤ n
==_false_pos n h = ground arith

module _ (k : KeyedMutex) (t : ℕ) (key : StorageKey) (a : ℕ) (l : RefCountedMutex)
    (c : IsConsistent k) (h : get_elem? k.threads t ≡ some (holding key a))
    (found : lookup key k.locks ≡ some l) where
  threads_after : List Phase
  threads_after = set_at t (leaving key l.address) k.threads

  refs-count : l.refs ≡ count (uses_key key) k.threads
  refs-count = ap refs_of (sym found) ∙ c.counted key

  count-after : suc (count (uses_key key) threads_after) ≡ count (uses_key key) k.threads
  unfolding threads_after
  count-after =
      let moved =
        count-set_at (uses_key key) t (holding key a) (leaving key l.address) k.threads h in
      let self : bit (key_beq key key) ≡ 1 = ap bit ((key_beq_iff key key).1 refl) in omega arith

  address-same : l.address ≡ a
  address-same =
      let (m, (e, q)) = All-get_elem? (Agrees k.locks) t (holding key a) k.threads c.agreed h in
      ap (λ (x : RefCountedMutex). x.address) (some_inj (sym found ∙ e)) ∙ q

  still-agreed : All (Agrees k.locks) threads_after
  unfolding threads_after
  still-agreed = All-set_at (Agrees k.locks) t (leaving key l.address) k.threads c.agreed tt

  unused-after : l.refs - 1 ≡ 0 → All (λ ph. uses_key key ph ≡ false) threads_after
  unused-after q =
      count-none (uses_key key) threads_after
        (let refs = refs-count in let after = count-after in omega arith)

  agreed-after : All (Agrees (released key l k.locks)) threads_after
  unfolding released
  agreed-after = elim (Bool-cases (l.refs - 1 == 0)) [
    | inl q ↦ rw q (
        All-map (λ ph. Agrees k.locks ph × (uses_key key ph ≡ false)) (Agrees (erase key k.locks))
          threads_after (Agrees-erase k.locks key)
          (All-both (Agrees k.locks) (λ ph. uses_key key ph ≡ false) threads_after still-agreed
            (unused-after ((==_iff (l.refs - 1) 0).0 q))))
    | inr q ↦ rw q (
        All-map (Agrees k.locks) (Agrees _) threads_after
          (Agrees-insert k.locks key (record l { refs = l.refs - 1 })
            (λ l' e. ap (λ (x : RefCountedMutex). x.address) (some_inj (sym e ∙ found))))
          still-agreed)
  ]

  refs-released :
      (j : StorageKey)
      → refs_of (lookup j (released key l k.locks))
        ≡ (if key_beq key j then l.refs - 1 else refs_of (lookup j k.locks))
  unfolding released
  refs-released j = elim (Bool-cases (l.refs - 1 == 0)) [
    | inl q ↦ elim (Bool-cases (key_beq key j)) [
      | inl b ↦ rw q (rw (lookup-erase key j k.locks, b) (sym ((==_iff (l.refs - 1) 0).0 q)))
      | inr b ↦ rw q (rw (lookup-erase key j k.locks, b) refl)
    ]
    | inr q ↦ elim (Bool-cases (key_beq key j)) [
      | inl b ↦ rw q (rw (lookup-insert key j (record l { refs = l.refs - 1 }) k.locks, b) refl)
      | inr b ↦ rw q (rw (lookup-insert key j (record l { refs = l.refs - 1 }) k.locks, b) refl)
    ]
  ]

  counted-after :
      (j : StorageKey)
      → refs_of (lookup j (released key l k.locks)) ≡ count (uses_key j) threads_after
  unfolding threads_after
  counted-after j = elim (Bool-cases (key_beq key j)) [
    | inl b ↦
        (let same : key ≡ j = (key_beq_iff key j).0 b in
          let after = count-after ∙ sym refs-count in
          let moved : count (uses_key key) threads_after ≡ count (uses_key j) threads_after =
            ap (λ x. count (uses_key x) threads_after) same in
          rw (refs-released j, b) (omega arith))
    | inr b ↦
        (let moved =
            count-set_at (uses_key j) t (holding key a) (leaving key l.address) k.threads h in
          let none_left : bit (key_beq key j) ≡ 0 = ap bit b in
          let old = c.counted j in rw (refs-released j, b) (omega arith))
  ]

  used-after :
      (j : StorageKey) (m : RefCountedMutex)
      → lookup j (released key l k.locks) ≡ some m
      → 1 ≤ m.refs
  unfolding released
  used-after = elim (Bool-cases (l.refs - 1 == 0)) [
    | inl q ↦ rw q (used-erase k.locks key c.used)
    | inr q ↦ rw q (
        used-insert k.locks key (record l { refs = l.refs - 1 }) c.used
          (==_false_pos (l.refs - 1) q))
  ]

  owned-after : (x : ℕ) → count (owns x) threads_after ≡ bit (k.locked x)
  unfolding threads_after
  owned-after x =
      let moved = count-set_at (owns x) t (holding key a) (leaving key l.address) k.threads h in
      let old = c.owned x in
      let same : bit (l.address == x) ≡ bit (a == x) = ap (λ y. bit (y == x)) address-same in
      omega arith

  leave-IsConsistent : IsConsistent (record k {
    locks = released key l k.locks;
    threads = set_at t (leaving key l.address) k.threads;
  })
  unfolding threads_after
  leave-IsConsistent = record {
    agreed = agreed-after;
    counted = counted-after;
    used = used-after;
    owned = owned-after;
  }

leave_with-IsConsistent :
    (k k' : KeyedMutex) (t : ℕ) (key : StorageKey) (a : ℕ) (o : Option RefCountedMutex)
    → IsConsistent k
    → get_elem? k.threads t ≡ some (holding key a)
    → lookup key k.locks ≡ o
    → leave_with t key k o ≡ some k'
    → IsConsistent k'
unfolding leave_with
leave_with-IsConsistent k k' t key a none c h found e = cc
leave_with-IsConsistent k k' t key a (some l) c h found e =
    subst IsConsistent (some_inj e) (leave-IsConsistent k t key a l c h found)

Step-IsConsistent : (k k' : KeyedMutex) → Step k k' → IsConsistent k → IsConsistent k'
unfolding unlock_enter
Step-IsConsistent _ _ (enters k t key h) c = lock_enter-IsConsistent k t key c h
Step-IsConsistent _ _ (acquires k t key a h q) c = lock_acquire-IsConsistent k t key a c h q
Step-IsConsistent _ _ (unlocks k k' t key a h e) c =
    leave_with-IsConsistent k k' t key a (lookup key k.locks) c h refl e
Step-IsConsistent _ _ (leaves k t key a h) c = unlock_leave-IsConsistent k t key a c h

Reachable-IsConsistent : (n : ℕ) (k : KeyedMutex) → Reachable n k → IsConsistent k
Reachable-IsConsistent n _ start = new_keyed_mutex-IsConsistent n
Reachable-IsConsistent n _ (step k k' r s) = Step-IsConsistent k k' s (Reachable-IsConsistent n k r)

-- In every state that any number of threads reach by any interleaving of the steps of Lock and
-- Unlock, no two different threads hold the same key.
pub Reachable-exclusive :
    (n : ℕ) (k : KeyedMutex) (t t' : ℕ) (key : StorageKey) (a a' : ℕ)
    → Reachable n k
    → t ≢ t'
    → get_elem? k.threads t ≡ some (holding key a)
    → get_elem? k.threads t' ≢ some (holding key a')
Reachable-exclusive n k t t' key a a' r d h h' =
    let c = Reachable-IsConsistent n k r in
    let (m, (e, q)) = All-get_elem? (Agrees k.locks) t (holding key a) k.threads c.agreed h in
    let (m', (e', q')) = All-get_elem? (Agrees k.locks) t' (holding key a') k.threads c.agreed h' in
    let same : a ≡ a' =
      sym q ∙ (ap (λ (x : RefCountedMutex). x.address) (some_inj (sym e ∙ e')) ∙ q') in
    let two =
      count-two (owns a) t t' (holding key a) (holding key a') k.threads d h h'
        ((==_iff a a).1 refl) ((==_iff a' a).1 (sym same)) in
    let most = bit-le (k.locked a) in let own = c.owned a in omega arith

leave_with-found :
    (k : KeyedMutex) (t : ℕ) (key : StorageKey) (o : Option RefCountedMutex) (l : RefCountedMutex)
    → o ≡ some l
    → (k' : KeyedMutex) × (leave_with t key k o ≡ some k')
unfolding leave_with
leave_with-found k t key none l e = cc
leave_with-found k t key (some m) l e = (_, refl)

-- In every reachable state the count of references that the map has for a key, 0 where it has no
-- mutex, is the number of threads that wait for the key or hold it; each mutex of the map has a
-- positive count; and a thread that holds a key can unlock it: Unlock finds the mutex in the map.
pub Reachable-counted :
    (n : ℕ) (k : KeyedMutex)
    → Reachable n k
    → ((key : StorageKey) → refs_of (lookup key k.locks) ≡ count (uses_key key) k.threads)
      × (((key : StorageKey) (l : RefCountedMutex) → lookup key k.locks ≡ some l → 1 ≤ l.refs)
          × ((t : ℕ) (key : StorageKey) (a : ℕ)
              → get_elem? k.threads t ≡ some (holding key a)
              → (k' : KeyedMutex) × (unlock_enter t key k ≡ some k')))
unfolding unlock_enter
Reachable-counted n k r =
    let c = Reachable-IsConsistent n k r in
    (
      c.counted,
      (
        c.used,
        λ t key a h.
            (let (m, (e, q)) =
                All-get_elem? (Agrees k.locks) t (holding key a) k.threads c.agreed h in
              leave_with-found k t key (lookup key k.locks) m e),
      ),
    )
