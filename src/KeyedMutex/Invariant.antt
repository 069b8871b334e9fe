-- ===== src/KeyedMutex/Invariant.antt =====
-- The invariant of the reachable states: threads on one key agree on its mutex, a mutex of the map
-- counts the threads that wait for it or hold it, and an inner mutex is locked by one thread.
use golagram.Base.{
  ℕ, zero, suc, ◌≡◌, ◌∙◌, sym, ap, ◌≤◌, refl, Bool, true, false, List, [], Option, some, none,
  get_elem?, All, arith, if◌then◌else◌, ◌==◌, ==_iff, some_inj, none_ne_some, Bool-cases, inl, inr,
}
use mathlib.Core.Path.{subst}
use golagram.Base.Assoc.{lookup, insert, erase, lookup-insert, lookup-erase}
use golagram.Fsm.{StorageKey, storage_key, key_beq, key_beq_iff}
use golagram.KeyedMutex.{
  RefCountedMutex, Phase, idle, waiting, holding, leaving, KeyedMutex, new_keyed_mutex, set_locked,
  mutex_or_new, lock_enter, lock_acquire, unlock_leave, idle_threads,
}
use golagram.KeyedMutex.Counts.{bit, count, count-set_at, All-get_elem?, All-set_at, All-map}

-- The thread waits for the key or holds it.
abbrev pub uses_key : StorageKey → Phase → Bool
uses_key key idle = false
uses_key key (waiting j a) = key_beq j key
uses_key key (holding j a) = key_beq j key
uses_key key (leaving j a) = false

-- The thread has locked the inner mutex.
abbrev pub owns : ℕ → Phase → Bool
owns a idle = false
owns a (waiting j c) = false
owns a (holding j c) = c == a
owns a (leaving j c) = c == a

abbrev pub refs_of : Option RefCountedMutex → ℕ
refs_of none = 0
refs_of (some l) = l.refs

-- The map has the mutex at the address for the key.
abbrev pub HasMutex : List (StorageKey × RefCountedMutex) → StorageKey → ℕ → Type 0
HasMutex locks key a = (l : RefCountedMutex) × ((lookup key locks ≡ some l) × (l.address ≡ a))

abbrev pub Agrees : List (StorageKey × RefCountedMutex) → Phase → Type 0
Agrees locks idle = Unit
Agrees locks (waiting j a) = HasMutex locks j a
Agrees locks (holding j a) = HasMutex locks j a
Agrees locks (leaving j a) = Unit

pub record IsConsistent (k : KeyedMutex) : Type 0 where
  pub agreed : All (Agrees k.locks) k.threads
  pub counted : (key : StorageKey) → refs_of (lookup key k.locks) ≡ count (uses_key key) k.threads
  pub used : (key : StorageKey) (l : RefCountedMutex) → lookup key k.locks ≡ some l → 1 ≤ l.refs
  pub owned : (a : ℕ) → count (owns a) k.threads ≡ bit (k.locked a)

-- Inserting a mutex at the address that the map has, if it has one, keeps what threads agree on.
HasMutex-insert :
    (locks : List (StorageKey × RefCountedMutex)) (key : StorageKey) (l : RefCountedMutex)
    → ((l' : RefCountedMutex) → lookup key locks ≡ some l' → l'.address ≡ l.address)
    → (j : StorageKey) (a : ℕ) → HasMutex locks j a
    → HasMutex (insert key l locks) j a
HasMutex-insert locks key l same j a h = elim (Bool-cases (key_beq key j)) [
  | inl q ↦
      (let e : key ≡ j = (key_beq_iff key j).0 q in
        (l, (rw (lookup-insert key j l locks, q) refl, sym (same h.0 (rw e h.1.0)) ∙ h.1.1)))
  | inr q ↦ (h.0, (rw (lookup-insert key j l locks, q) h.1.0, h.1.1))
]

pub Agrees-insert :
    (locks : List (StorageKey × RefCountedMutex)) (key : StorageKey) (l : RefCountedMutex)
    → ((l' : RefCountedMutex) → lookup key locks ≡ some l' → l'.address ≡ l.address)
    → (ph : Phase) → Agrees locks ph
    → Agrees (insert key l locks) ph
Agrees-insert locks key l same idle h = tt
Agrees-insert locks key l same (waiting j a) h = HasMutex-insert locks key l same j a h
Agrees-insert locks key l same (holding j a) h = HasMutex-insert locks key l same j a h
Agrees-insert locks key l same (leaving j a) h = tt

key_beq_comm : (a b : StorageKey) → key_beq a b ≡ key_beq b a
key_beq_comm a b = elim (Bool-cases (key_beq a b)) [
  | inl q ↦ (let e : a ≡ b = (key_beq_iff a b).0 q in rw e refl)
  | inr q ↦ elim (Bool-cases (key_beq b a)) [
    | inl r ↦ (let e : b ≡ a = (key_beq_iff b a).0 r in rw e refl)
    | inr r ↦ q ∙ sym r
  ]
]

HasMutex-erase :
    (locks : List (StorageKey × RefCountedMutex)) (key j : StorageKey) (a : ℕ)
    → HasMutex locks j a
    → key_beq j key ≡ false
    → HasMutex (erase key locks) j a
HasMutex-erase locks key j a h q =
    (h.0, (rw (lookup-erase key j locks, key_beq_comm key j, q) h.1.0, h.1.1))

pub Agrees-erase :
    (locks : List (StorageKey × RefCountedMutex)) (key : StorageKey) (ph : Phase)
    → Agrees locks ph × (uses_key key ph ≡ false)
    → Agrees (erase key locks) ph
Agrees-erase locks key idle h = tt
Agrees-erase locks key (waiting j a) h = HasMutex-erase locks key j a h.0 h.1
Agrees-erase locks key (holding j a) h = HasMutex-erase locks key j a h.0 h.1
Agrees-erase locks key (leaving j a) h = tt

count-idle_threads : (p : Phase → Bool) (n : ℕ) → p idle ≡ false → count p (idle_threads n) ≡ 0
count-idle_threads p zero h = refl
count-idle_threads p (suc n) h = rw h (omega (arith, count-idle_threads p n h))

Agrees-idle_threads : (n : ℕ) → All (Agrees []) (idle_threads n)
Agrees-idle_threads zero = tt
Agrees-idle_threads (suc n) = (tt, Agrees-idle_threads n)

pub new_keyed_mutex-IsConsistent : (n : ℕ) → IsConsistent (new_keyed_mutex (idle_threads n))
unfolding lookup
new_keyed_mutex-IsConsistent n = record {
  agreed = Agrees-idle_threads n;
  counted = λ key. sym (count-idle_threads (uses_key key) n refl);
  used = λ key l e. cc;
  owned = λ a. count-idle_threads (owns a) n refl;
}

pub bit-le : (b : Bool) → bit b ≤ 1
bit-le true = omega arith
bit-le false = omega arith

mutex_or_new-address :
    (o : Option RefCountedMutex) (fresh : ℕ) (l : RefCountedMutex)
    → o ≡ some l
    → l.address ≡ (mutex_or_new o fresh).address
unfolding mutex_or_new
mutex_or_new-address none fresh l e = cc
mutex_or_new-address (some m) fresh l e = ap (λ (x : RefCountedMutex). x.address) (sym (some_inj e))

mutex_or_new-refs :
    (o : Option RefCountedMutex) (fresh : ℕ) → (mutex_or_new o fresh).refs ≡ refs_of o
unfolding mutex_or_new
mutex_or_new-refs none fresh = refl
mutex_or_new-refs (some m) fresh = refl

pub lookup-insert_self :
    (locks : List (StorageKey × RefCountedMutex)) (key : StorageKey) (l : RefCountedMutex)
    → lookup key (insert key l locks) ≡ some l
lookup-insert_self locks key l =
    rw (lookup-insert key key l locks, (key_beq_iff key key).1 refl) refl

-- Every mutex of the map is in use.
pub used-insert :
    (locks : List (StorageKey × RefCountedMutex)) (key : StorageKey) (l : RefCountedMutex)
    → ((j : StorageKey) (m : RefCountedMutex) → lookup j locks ≡ some m → 1 ≤ m.refs)
    → 1 ≤ l.refs
    → (j : StorageKey) (m : RefCountedMutex) → lookup j (insert key l locks) ≡ some m
    → 1 ≤ m.refs
used-insert locks key l used new j m e = elim (Bool-cases (key_beq key j)) [
  | inl q ↦
      (let found : some l ≡ some m =
          sym (lookup-insert key j l locks ∙ ap (λ b. if b then some l else lookup j locks) q)
          ∙ e in
        subst (λ (x : RefCountedMutex). 1 ≤ x.refs) (some_inj found) new)
  | inr q ↦
      used j m
        (sym (lookup-insert key j l locks ∙ ap (λ b. if b then some l else lookup j locks) q) ∙ e)
]

pub used-erase :
    (locks : List (StorageKey × RefCountedMutex)) (key : StorageKey)
    → ((j : StorageKey) (m : RefCountedMutex) → lookup j locks ≡ some m → 1 ≤ m.refs)
    → (j : StorageKey) (m : RefCountedMutex) → lookup j (erase key locks) ≡ some m
    → 1 ≤ m.refs
used-erase locks key used j m e = elim (Bool-cases (key_beq key j)) [
  | inl q ↦ absurd (
      none_ne_some
        (sym (lookup-erase key j locks ∙ ap (λ b. if b then none else lookup j locks) q) ∙ e))
  | inr q ↦
      used j m (sym (lookup-erase key j locks ∙ ap (λ b. if b then none else lookup j locks) q) ∙ e)
]

pub lock_enter-IsConsistent :
    (k : KeyedMutex) (t : ℕ) (key : StorageKey)
    → IsConsistent k
    → get_elem? k.threads t ≡ some idle
    → IsConsistent (lock_enter t key k)
unfolding lock_enter
lock_enter-IsConsistent k t key c h = record {
  agreed =
      All-set_at (Agrees _) t _ k.threads
        (All-map (Agrees k.locks) (Agrees _) k.threads
          (Agrees-insert k.locks key _
            (λ l' e. mutex_or_new-address (lookup key k.locks) k.fresh l' e))
          c.agreed)
        (_, (lookup-insert_self k.locks key _, refl));
  counted = λ j. elim (Bool-cases (key_beq key j)) [
    | inl q ↦
        (let e : key ≡ j = (key_beq_iff key j).0 q in
          let moved =
            count-set_at (uses_key j) t idle
              (waiting key (mutex_or_new (lookup key k.locks) k.fresh).address) k.threads h in
          let one : bit (key_beq key j) ≡ 1 = ap bit q in
          let old = c.counted j in
          let refs =
            mutex_or_new-refs (lookup key k.locks) k.fresh
            ∙ ap (λ x. refs_of (lookup x k.locks)) e in
          rw
            (
              lookup-insert key j
                  (record (mutex_or_new (lookup key k.locks) k.fresh) {
                    refs = suc (mutex_or_new (lookup key k.locks) k.fresh).refs;
                  })
                  k.locks,
              q,
            )
            (omega arith))
    | inr q ↦
        (let moved =
            count-set_at (uses_key j) t idle
              (waiting key (mutex_or_new (lookup key k.locks) k.fresh).address) k.threads h in
          let none_new : bit (key_beq key j) ≡ 0 = ap bit q in
          let old = c.counted j in
          rw
            (
              lookup-insert key j
                  (record (mutex_or_new (lookup key k.locks) k.fresh) {
                    refs = suc (mutex_or_new (lookup key k.locks) k.fresh).refs;
                  })
                  k.locks,
              q,
            )
            (omega arith))
  ];
  used = used-insert k.locks key _ c.used (omega arith);
  owned = λ a.
      (let moved =
          count-set_at (owns a) t idle
            (waiting key (mutex_or_new (lookup key k.locks) k.fresh).address) k.threads h in
        let old = c.owned a in omega arith);
}

pub lock_acquire-IsConsistent :
    (k : KeyedMutex) (t : ℕ) (key : StorageKey) (a : ℕ)
    → IsConsistent k
    → get_elem? k.threads t ≡ some (waiting key a)
    → k.locked a ≡ false
    → IsConsistent (lock_acquire t key a k)
unfolding lock_acquire
lock_acquire-IsConsistent k t key a c h q = record {
  agreed =
      All-set_at (Agrees k.locks) t (holding key a) k.threads c.agreed
        (All-get_elem? (Agrees k.locks) t (waiting key a) k.threads c.agreed h);
  counted = λ j.
      (let moved = count-set_at (uses_key j) t (waiting key a) (holding key a) k.threads h in
        let old = c.counted j in omega arith);
  used = c.used;
  owned = λ x. elim (Bool-cases (a == x)) [
    | inl e ↦
        (let same : a ≡ x = (==_iff a x).0 e in
          let moved = count-set_at (owns x) t (waiting key a) (holding key a) k.threads h in
          let one : bit (a == x) ≡ 1 = ap bit e in
          let unlocked : bit (k.locked x) ≡ 0 = ap bit (ap k.locked (sym same) ∙ q) in
          let old = c.owned x in unfold set_locked in rw e (omega arith))
    | inr e ↦
        (let moved = count-set_at (owns x) t (waiting key a) (holding key a) k.threads h in
          let none_new : bit (a == x) ≡ 0 = ap bit e in
          let old = c.owned x in unfold set_locked in rw e (omega arith))
  ];
}

pub unlock_leave-IsConsistent :
    (k : KeyedMutex) (t : ℕ) (key : StorageKey) (a : ℕ)
    → IsConsistent k
    → get_elem? k.threads t ≡ some (leaving key a)
    → IsConsistent (unlock_leave t a k)
unfolding unlock_leave
unlock_leave-IsConsistent k t key a c h = record {
  agreed = All-set_at (Agrees k.locks) t idle k.threads c.agreed tt;
  counted = λ j.
      (let moved = count-set_at (uses_key j) t (leaving key a) idle k.threads h in
        let old = c.counted j in omega arith);
  used = c.used;
  owned = λ x. elim (Bool-cases (a == x)) [
    | inl e ↦
        (let moved = count-set_at (owns x) t (leaving key a) idle k.threads h in
          let one : bit (a == x) ≡ 1 = ap bit e in
          let most = bit-le (k.locked x) in
          let old = c.owned x in unfold set_locked in rw e (omega arith))
    | inr e ↦
        (let moved = count-set_at (owns x) t (leaving key a) idle k.threads h in
          let none_new : bit (a == x) ≡ 0 = ap bit e in
          let old = c.owned x in unfold set_locked in rw e (omega arith))
  ];
}
