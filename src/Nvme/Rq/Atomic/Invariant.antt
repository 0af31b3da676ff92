-- ===== src/Nvme/Rq/Atomic/Invariant.antt =====
-- What holds of the trackers, the clients and the calls under way at every time.
use libvfn.Base.{
  ℕ, ◌+◌, ◌-◌, ◌≤◌, ◌≡◌, ◌≢◌, refl, sym, ap, subst, ◌∙◌, true, Option, none, some, List, [], ◌∷◌,
  ◌++◌, arith, ltb, ◌==◌, if◌then◌else◌, update, update_ne, length, All,
}
use libvfn.Nvme.Rq.{Rq, Trackers}
use libvfn.Nvme.Rq.Free.{count, Chain}
use libvfn.Nvme.Rq.Atomic.{same, Acquire, test, Release, System}

-- The trackers that calls are about to release.
abbrev pub leaving : List (ℕ × Release) → List ℕ
leaving [] = []
leaving ((i, r) ∷ l) = i ∷ leaving l

-- What a call under way has read is still so: a tracker that it has seen at the top is free, and has
-- the successor that it has read.
abbrev pub Fresh : Trackers → List ℕ → Acquire → Type 0
Fresh t free Acquire.load = Unit
Fresh t free (test none) = Unit
Fresh t free (test (some i)) = count i free ≢ 0
Fresh t free (Acquire.swap i next) = (count i free ≢ 0) × ((t.rqs i).rq_next ≡ next)

-- Every tracker of the queue is free, or held by one client, or one call is about to release it, and
-- there are no others.
pub record Apart (qsize : ℕ) (s : System) : Type 0 where
  pub free : List ℕ
  pub chain : Chain s.trackers.rqs s.trackers.rq_top free
  pub once :
      (i : ℕ)
      → count i s.held + count i (leaving s.releases) + count i free
        ≡ (if ltb i (qsize - 1) then 1 else 0)

pub record Inv (qsize : ℕ) (s : System) : Type 0 where
  pub free : List ℕ
  pub chain : Chain s.trackers.rqs s.trackers.rq_top free
  pub once :
      (i : ℕ)
      → count i s.held + count i (leaving s.releases) + count i free
        ≡ (if ltb i (qsize - 1) then 1 else 0)
  pub few : length s.acquires ≤ 1
  pub fresh : All (Fresh s.trackers free) s.acquires

pub same→eq : (a b : Option ℕ) → same a b ≡ true → a ≡ b
same→eq none none h = refl
same→eq none (some j) h = absurd (ground (arith, h))
same→eq (some i) none h = absurd (ground (arith, h))
same→eq (some i) (some j) h = ap some (ground (arith, h))

pub some_inj : {a b : ℕ} → some a ≡ some b → a ≡ b
some_inj e = ground (arith, e)

-- What a call loads is fresh.
pub Fresh_test :
    (t : Trackers) (o : Option ℕ) (free : List ℕ) → Chain t.rqs o free → Fresh t free (test o)
Fresh_test t none free c = tt
Fresh_test t (some i) [] c = absurd (ground (arith, c))
Fresh_test t (some i) (x ∷ l) c = let e : i ≡ x = some_inj c.0 in ground (arith, e)

pub next-Chain :
    (rqs : ℕ → Rq) (i : ℕ) (free : List ℕ) (next : Option ℕ)
    → Chain rqs (some i) free
    → (rqs i).rq_next ≡ next
    → (l : List ℕ) × (Chain rqs next l
        × ((j : ℕ) → count j free ≡ (if i == j then 1 else 0) + count j l))
next-Chain rqs i [] next c e = absurd (ground (arith, c))
next-Chain rqs i (x ∷ l) next c e =
    let q : x ≡ i = sym (some_inj c.0) in
    (
      l,
      (
        subst (λ o. Chain rqs o l) (ap (λ j. (rqs j).rq_next) q ∙ e) c.1,
        λ j. ap (λ y. (if y == j then 1 else 0) + count j l) q,
      ),
    )

pub leaving_split :
    (before : List (ℕ × Release)) (i : ℕ) (r : Release) (behind : List (ℕ × Release)) (j : ℕ)
    → count j (leaving (before ++ (i, r) ∷ behind))
      ≡ (if i == j then 1 else 0) + count j (leaving (before ++ behind))
leaving_split [] i r behind j = refl
leaving_split ((k, q) ∷ before) i r behind j = omega (arith, leaving_split before i r behind j)

pub not_free :
    (qsize i a b c d : ℕ)
    → a + b + c ≡ (if ltb i (qsize - 1) then 1 else 0)
    → b ≡ (if i == i then 1 else 0) + d
    → c ≡ 0
not_free qsize i a b c d h e = ground arith

pub All_map {ℓ κ} :
    {A : Type ℓ} (P Q : A → Type κ) → ((a : A) → P a → Q a) → (l : List A) → All P l → All Q l
All_map P Q f [] h = h
All_map P Q f (x ∷ l) h = (f x h.0, All_map P Q f l h.1)

-- A write to a tracker that is not free.
pub Fresh-update :
    (t : Trackers) (free : List ℕ) (i : ℕ) (v : Rq)
    → count i free ≡ 0
    → (a : Acquire) → Fresh t free a
    → Fresh (record t { rqs = update t.rqs i v }) free a
Fresh-update t free i v h Acquire.load f = f
Fresh-update t free i v h (test none) f = f
Fresh-update t free i v h (test (some j)) f = f
Fresh-update t free i v h (Acquire.swap j next) f = (
  f.0,
  ap (λ (r : Rq). r.rq_next) (update_ne t.rqs i j v (λ e. f.0 (ap (λ k. count k free) e ∙ h)))
      ∙ f.1,
)

-- One more free tracker.
pub Fresh_push :
    (t : Trackers) (free : List ℕ) (i : ℕ) (a : Acquire)
    → Fresh t free a
    → Fresh (record t { rq_top = some i }) (i ∷ free) a
Fresh_push t free i Acquire.load f = f
Fresh_push t free i (test none) f = f
Fresh_push t free i (test (some j)) f = ground (arith, f)
Fresh_push t free i (Acquire.swap j next) f = (ground (arith, f.0), f.1)
