-- ===== src/Tempest/Schedule/Sampled.antt =====
-- charms/tempest-k8s/src/utils/validators.py: the runs of a schedule that was accepted.
use mathlib.Core.Path.{subst}
use mathlib.Core.List.{Mem, mem-cons_self, mem-cons_of_mem}
use sunbeam_charms.Prelude.{
  ℕ, zero, suc, ◌-◌, ◌≤◌, String, ◌≡◌, ◌⊎◌, refl, ap, ◌∙◌, Bool, true, false, Option, none, some,
  List, [], ◌∷◌, arith, ltb, nat_eq, ◌==◌, eq_iff, if◌then◌else◌, Bool-cases, Option-cases, inl,
  inr, All, All-map,
}
use sunbeam_charms.Exec.{Result, ok, raised}
use sunbeam_charms.Tempest.Schedule.{
  Schedule, Croniter, min_of, max_of, shortest, judged, sampled, sample, intervals, and_interval,
  started, not_started, value_error_text, validated_schedule, fields_from,
}

min_of-bound : (n : ℕ) (ns : List ℕ) → (min_of n ns ≤ n) × All (λ m. min_of n ns ≤ m) ns
min_of-bound n [] = (ground arith, tt)
min_of-bound n (m ∷ ms) =
    let h = min_of-bound (if ltb m n then m else n) ms in (ground arith, (ground arith, h.1))

max_of-bound : (n : ℕ) (ns : List ℕ) → (n ≤ max_of n ns) × All (λ m. m ≤ max_of n ns) ns
max_of-bound n [] = (ground arith, tt)
max_of-bound n (m ∷ ms) =
    let h = max_of-bound (if ltb n m then m else n) ms in (ground arith, (ground arith, h.1))

-- An element of a list, or the one before it.
abbrev Among : ℕ → ℕ → List ℕ → Type 0
Among x n ns = (x ≡ n) ⊎ Mem x ns

Among-cons :
    (x n m : ℕ) (b : Bool) (ms : List ℕ) → Among x (if b then m else n) ms → Among x n (m ∷ ms)
Among-cons x n m true ms (inl e) = inr (rw e mem-cons_self)
Among-cons x n m false ms (inl e) = inl e
Among-cons x n m b ms (inr h) = inr (mem-cons_of_mem _ h)

min_of-Among : (n : ℕ) (ns : List ℕ) → Among (min_of n ns) n ns
min_of-Among n [] = inl refl
min_of-Among n (m ∷ ms) = Among-cons _ n m (ltb m n) ms (min_of-Among (if ltb m n then m else n) ms)

max_of-Among : (n : ℕ) (ns : List ℕ) → Among (max_of n ns) n ns
max_of-Among n [] = inl refl
max_of-Among n (m ∷ ms) = Among-cons _ n m (ltb n m) ms (max_of-Among (if ltb n m then m else n) ms)

mem-Among : (x n : ℕ) (ns : List ℕ) → Among x n ns → Mem x (n ∷ ns)
mem-Among x n ns (inl e) = rw e mem-cons_self
mem-Among x n ns (inr h) = mem-cons_of_mem _ h

All-and : (P Q : ℕ → Type 0) (ns : List ℕ) → All P ns → All Q ns → All (λ n. P n × Q n) ns
All-and P Q [] p q = tt
All-and P Q (n ∷ ns) p q = ((p.0, q.0), All-and P Q ns p.1 q.1)

-- Every interval is at least fifteen minutes, and the schedule has the least and the greatest.
abbrev pub IsMeasured : Schedule → List ℕ → Type 0
IsMeasured s ns =
    All (λ gap. (shortest ≤ gap) × (s.min_interval ≤ gap) × (gap ≤ s.max_interval)) ns
    × Mem s.min_interval ns
    × Mem s.max_interval ns

abbrev accepted : String → ℕ → List ℕ → Schedule
accepted schedule n ns = record {
  value = schedule;
  valid = true;
  err = "";
  max_interval = max_of n ns;
  min_interval = min_of n ns;
}

accepted-IsMeasured :
    (schedule : String) (n : ℕ) (ns : List ℕ)
    → shortest ≤ min_of n ns
    → IsMeasured (accepted schedule n ns) (n ∷ ns)
accepted-IsMeasured schedule n ns h =
    let least = min_of-bound n ns in
    let most = max_of-bound n ns in
    (
      All-map (n ∷ ns) (λ m b. (ground arith, b.0, b.1))
          (All-and (λ m. min_of n ns ≤ m) (λ m. m ≤ max_of n ns) (n ∷ ns) least most),
      mem-Among (min_of n ns) n ns (min_of-Among n ns),
      mem-Among (max_of n ns) n ns (max_of-Among n ns),
    )

judged-IsMeasured :
    (schedule : String) (ns : List ℕ)
    → (judged schedule ns).valid ≡ true
    → IsMeasured (judged schedule ns) ns
judged-IsMeasured schedule [] h = cc
judged-IsMeasured schedule (n ∷ ns) h = elim (Bool-cases (ltb (min_of n ns) shortest)) [
  | inl e ↦ absurd (ground arith)
  | inr e ↦
      let same : accepted schedule n ns ≡ judged schedule (n ∷ ns) = rw e refl in
      subst (λ s. IsMeasured s (n ∷ ns)) same (accepted-IsMeasured schedule n ns (ground arith))
]

-- The times between the runs.
abbrev pub gaps_from : ℕ → List ℕ → List ℕ
gaps_from last [] = []
gaps_from last (t ∷ ts) = (t - last) ∷ gaps_from t ts

abbrev pub gaps : List ℕ → List ℕ
gaps [] = []
gaps (t ∷ ts) = gaps_from t ts

-- The next `n` runs that the library gives.
pub data Runs {K : Type 0} (c : Croniter K) : ℕ → K → List ℕ → Type 0 where
  done : {k : K} → Runs c zero k []
  next :
      {n : ℕ} {k l : K} {t : ℕ} {ts : List ℕ}
      → c.get_next k ≡ (some t, l)
      → Runs c n l ts
      → Runs c (suc n) k (t ∷ ts)

module _ {K : Type 0} (c : Croniter K) where
  intervals-Runs :
      (n last : ℕ) (k : K) (ns : List ℕ)
      → intervals c n last k ≡ some ns
      → (ts : List ℕ) × Runs c n k ts × (gaps_from last ts ≡ ns)
  unfolding intervals
  intervals-Runs zero last k ns h = ([], done, cc)
  intervals-Runs (suc n) last k ns h =
      step (c.get_next k).0 (c.get_next k).1 refl h (λ t l. intervals-Runs n t l)
    where
      step :
          (o : Option ℕ) (l : K)
          → c.get_next k ≡ (o, l)
          → elim o [ none ↦ none | some time ↦ and_interval c last time (intervals c n time l) ]
            ≡ some ns
          → ((t : ℕ) (l : K) (ms : List ℕ)
              → intervals c n t l ≡ some ms
              → (ts : List ℕ) × Runs c n l ts × (gaps_from t ts ≡ ms))
          → (ts : List ℕ) × Runs c (suc n) k ts × (gaps_from last ts ≡ ns)
      step none l e g rest = cc
      step (some time) l e g rest = elim (Option-cases (intervals c n time l)) [
        | inl f ↦ let q = rw f at g in cc
        | inr (ms, f) ↦
            let (ts, runs, same) = rest time l ms f in
            let q = rw f at g in
            (time ∷ ts, next e runs, ap (λ gaps. (time - last) ∷ gaps) same ∙ cc)
      ]

  sample-Runs :
      (k : K) (ns : List ℕ)
      → sample c k ≡ some ns
      → (times : List ℕ) × Runs c 6 k times × (gaps times ≡ ns)
  sample-Runs k ns h = first (c.get_next k).0 (c.get_next k).1 refl h
    where
      first :
          (o : Option ℕ) (l : K)
          → c.get_next k ≡ (o, l)
          → elim o [ none ↦ none | some time ↦ intervals c 5 time l ] ≡ some ns
          → (times : List ℕ) × Runs c 6 k times × (gaps times ≡ ns)
      first none l e g = cc
      first (some time) l e g =
          let (ts, runs, same) = intervals-Runs 5 time l ns g in (time ∷ ts, next e runs, same)

  -- What an accepted schedule stands on: six runs, and the times between them.
  abbrev pub IsSampled : Schedule → K → Type 0
  IsSampled s k = (times : List ℕ) × Runs c 6 k times × IsMeasured s (gaps times)

  sampled-IsSampled :
      (schedule : String) (k : K) (o : Option (List ℕ))
      → sample c k ≡ o
      → (sampled schedule o).valid ≡ true
      → IsSampled (sampled schedule o) k
  sampled-IsSampled schedule k none e h = cc
  sampled-IsSampled schedule k (some ns) e h =
      let (times, runs, same) = sample-Runs k ns e in
      (times, runs, rw same (judged-IsMeasured schedule ns h))

  abbrev schedule_of : Schedule → Result Schedule → Schedule
  schedule_of s (ok r) = r
  schedule_of s (raised e) = s

  started-IsSampled :
      (schedule : String) (r : Result K) (s : Schedule)
      → started c schedule r ≡ ok s
      → s.valid ≡ true
      → (k : K) × (r ≡ ok k) × IsSampled s k
  started-IsSampled schedule (ok k) s h v =
      let same = ap (schedule_of s) h in
      (
        k,
        refl,
        subst (λ t. IsSampled t k) same
            (sampled-IsSampled schedule k (sample c k) refl
              (ap (λ (t : Schedule). t.valid) same ∙ v)),
      )
  started-IsSampled schedule (raised e) s h v = caught (value_error_text e) h
    where
      caught :
          (o : Option String)
          → not_started c schedule e o ≡ ok s
          → (k : K) × (raised e ≡ ok k) × IsSampled s k
      caught none g = cc
      caught (some m) g =
          let invalid : false ≡ s.valid = ap (λ (r : Result Schedule). (schedule_of s r).valid) g in
          cc

  -- If a schedule is accepted, it is empty, or croniter starts from it, and of the five times
  -- between the first six runs that croniter gives, each is at least fifteen minutes, the shortest
  -- is what the result has as its min_interval, and the longest is what it has as its max_interval.
  pub validated_schedule-IsSampled :
      (schedule : String) (s : Schedule)
      → validated_schedule c schedule ≡ ok s
      → s.valid ≡ true
      → (schedule ≡ "") ⊎ ((k : K) × (c.start schedule ≡ ok k) × IsSampled s k)
  unfolding validated_schedule
  validated_schedule-IsSampled schedule s h v = elim (Bool-cases (schedule == "")) [
    | inl e ↦ inl (ground (arith, eq_iff schedule ""))
    | inr e ↦ elim (Bool-cases (nat_eq (fields_from false schedule) 5)) [
      | inl f ↦ inr (started-IsSampled schedule (c.start schedule) s (ground arith) v)
      | inr f ↦ ground arith
    ]
  ]
