-- ===== src/Regex/Correct.antt =====
-- That matching by derivatives is matching.
use mathlib.Core.Path.{subst}
use sunbeam_charms.Prelude.{
  ℕ, ◌≡◌, ◌⊎◌, ◌↔◌, refl, sym, ap, true, ◌||◌, List, [], ◌∷◌, ◌++◌, inl, inr, Bool-cases, arith,
}
use sunbeam_charms.Regex.{
  Regex, never, empty, one_of, sequence, either, many, nullable, derive, accepts, joined, Matches,
  LineMatches, without_newline, matches_line,
}

both_nil : (s t : List ℕ) → ◌≡◌ {A = List ℕ} [] (s ++ t) → (s ≡ []) × (t ≡ [])
both_nil [] [] e = (refl, refl)
both_nil [] (c ∷ t) e = absurd (ground arith)
both_nil (c ∷ s) t e = absurd (ground arith)

head_of : {c d : ℕ} {v w : List ℕ} → c ∷ v ≡ d ∷ w → c ≡ d
head_of e = cc

tail_of : {c d : ℕ} {v w : List ℕ} → c ∷ v ≡ d ∷ w → v ≡ w
tail_of e = cc

nullable-Matches : (r : Regex) → nullable r ≡ true → Matches r []
unfolding nullable
nullable-Matches never h = absurd (ground arith)
nullable-Matches empty h = refl
nullable-Matches (one_of p) h = absurd (ground arith)
nullable-Matches (sequence r q) h =
    ([], [], refl, nullable-Matches r (ground arith), nullable-Matches q (ground arith))
nullable-Matches (either r q) h = elim (Bool-cases (nullable r)) [
  | inl e ↦ inl (nullable-Matches r e)
  | inr e ↦ inr (nullable-Matches q (ground arith))
]
nullable-Matches (many r) h = ([], refl, tt)

Matches-nullable : (r : Regex) → Matches r [] → nullable r ≡ true
unfolding nullable
Matches-nullable never m = absurd m
Matches-nullable empty m = refl
Matches-nullable (one_of p) (c, h, e) = absurd (ground arith)
Matches-nullable (sequence r q) (s, t, e, m, n) =
    let (x, y) = both_nil s t e in
    rw (Matches-nullable r (subst (Matches r) x m)) (Matches-nullable q (subst (Matches q) y n))
Matches-nullable (either r q) (inl m) = ground (arith, Matches-nullable r m)
Matches-nullable (either r q) (inr m) = ground (arith, Matches-nullable q m)
Matches-nullable (many r) m = refl

-- The first character of a sequence is the first one's.
sequence-first :
    (r q : Regex) (c : ℕ) (w : List ℕ)
    → ((s : List ℕ) → Matches (derive c r) s → Matches r (c ∷ s))
    → Matches (sequence (derive c r) q) w
    → Matches (sequence r q) (c ∷ w)
sequence-first r q c w f (s, t, e, m, n) = (c ∷ s, t, ap (◌∷◌ c) e, f s m, n)

derive-Matches : (r : Regex) (c : ℕ) (w : List ℕ) → Matches (derive c r) w → Matches r (c ∷ w)
unfolding derive
derive-Matches never c w m = absurd m
derive-Matches empty c w m = absurd m
derive-Matches (one_of p) c w m = elim (Bool-cases (p c)) [
  | inl e ↦ (c, e, ap (◌∷◌ c) (rw e at m))
  | inr e ↦ absurd (rw e at m)
]
derive-Matches (sequence r q) c w m = elim (Bool-cases (nullable r)) [
  | inl e ↦ elim (rw e at m) [
    | inl n ↦ sequence-first r q c w (derive-Matches r c) n
    | inr n ↦ ([], c ∷ w, refl, nullable-Matches r e, derive-Matches q c w n)
  ]
  | inr e ↦ sequence-first r q c w (derive-Matches r c) (rw e at m)
]
derive-Matches (either r q) c w (inl m) = inl (derive-Matches r c w m)
derive-Matches (either r q) c w (inr m) = inr (derive-Matches q c w m)
derive-Matches (many r) c w (s, t, e, m, (ps, f, a)) =
    ((c ∷ s) ∷ ps, ap (◌∷◌ c) (rw (← f) e), (((λ h. cc), derive-Matches r c s m), a))

Matches-derive : (r : Regex) (c : ℕ) (w : List ℕ) → Matches r (c ∷ w) → Matches (derive c r) w
unfolding derive
Matches-derive never c w m = absurd m
Matches-derive empty c w m = absurd (ground arith)
Matches-derive (one_of p) c w (d, h, e) = rw (head_of e) (rw h (tail_of e))
Matches-derive (sequence r q) c w ([], t, e, m, n) =
    rw (Matches-nullable r m) (inr (Matches-derive q c w (subst (Matches q) (sym e) n)))
Matches-derive (sequence r q) c w (d ∷ s, t, e, m, n) =
    let first : Matches (sequence (derive c r) q) w =
      (s, t, tail_of e, Matches-derive r c s (rw (head_of e) m), n) in
    elim (Bool-cases (nullable r)) [ inl z ↦ rw z (inl first) | inr z ↦ rw z first ]
Matches-derive (either r q) c w (inl m) = inl (Matches-derive r c w m)
Matches-derive (either r q) c w (inr m) = inr (Matches-derive q c w m)
Matches-derive (many r) c w ([], e, a) = absurd (ground arith)
Matches-derive (many r) c w ([] ∷ ps, e, a) = absurd (a.0.0 refl)
Matches-derive (many r) c w ((d ∷ s) ∷ ps, e, a) =
    (s, joined ps, tail_of e, Matches-derive r c s (rw (head_of e) a.0.1), (ps, refl, a.1))

-- The matcher accepts just the texts that match.
pub accepts-Matches : (r : Regex) (w : List ℕ) → (accepts r w ≡ true) ↔ Matches r w
unfolding accepts
accepts-Matches r [] = (nullable-Matches r, Matches-nullable r)
accepts-Matches r (c ∷ w) =
    let (forth, back) = accepts-Matches (derive c r) w in
    (λ h. derive-Matches r c w (forth h), λ m. back (Matches-derive r c w m))

-- What `without_newline` leaves is the text, or the text was that and a newline.
without_newline-cases : (w : List ℕ) → (without_newline w ≡ w) ⊎ (w ≡ without_newline w ++ 10 ∷ [])
unfolding without_newline
without_newline-cases [] = inl refl
without_newline-cases (c ∷ []) = ground arith
without_newline-cases (c ∷ d ∷ w) = elim (without_newline-cases (d ∷ w)) [
  | inl e ↦ inl (ap (◌∷◌ c) e)
  | inr e ↦ inr (ap (◌∷◌ c) e)
]

without_newline-append : (v : List ℕ) → without_newline (v ++ 10 ∷ []) ≡ v
unfolding without_newline
without_newline-append [] = refl
without_newline-append (c ∷ []) = refl
without_newline-append (c ∷ d ∷ v) = ap (◌∷◌ c) (without_newline-append (d ∷ v))

-- A pattern between `^` and `$` takes just the texts that match, and those with a newline behind.
pub matches_line-LineMatches :
    (r : Regex) (w : List ℕ) → (matches_line r w ≡ true) ↔ LineMatches r w
unfolding matches_line
matches_line-LineMatches r w = (forth, back)
  where
    forth : (accepts r w || accepts r (without_newline w)) ≡ true → LineMatches r w
    forth h = elim (Bool-cases (accepts r w)) [
      | inl e ↦ inl ((accepts-Matches r w).0 e)
      | inr e ↦ elim (without_newline-cases w) [
        | inl f ↦ absurd (ground (arith, f))
        | inr f ↦ inr (_, f, (accepts-Matches r _).0 (ground arith))
      ]
    ]

    back : LineMatches r w → (accepts r w || accepts r (without_newline w)) ≡ true
    back (inl m) = rw ((accepts-Matches r w).1 m) refl
    back (inr (v, e, m)) =
        rw (e, without_newline-append v, (accepts-Matches r v).1 m) (ground arith)
