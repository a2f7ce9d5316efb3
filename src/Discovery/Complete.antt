-- ===== src/Discovery/Complete.antt =====
-- Which accounts the scan finds.
use simply_sats.Prelude.{
  ℕ, zero, suc, ◌+◌, ◌≤◌, ◌<◌, ◌≡◌, ◌≢◌, ◌⊎◌, refl, sym, ap, ◌∙◌, subst, Bool, true, false, ◌||◌,
  Option, none, some, List, [], ◌∷◌, any, ◌==◌, ==_iff, leb, if◌then◌else◌, Bool-cases, inl, inr,
  arith,
}
use simply_sats.Discovery.{
  scan, scan_all, discovery_gap_limit_after_first_hit, max_account_discovery,
}

abbrev pub empty_at : Option Bool → ℕ
empty_at none = 0
empty_at (some active) = if active then 0 else 1

data Activity (o : Option Bool) : Type 0 where
  none_known : o ≡ none → Activity o
  active : o ≡ some true → Activity o
  empty : o ≡ some false → Activity o

Activity-cases : (o : Option Bool) → Activity o
Activity-cases none = none_known refl
Activity-cases (some true) = active refl
Activity-cases (some false) = empty refl

none_hit : ◌≡◌ {A = Option Bool} none (some true) → ⊥
none_hit h = ground arith

false_hit : ◌≡◌ {A = Option Bool} (some false) (some true) → ⊥
false_hit h = ground arith

or_true : (b : Bool) → (b || true) ≡ true
or_true true = refl
or_true false = refl

zero_add : (n : ℕ) → 0 + n ≡ n
zero_add n = omega arith

one_add : (n : ℕ) → 1 + n ≡ suc n
one_add n = omega arith

module _ (activity : ℕ → Option Bool) where
  -- How many of the `n` indices behind `a` are confirmed to be empty.
  abbrev pub empties_behind : ℕ → ℕ → ℕ
  empties_behind a zero = 0
  empties_behind a (suc n) = empty_at (activity (suc a + n)) + empties_behind a n

  -- Behind the active index `a`, the `n` next ones hold no other active one.
  pub record IsQuiet (a n : ℕ) : Type 0 where
    pub hit : activity a ≡ some true
    pub quiet : (k : ℕ) → k < n → activity (suc a + k) ≢ some true

  -- At least five of them are confirmed to be empty.
  abbrev pub IsGap : ℕ → ℕ → Type 0
  IsGap a n = IsQuiet a n × (discovery_gap_limit_after_first_hit ≤ empties_behind a n)

  -- What the loop knows at index `i`: the last active index, and how many were empty since.
  abbrev pub Since : ℕ → ℕ → Type 0
  Since i empties =
      (a : ℕ) × (n : ℕ) × (i ≡ suc a + n) × IsQuiet a n × (empties ≡ empties_behind a n)

  abbrev pub Knows : ℕ → Bool → ℕ → Type 0
  Knows i true empties = Since i empties
  Knows i false empties = Unit {0}

  next : (a n i : ℕ) → i ≡ suc a + n → suc i ≡ suc a + suc n
  next a n i e = omega (arith, e)

  IsQuiet-suc :
      (a n i : ℕ) → i ≡ suc a + n → IsQuiet a n → activity i ≢ some true → IsQuiet a (suc n)
  IsQuiet-suc a n i e q other = record {
    hit = q.hit;
    quiet = λ k h. elim (Bool-cases (k == n)) [
      | inl same ↦
          subst (λ j. activity j ≢ some true) (e ∙ ap (λ m. suc a + m) (sym ((==_iff k n).0 same)))
            other
      | inr less ↦ q.quiet k (ground arith)
    ];
  }

  Since-suc :
      (i empties : ℕ)
      → Since i empties
      → activity i ≢ some true
      → Since (suc i) (empty_at (activity i) + empties)
  Since-suc i empties (a, n, e, q, c) other = (
    a,
    suc n,
    next a n i e,
    IsQuiet-suc a n i e q other,
    ap (λ m. empty_at (activity i) + m) c ∙ ap (λ j. empty_at (activity j) + empties_behind a n) e,
  )

  Since-hit : (i : ℕ) → activity i ≡ some true → Since (suc i) 0
  Since-hit i h =
      (i, 0, omega arith, record { hit = h; quiet = λ k lt. absurd (omega (arith, lt)) }, refl)

  -- The rounds of the loop.
  scan-none :
      (n i : ℕ) (found : Bool) (empties : ℕ)
      → activity i ≡ none
      → scan activity (suc n) i found empties ≡ scan activity n (suc i) found empties
  unfolding scan
  scan-none n i found empties e = rw (e, scan)

  scan-hit :
      (n i : ℕ) (found : Bool) (empties : ℕ)
      → activity i ≡ some true
      → scan activity (suc n) i found empties ≡ i ∷ scan activity n (suc i) true 0
  unfolding scan
  scan-hit n i found empties e = rw (e, scan)

  scan-first :
      (n i empties : ℕ)
      → activity i ≡ some false
      → scan activity (suc n) i false empties ≡ scan activity n (suc i) false empties
  unfolding scan
  scan-first n i empties e = rw (e, scan)

  scan-empty :
      (n i empties : ℕ)
      → activity i ≡ some false
      → leb discovery_gap_limit_after_first_hit (suc empties) ≡ false
      → scan activity (suc n) i true empties ≡ scan activity n (suc i) true (suc empties)
  unfolding scan
  scan-empty n i empties e l = rw (e, scan) (rw (l, scan))

  abbrev pub Found : ℕ → List ℕ → Type 0
  Found j is = any (λ i. j == i) is ≡ true

  -- A gap that lies before `j`.
  abbrev pub GapBefore : ℕ → Type 0
  GapBefore j = (a : ℕ) × (n : ℕ) × (suc a + n ≤ j) × IsGap a n

  past : (i j : ℕ) → i ≤ j → i ≢ j → suc i ≤ j
  past i j l ne = ground (arith, ne)

  Found-later : (i j : ℕ) (is : List ℕ) → Found j is ⊎ GapBefore j → Found j (i ∷ is) ⊎ GapBefore j
  Found-later i j is (inl f) = inl (ap (λ b. j == i || b) f ∙ or_true (j == i))
  Found-later i j is (inr g) = inr g

  Knows-none :
      (i : ℕ) (found : Bool) (empties : ℕ)
      → activity i ≡ none
      → Knows i found empties
      → Knows (suc i) found empties
  Knows-none i false empties e k = tt
  Knows-none i true empties e k =
      subst (Since (suc i)) (ap (λ o. empty_at o + empties) e ∙ zero_add empties)
        (Since-suc i empties k (λ f. none_hit (sym e ∙ f)))

  -- An index that is empty, where `more` is what the rest of the loop finds.
  scan_complete_empty :
      (n i : ℕ) (found : Bool) (empties : ℕ)
      → Knows i found empties
      → (j : ℕ) → suc i ≤ j
      → activity j ≡ some true
      → activity i ≡ some false
      → ((m : ℕ) → Knows (suc i) found m → Found j (scan activity n (suc i) found m) ⊎ GapBefore j)
      → Found j (scan activity (suc n) i found empties) ⊎ GapBefore j
  scan_complete_empty n i false empties k j l h e more =
      rw (scan-first n i empties e) (more empties tt)
  scan_complete_empty n i true empties k j l h e more =
      let (a, m, at, q, c) =
        subst (Since (suc i)) (ap (λ o. empty_at o + empties) e ∙ one_add empties)
          (Since-suc i empties k (λ f. false_hit (sym e ∙ f))) in
      elim (Bool-cases (leb discovery_gap_limit_after_first_hit (suc empties))) [
        | inl reached ↦ inr (a, m, omega (arith, at, l), (q, ground (arith, reached, c)))
        | inr short ↦ rw (scan-empty n i empties e short) (more (suc empties) (a, m, at, q, c))
      ]

  scan_complete :
      (n i : ℕ) (found : Bool) (empties : ℕ)
      → Knows i found empties
      → (j : ℕ) → i ≤ j
      → j < i + n
      → activity j ≡ some true
      → Found j (scan activity n i found empties) ⊎ GapBefore j
  scan_complete zero i found empties k j l u h = absurd (omega (arith, l, u))
  scan_complete (suc n) i found empties k j l u h = elim (Activity-cases (activity i)) [
    | none_known e ↦ rw (scan-none n i found empties e) (
        scan_complete n (suc i) found empties (Knows-none i found empties e k) j
          (past i j l (λ same. none_hit (sym e ∙ ap activity same ∙ h))) (omega (arith, u)) h)
    | active e ↦ rw (scan-hit n i found empties e) (elim (Bool-cases (j == i)) [
      | inl same ↦ inl (rw same refl)
      | inr other ↦ Found-later i j (scan activity n (suc i) true 0) (
          scan_complete n (suc i) true 0 (Since-hit i e) j (ground (arith, l, other))
            (omega (arith, u)) h)
    ])
    | empty e ↦
        let beyond : suc i ≤ j = past i j l (λ same. false_hit (sym e ∙ ap activity same ∙ h)) in
        scan_complete_empty n i found empties k j beyond h e
          (λ m f. scan_complete n (suc i) found m f j beyond (omega (arith, u)) h)
  ]

  scan-stop :
      (n i empties : ℕ)
      → activity i ≡ some false
      → leb discovery_gap_limit_after_first_hit (suc empties) ≡ true
      → scan activity (suc n) i true empties ≡ []
  unfolding scan
  scan-stop n i empties e l = rw (e, scan) (rw (l, scan))

  Pushed : ℕ → ℕ → ℕ → Type 0
  Pushed n i j = (activity j ≡ some true) × (i ≤ j) × (j < i + n)

  Pushed-suc : (n i j : ℕ) → Pushed n (suc i) j → Pushed (suc n) i j
  unfolding Pushed
  Pushed-suc n i j (h, l, u) = (h, omega (arith, l), omega (arith, u))

  Pushed-first : (n i j : ℕ) → activity i ≡ some true → j ≡ i → Pushed (suc n) i j
  unfolding Pushed
  Pushed-first n i j h e = (ap activity e ∙ h, omega (arith, e), omega (arith, e))

  nothing : {P : Type 0} (j : ℕ) → Found j [] → P
  nothing j f = absurd (ground arith)

  -- A round on an empty index, where `more` is about the rest.
  scan_sound_empty :
      (n i : ℕ) (found : Bool) (empties : ℕ) (j : ℕ)
      → activity i ≡ some false
      → Found j (scan activity (suc n) i found empties)
      → ((m : ℕ) → Found j (scan activity n (suc i) found m) → Pushed n (suc i) j)
      → Pushed (suc n) i j
  scan_sound_empty n i false empties j e f more =
      Pushed-suc n i j (more empties (subst (Found j) (scan-first n i empties e) f))
  scan_sound_empty n i true empties j e f more =
      elim (Bool-cases (leb discovery_gap_limit_after_first_hit (suc empties))) [
        | inl reached ↦ nothing j (subst (Found j) (scan-stop n i empties e reached) f)
        | inr short ↦
            Pushed-suc n i j
              (more (suc empties) (subst (Found j) (scan-empty n i empties e short) f))
      ]

  Found-where : (i j : ℕ) (is : List ℕ) → Found j (i ∷ is) → (j ≡ i) ⊎ Found j is
  Found-where i j is f = elim (Bool-cases (j == i)) [
    | inl same ↦ inl ((==_iff j i).0 same)
    | inr other ↦ inr (ground arith)
  ]

  -- What the loop pushes is active, and within its rounds.
  scan_sound :
      (n i : ℕ) (found : Bool) (empties : ℕ) (j : ℕ)
      → Found j (scan activity n i found empties)
      → Pushed n i j
  unfolding scan
  scan_sound zero i found empties j f = nothing j f
  scan_sound (suc n) i found empties j f = elim (Activity-cases (activity i)) [
    | none_known e ↦
        Pushed-suc n i j
          (scan_sound n (suc i) found empties j (subst (Found j) (scan-none n i found empties e) f))
    | active e ↦
        elim (Found-where i j (scan activity n (suc i) true 0)
          (subst (Found j) (scan-hit n i found empties e) f)) [
            | inl same ↦ Pushed-first n i j e same
            | inr later ↦ Pushed-suc n i j (scan_sound n (suc i) true 0 j later)
          ]
    | empty e ↦ scan_sound_empty n i found empties j e f (λ m g. scan_sound n (suc i) found m j g)
  ]

  -- An account with activity at an index from 1 to the cap of 200 is found, unless at least five indices that are confirmed to be empty, and no
  -- active one, lie between it and an earlier active one: indices whose checks failed end nothing.
  pub scan_all_complete :
      (j : ℕ)
      → 1 ≤ j
      → j ≤ max_account_discovery
      → activity j ≡ some true
      → Found j (scan_all activity) ⊎ GapBefore j
  unfolding scan_all
  scan_all_complete j l u h =
      scan_complete max_account_discovery 1 false 0 tt j l (omega (arith, u)) h

  -- Only accounts with activity are found, and only among the 200 that are looked at.
  pub scan_all_sound :
      (j : ℕ)
      → Found j (scan_all activity)
      → (activity j ≡ some true) × (1 ≤ j) × (j ≤ max_account_discovery)
  unfolding scan_all Pushed
  scan_all_sound j f =
      let (h, l, u) = scan_sound max_account_discovery 1 false 0 j f in (h, l, omega (arith, u))
