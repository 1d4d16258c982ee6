-- ===== src/Geo/Matching/Nearest.antt =====
-- What `match_location` returns, and when it refuses.
use verigence_security.Common.{
  ◌≡◌, refl, sym, ap, ◌∙◌, true, false, List, [], ◌∷◌, arith, Among-cons, not-Among-nil,
  if◌then◌else◌, Among, Bool-cases, inl, inr, All,
}
use mathlib.Core.Path.{subst, ap₂}
use verigence_security.Core.Types.{Double}
use verigence_security.Core.Errors.{location_not_allowed}
use verigence_security.Core.Result.{ok, deny, >>=-eq-ok, ok-injective}
use verigence_security.Platform.Doubles.{Doubles, IsOrdered, IsNumber}
use verigence_security.Geo.Distance.{GeoSample, LocationCandidate}
use verigence_security.Geo.Matching.{
  Match, distance_to, matches_in, nearest, choose, match_location, Holds, Nearest,
}

module _ (d : Doubles) where
  open d use {le}

  Holds-cons :
      (sample : GeoSample) (c : LocationCandidate) (cs : List LocationCandidate) (m : Match)
      → Holds d sample cs m
      → Holds d sample (c ∷ cs) m
  Holds-cons sample c cs m k = record {
    assigned = Among.there k.assigned;
    measured = k.measured;
    within = k.within;
  }

  kept_sound :
      (sample : GeoSample) (c : LocationCandidate) (cs : List LocationCandidate) (x : Double)
      (rest : List Match) (m : Match)
      → distance_to d sample c ≡ ok x
      → (Among m rest → Holds d sample cs m)
      → Among m (if le x c.allowed_radius_meters then (c, x) ∷ rest else rest)
      → Holds d sample (c ∷ cs) m
  kept_sound sample c cs x rest m ex ih a = elim (Bool-cases (le x c.allowed_radius_meters)) [
    | inl w ↦ elim (Among-cons (rw w at a)) [
      | inl e ↦ record {
        assigned = Among.here (ap (λ (q : Match). q.0) e);
        measured = rw e ex;
        within = rw e w;
      }
      | inr b ↦ Holds-cons sample c cs m (ih b)
    ]
    | inr f ↦ Holds-cons sample c cs m (ih (rw f at a))
  ]

  matches_in_sound :
      (sample : GeoSample) (cs : List LocationCandidate) (ms : List Match) (m : Match)
      → matches_in d sample cs ≡ ok ms
      → Among m ms
      → Holds d sample cs m
  unfolding matches_in
  matches_in_sound sample [] ms m h a =
      absurd (not-Among-nil (subst (Among m) (ok-injective (sym h)) a))
  matches_in_sound sample (c ∷ cs) ms m h a =
      let (x, ex, h1) = >>=-eq-ok (distance_to d sample c) _ h in
      let (rest, er, h2) = >>=-eq-ok (matches_in d sample cs) _ h1 in
      kept_sound sample c cs x rest m ex (matches_in_sound sample cs rest m er)
        (subst (Among m) (ok-injective (sym h2)) a)

  kept_complete :
      (sample : GeoSample) (c : LocationCandidate) (cs : List LocationCandidate) (x : Double)
      (rest : List Match) (m : Match)
      → distance_to d sample c ≡ ok x
      → (Holds d sample cs m → Among m rest)
      → Holds d sample (c ∷ cs) m
      → Among m (if le x c.allowed_radius_meters then (c, x) ∷ rest else rest)
  kept_complete sample c cs x rest m ex ih k = elim (Among-cons k.assigned) [
    | inl e ↦
        let same : m.1 ≡ x = ok-injective (sym k.measured ∙ (ap (distance_to d sample) e ∙ ex)) in
        let w : le x c.allowed_radius_meters ≡ true =
          ap₂ (λ (y : Double) (q : LocationCandidate). le y q.allowed_radius_meters) (sym same)
            (sym e)
          ∙ k.within in
        rw w (Among.here (λ i. (e i, same i)))
    | inr b ↦
        let old = ih (record { assigned = b; measured = k.measured; within = k.within }) in
        elim (Bool-cases (le x c.allowed_radius_meters)) [
          | inl w ↦ rw w (Among.there old)
          | inr f ↦ rw f old
        ]
  ]

  matches_in_complete :
      (sample : GeoSample) (cs : List LocationCandidate) (ms : List Match) (m : Match)
      → matches_in d sample cs ≡ ok ms
      → Holds d sample cs m
      → Among m ms
  unfolding matches_in
  matches_in_complete sample [] ms m h k = absurd (not-Among-nil k.assigned)
  matches_in_complete sample (c ∷ cs) ms m h k =
      let (x, ex, h1) = >>=-eq-ok (distance_to d sample c) _ h in
      let (rest, er, h2) = >>=-eq-ok (matches_in d sample cs) _ h1 in
      subst (Among m) (ok-injective h2)
        (kept_complete sample c cs x rest m ex (matches_in_complete sample cs rest m er) k)

module _ (d : Doubles) (o : IsOrdered d) where
  open d use {lt, le}
  open o use {lt_irrefl, lt_trans, le_of_not_lt, le_lt_trans}

  nearest-Among : (best : Match) (ms : List Match) → Among (nearest d best ms) (best ∷ ms)
  unfolding nearest
  nearest-Among best [] = Among.here refl
  nearest-Among best (m ∷ ms) = elim (Bool-cases (lt m.1 best.1)) [
    | inl t ↦ rw (t, nearest) (Among.there (nearest-Among m ms))
    | inr f ↦
        rw (f, nearest)
          (elim (Among-cons (nearest-Among best ms)) [
            | inl e ↦ Among.here e
            | inr a ↦ Among.there (Among.there a)
          ])
  ]

  abbrev Numbers : List Match → Type 0
  Numbers = All (λ m. IsNumber d m.1)

  nearest_le_best : (best : Match) (ms : List Match) → lt best.1 (nearest d best ms).1 ≡ false
  unfolding nearest
  nearest_le_best best [] = lt_irrefl best.1
  nearest_le_best best (m ∷ ms) = elim (Bool-cases (lt m.1 best.1)) [
    | inl t ↦
        rw (t, nearest)
          (ground (arith, nearest_le_best m ms, lt_trans m.1 best.1 (nearest d m ms).1 t))
    | inr f ↦ rw (f, nearest) (nearest_le_best best ms)
  ]

  nearest_least :
      (best : Match) (ms : List Match) (m : Match)
      → IsNumber d best.1
      → Numbers ms
      → Among m ms
      → lt m.1 (nearest d best ms).1 ≡ false
  unfolding nearest
  nearest_least best [] m nb ns a = absurd (not-Among-nil a)
  nearest_least best (n ∷ ms) m nb ns a = elim (Bool-cases (lt n.1 best.1)) [
    | inl t ↦
        rw (t, nearest)
          (elim (Among-cons a) [
            | inl e ↦ rw e (nearest_le_best n ms)
            | inr b ↦ nearest_least n ms m ns.0 ns.1 b
          ])
    | inr f ↦
        rw (f, nearest)
          (elim (Among-cons a) [
            | inl e ↦ rw e (
                ground (
                  arith,
                  nearest_le_best best ms,
                  le_lt_trans best.1 n.1 (nearest d best ms).1 (le_of_not_lt n.1 best.1 ns.0 nb f),
                ))
            | inr b ↦ nearest_least best ms m nb ns.1 b
          ])
  ]

  in_matches :
      (sample : GeoSample) (cs : List LocationCandidate) (ms : List Match) (c : LocationCandidate)
      (x : Double)
      → matches_in d sample cs ≡ ok ms
      → Holds d sample cs (c, x)
      → Among (c, x) ms
  in_matches sample cs ms c x h k = matches_in_complete d sample cs ms (c, x) h k

  all-Numbers :
      (sample : GeoSample) (cs : List LocationCandidate) (ms : List Match)
      → ((m : Match) → Among m ms → Holds d sample cs m)
      → Numbers ms
  all-Numbers sample cs [] f = tt
  all-Numbers sample cs (m ∷ ms) f = (
    (m.0.allowed_radius_meters, (f m (Among.here refl)).within),
    all-Numbers sample cs ms (λ n a. f n (Among.there a)),
  )

  choose-Nearest :
      (sample : GeoSample) (cs : List LocationCandidate) (ms : List Match) (m : Match)
      → matches_in d sample cs ≡ ok ms
      → choose d ms ≡ ok m
      → Holds d sample cs m × Nearest d sample cs m
  unfolding choose
  choose-Nearest sample cs [] m em h = cc
  choose-Nearest sample cs (n ∷ ms) m em h =
      let e : nearest d n ms ≡ m = ok-injective h in
      let sound = matches_in_sound d sample cs (n ∷ ms) in
      let ns = all-Numbers sample cs (n ∷ ms) (λ k a. sound k em a) in
      rw (← e) (
        sound (nearest d n ms) em (nearest-Among n ms),
        λ c x k. elim (Among-cons (in_matches sample cs (n ∷ ms) c x em k)) [
          | inl f ↦ rw (ap (λ (q : Match). q.1) f) (nearest_le_best n ms)
          | inr a ↦ nearest_least n ms (c, x) ns.0 ns.1 a
        ],
      )

  -- A location that `match_location` returns is one of the candidates, its distance is the measured
  -- one and within its radius, and no candidate whose radius holds the sample is nearer.
  pub match_location-Nearest :
      (sample : GeoSample) (cs : List LocationCandidate) (m : Match)
      → match_location d sample cs ≡ ok m
      → Holds d sample cs m × Nearest d sample cs m
  unfolding match_location
  match_location-Nearest sample [] m h = cc
  match_location-Nearest sample (c ∷ cs) m h =
      let (ms, em, hc) = >>=-eq-ok (matches_in d sample (c ∷ cs)) (choose d) h in
      choose-Nearest sample (c ∷ cs) ms m em hc

module _ (d : Doubles) where
  -- Every distance that the loop needs can be computed.
  abbrev pub Measurable : GeoSample → List LocationCandidate → Type 0
  Measurable sample = All (λ c. (x : Double) × (distance_to d sample c ≡ ok x))

  measured :
      (sample : GeoSample) (cs : List LocationCandidate)
      → Measurable sample cs
      → (ms : List Match) × (matches_in d sample cs ≡ ok ms)
  unfolding matches_in
  measured sample [] h = ([], refl)
  measured sample (c ∷ cs) h =
      let (x, ex) = h.0 in
      let (ms, em) = measured sample cs h.1 in
      (if d.le x c.allowed_radius_meters then (c, x) ∷ ms else ms, rw (ex, em))

  choose_denied :
      (ms : List Match) → ((m : Match) → ¬ Among m ms) → choose d ms ≡ deny location_not_allowed
  unfolding choose
  choose_denied [] f = refl
  choose_denied (m ∷ ms) f = absurd (f m (Among.here refl))

  -- With candidates all of whose distances can be computed and none of whose radii holds the sample,
  -- the match is refused as not allowed.
  pub match_location_denied :
      (sample : GeoSample) (c : LocationCandidate) (cs : List LocationCandidate)
      → Measurable sample (c ∷ cs)
      → ((m : Match) → ¬ Holds d sample (c ∷ cs) m)
      → match_location d sample (c ∷ cs) ≡ deny location_not_allowed
  unfolding match_location
  match_location_denied sample c cs ok_all out =
      let (ms, em) = measured sample (c ∷ cs) ok_all in
      rw em (choose_denied ms (λ m a. out m (matches_in_sound d sample (c ∷ cs) ms m em a)))
