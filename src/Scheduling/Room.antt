-- ===== src/Scheduling/Room.antt =====
-- `readiness` of src/scheduling.rs says now only when the loop over the limits comes to no later time.
pub mod Counted
pub mod Granted
use kaiion.Prelude.{
  ℕ, suc, ◌≤◌, ◌≡◌, refl, sym, ap, ◌∙◌, subst, Bool, true, false, not, some, List, [], ◌∷◌, Result,
  ok, err, if◌then◌else◌, max, unwrap_or, arith,
}
use kaiion.Scheduling.Policy.{QuotaLimit, SchedulingPolicy}
use kaiion.Scheduling.Types.{ScheduleRequest, State, Fit}
use kaiion.Scheduling.Quota.{rule_matches, rolling_fit, never_fits}
use kaiion.Scheduling.Paces.{InPace, paced-InPace, InPace-mono}
use kaiion.Scheduling.Readiness.{
  exceeds, paced, counted, limit_ready, limits_ready, is_saturated, ready_fit, readiness,
}

-- What the loop has found of one limit, for a request that goes at a time.
pub record Allows (index : ℕ) (l : QuotaLimit) (state : State) (r : ScheduleRequest)
    (i o now time : ℕ) : Type 0 where
  pub alone : exceeds l i o ≡ false
  pub possible : (rolling_fit l (counted l r now state) i o now).impossible ≡ false
  pub in_time : unwrap_or (rolling_fit l (counted l r now state) i o now).at 0 ≤ time
  pub in_pace : InPace index l state r i o time

-- A property of each limit and its place.
abbrev pub AllFrom : (ℕ → QuotaLimit → Type 0) → ℕ → List QuotaLimit → Type 0
AllFrom P index [] = Unit
AllFrom P index (l ∷ ls) = P index l × AllFrom P (suc index) ls

ok_le : (v w x : ℕ) → (◌≡◌ {A = Result Fit ℕ} (ok v) (ok w)) → x ≤ v → x ≤ w
ok_le v w x h le = let e : v ≡ w = ap value h in omega arith
  where
    value : Result Fit ℕ → ℕ
    value (ok n) = n
    value (err f) = v

limit_ready-Allows :
    (index : ℕ) (l : QuotaLimit) (state : State) (r : ScheduleRequest) (i o now ready later : ℕ)
    → limit_ready index l state r i o now ready ≡ ok later
    → (ready ≤ later) × (rule_matches l r ≡ true → Allows index l state r i o now later)
unfolding limit_ready
limit_ready-Allows index l state r i o now ready later h =
    let (le, rest) = decide (rule_matches l r) (exceeds l i o) rolling.impossible h in
    (
      le,
      λ applies.
          let (a, b, c, d) = rest applies in
          record { alone = a; possible = b; in_time = c; in_pace = d },
    )
  where
    rolling : Fit
    rolling = rolling_fit l (counted l r now state) i o now

    from_then : ℕ
    from_then = max ready (unwrap_or rolling.at 0)

    decide :
        (applies alone never : Bool)
        → (if not applies
            then ok ready
            else if alone
            then err never_fits
            else if never
            then err rolling
            else ok (paced index l state r i o from_then))
          ≡ ok later
        → (ready ≤ later)
          × (applies ≡ true
              → (alone ≡ false)
                × (never ≡ false)
                × (unwrap_or rolling.at 0 ≤ later)
                × InPace index l state r i o later)
    decide false alone never k = (ok_le ready later ready k (omega arith), λ e. cc)
    decide true true never k = cc
    decide true false true k = cc
    decide true false false k =
        let (le, pace) = paced-InPace index l state r i o from_then later (
          ok_le (paced index l state r i o from_then) later (paced index l state r i o from_then) k
            (omega arith)) in
        (omega arith, λ e. (refl, refl, omega arith, pace))

-- An early return is a request that never fits.
limit_ready-impossible :
    (index : ℕ) (l : QuotaLimit) (state : State) (r : ScheduleRequest) (i o now ready : ℕ)
    (fit : Fit)
    → limit_ready index l state r i o now ready ≡ err fit
    → fit.impossible ≡ true
unfolding limit_ready
limit_ready-impossible index l state r i o now ready fit h =
    decide (not (rule_matches l r)) (exceeds l i o) (rolling_fit l (counted l r now state) i o now)
      _ h
  where
    decide :
        (other alone : Bool) (rolling : Fit) (next : ℕ)
        → (if other
            then ok ready
            else if alone
            then err never_fits
            else if rolling.impossible
            then err rolling
            else ok next)
          ≡ err fit
        → fit.impossible ≡ true
    decide true alone rolling next k = cc
    decide false true rolling next k =
        ap (λ res. elim res [ ok v ↦ true | err f ↦ f.impossible ]) (sym k)
    decide false false rolling next k = ground arith

limits_ready-impossible :
    (index : ℕ) (ls : List QuotaLimit) (state : State) (r : ScheduleRequest) (i o now ready : ℕ)
    (fit : Fit)
    → limits_ready index ls state r i o now ready ≡ err fit
    → fit.impossible ≡ true
unfolding limits_ready
limits_ready-impossible index [] state r i o now ready fit h = cc
limits_ready-impossible index (l ∷ ls) state r i o now ready fit h =
    from_first (limit_ready index l state r i o now ready)
      (limit_ready-impossible index l state r i o now ready)
      (λ next. limits_ready-impossible (suc index) ls state r i o now next fit) h
  where
    from_first :
        (first : Result Fit ℕ)
        → ((f : Fit) → first ≡ err f → f.impossible ≡ true)
        → ((next : ℕ)
            → limits_ready (suc index) ls state r i o now next ≡ err fit
            → fit.impossible ≡ true)
        → elim first [ err f ↦ err f | ok next ↦ limits_ready (suc index) ls state r i o now next ]
          ≡ err fit
        → fit.impossible ≡ true
    from_first (err f) stops rest k = stops fit k
    from_first (ok next) stops rest k = rest next k

-- The loop ends at a time at which every limit that concerns the request allows it.
limits_ready-Allows :
    (index : ℕ) (ls : List QuotaLimit) (state : State) (r : ScheduleRequest)
    (i o now ready last : ℕ)
    → limits_ready index ls state r i o now ready ≡ ok last
    → (ready ≤ last)
      × AllFrom (λ n l. rule_matches l r ≡ true → Allows n l state r i o now last) index ls
unfolding limits_ready
limits_ready-Allows index [] state r i o now ready last h =
    (ok_le ready last ready h (omega arith), tt)
limits_ready-Allows index (l ∷ ls) state r i o now ready last h =
    from_first (limit_ready index l state r i o now ready)
      (limit_ready-Allows index l state r i o now ready)
      (λ next. limits_ready-Allows (suc index) ls state r i o now next last) h
  where
    from_first :
        (first : Result Fit ℕ)
        → ((next : ℕ)
            → first ≡ ok next
            → (ready ≤ next) × (rule_matches l r ≡ true → Allows index l state r i o now next))
        → ((next : ℕ)
            → limits_ready (suc index) ls state r i o now next ≡ ok last
            → (next ≤ last)
              × AllFrom
                  (λ n m. rule_matches m r ≡ true → Allows n m state r i o now last)
                  (suc index)
                  ls)
        → elim first [ err f ↦ err f | ok next ↦ limits_ready (suc index) ls state r i o now next ]
          ≡ ok last
        → (ready ≤ last)
          × AllFrom
              (λ n m. rule_matches m r ≡ true → Allows n m state r i o now last)
              index
              (l ∷ ls)
    from_first (err f) one rest k = cc
    from_first (ok next) one rest k =
        let (le, allows) = one next refl in
        let (later, others) = rest next k in
        (
          (let a = le in let b = later in omega arith),
          (
            (λ e.
                let w = allows e in
                record {
                  alone = w.alone;
                  possible = w.possible;
                  in_time = (let a = w.in_time in let b = later in omega arith);
                  in_pace = InPace-mono index l state r i o next last later w.in_pace;
                }),
            others,
          ),
        )

readiness-ready_fit :
    (p : SchedulingPolicy) (state : State) (r : ScheduleRequest) (i o now : ℕ)
    → p.enabled ≡ true
    → readiness p state r i o now
      ≡ ready_fit now (limits_ready 0 p.limits state r i o now now) (is_saturated p.limits state r)
unfolding readiness ready_fit
readiness-ready_fit p state r i o now e = rw e refl

-- When `readiness` gives a time that has come, the loop has found no limit that forbids the request
-- now, and none with its concurrency used up.
pub readiness-Allows :
    (p : SchedulingPolicy) (state : State) (r : ScheduleRequest) (i o now at : ℕ)
    → p.enabled ≡ true
    → (readiness p state r i o now).impossible ≡ false
    → (readiness p state r i o now).at ≡ some at
    → at ≤ now
    → AllFrom (λ n l. rule_matches l r ≡ true → Allows n l state r i o now now) 0 p.limits
      × (is_saturated p.limits state r ≡ false)
unfolding ready_fit
readiness-Allows p state r i o now at enabled possible found due =
    decide (limits_ready 0 p.limits state r i o now now) (is_saturated p.limits state r)
      (limits_ready-impossible 0 p.limits state r i o now now)
      (limits_ready-Allows 0 p.limits state r i o now now)
      (sym (ap (λ (f : Fit). f.impossible) whole) ∙ possible)
      (sym (ap (λ (f : Fit). f.at) whole) ∙ found)
  where
    whole :
        readiness p state r i o now
        ≡ ready_fit now
            (limits_ready 0 p.limits state r i o now now)
            (is_saturated p.limits state r)
    whole = readiness-ready_fit p state r i o now enabled

    Allowed : ℕ → Type 0
    Allowed time =
        AllFrom (λ n l. rule_matches l r ≡ true → Allows n l state r i o now time) 0 p.limits

    decide :
        (first : Result Fit ℕ) (saturated : Bool)
        → ((fit : Fit) → first ≡ err fit → fit.impossible ≡ true)
        → ((last : ℕ) → first ≡ ok last → (now ≤ last) × Allowed last)
        → (ready_fit now first saturated).impossible ≡ false
        → (ready_fit now first saturated).at ≡ some at
        → Allowed now × (saturated ≡ false)
    decide (err fit) saturated never allows k found' =
        let bad : true ≡ false = sym (never fit refl) ∙ k in cc
    decide (ok last) true never allows k found' = ground arith
    decide (ok last) false never allows k found' =
        let e : last ≡ at = ap (λ o. unwrap_or o last) found' in
        let (le, allowed) = allows last refl in
        let same : last ≡ now = (let a = le in omega arith) in (subst Allowed same allowed, refl)
