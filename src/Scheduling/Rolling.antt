-- ===== src/Scheduling/Rolling.antt =====
-- `rolling_fit` of src/scheduling.rs finds the least time at which the request fits.
use kaiion.Prelude.{
  ℕ, suc, ◌+◌, ◌-◌, Bool, true, false, ◌≡◌, refl, ap, ◌≤◌, ◌<◌, ◌⊎◌, inl, inr, Option, none, some,
  List, [], ◌∷◌, map, arith, ltb, if◌then◌else◌, Bool-cases, All, is_none, is_none_or,
}
use kaiion.Scheduling.Policy.{QuotaLimit, from_secs}
use kaiion.Scheduling.Types.{UsageEvent, Fit, u64_mod}
use kaiion.Scheduling.Quota.{
  Slot, Usage, slot, sort_slots, sum_slots, request_cap, cap_fit, fits_at, never_fits, expire_slots,
  is_uncapped, rolling_fit,
}
use kaiion.Scheduling.Windows.{
  usage_at, total, and_mono, cap_fit_mono, usage_at-total, After, Ordered, usage_at-After,
  After-mono, usage_at-sort, sort_slots-Ordered, sort_slots-After, sum_slots-total, total-sort,
}

module _ (l : QuotaLimit) (i o : ℕ) where
  -- Does the request fit at this time, of the slots alone?
  abbrev pub FitsAt : List Slot → ℕ → Type 0
  FitsAt ss time = cap_fit l i o (usage_at time ss) ≡ true

  -- A fit is the least time at which the request fits, or there is none.
  abbrev pub Least : (from : ℕ) → List Slot → Fit → Type 0
  Least from ss f =
      ((t : ℕ) × (f ≡ fits_at t)
        × (from ≤ t)
        × FitsAt ss t
        × ((u : ℕ) → from ≤ u → u < t → ¬ FitsAt ss u))
      ⊎ ((f ≡ never_fits) × ((u : ℕ) → from ≤ u → ¬ FitsAt ss u))

  not-FitsAt :
      (u : ℕ) (ss : List Slot) → After (suc u) ss → cap_fit l i o (total ss) ≡ false → ¬ FitsAt ss u
  not-FitsAt u ss aft full k =
      let full_now : cap_fit l i o (usage_at u ss) ≡ false = rw (usage_at-After u ss aft) full in
      cc (full_now, k)

  usage_at-expired :
      (u : ℕ) (s : Slot) (ss : List Slot) → s.expires_at ≤ u → usage_at u (s ∷ ss) ≡ usage_at u ss
  unfolding usage_at
  usage_at-expired u s ss h = ground arith

  -- The loop goes on past a slot when even without it the request does not fit.
  Least-cons :
      (from : ℕ) (s : Slot) (ss : List Slot) (f : Fit)
      → from ≤ s.expires_at
      → After s.expires_at ss
      → cap_fit l i o (total (s ∷ ss)) ≡ false
      → Least s.expires_at ss f
      → Least from (s ∷ ss) f
  Least-cons from s ss f late aft full least = elim least [
    | inl (t, e, past, fit, none_before) ↦ inl (
      t,
      e,
      omega arith,
      rw (usage_at-expired t s ss past) fit,
      λ u h k. before u λ p. none_before u p k,
    )
    | inr (e, none_ever) ↦ inr (e, λ u h. before u λ p. none_ever u p)
  ]
    where
      before : (u : ℕ) → (s.expires_at ≤ u → ¬ FitsAt ss u) → ¬ FitsAt (s ∷ ss) u
      before u later = elim (Bool-cases (ltb u s.expires_at)) [
        | inl early ↦
            let soon : u < s.expires_at = ground arith in
            not-FitsAt u (s ∷ ss) (soon, After-mono s.expires_at (suc u) ss soon aft) full
        | inr gone ↦
            let past : s.expires_at ≤ u = ground arith in
            λ k. later past (rw (usage_at-expired u s ss past) at k)
      ]

  -- The running totals stay those of the slots that are left.
  total-cons :
      (s : Slot) (ss : List Slot)
      → let u = total (s ∷ ss) in
        ◌≡◌ {A = Usage}
          (record { reqs = u.reqs - 1; input = u.input - s.input; output = u.output - s.output })
          (total ss)
  unfolding total
  total-cons s ss = ground arith

  expire_slots-cons :
      (s : Slot) (ss : List Slot)
      → expire_slots l i o (total (s ∷ ss)) (s ∷ ss) ≡ (
          if cap_fit l i o (total ss)
          then fits_at s.expires_at
          else expire_slots l i o (total ss) ss)
  unfolding expire_slots
  expire_slots-cons s ss =
      ap (λ u. if cap_fit l i o u then fits_at s.expires_at else expire_slots l i o u ss)
        (total-cons s ss)

  expire_slots-Least :
      (from : ℕ) (ss : List Slot)
      → Ordered ss
      → After from ss
      → cap_fit l i o (total ss) ≡ false
      → Least from ss (expire_slots l i o (total ss) ss)
  expire_slots-Least from [] ord aft full =
      inr (unfold expire_slots in refl, λ u h k. unfold usage_at total in cc (full, k))
  expire_slots-Least from (s ∷ ss) ord aft full =
      rw (expire_slots-cons s ss) (elim (Bool-cases (cap_fit l i o (total ss))) [
        | inl fits ↦ rw fits (
            inl (
              s.expires_at,
              refl,
              aft.0,
              rw (usage_at-expired s.expires_at s ss (omega arith)) (
                  cap_fit_mono l i o (usage_at s.expires_at ss) (total ss)
                    (usage_at-total s.expires_at ss) fits),
              λ u h k. not-FitsAt u (s ∷ ss) (k, After-mono s.expires_at (suc u) ss k ord.0) full,
            ))
        | inr still ↦ rw still (
            Least-cons from s ss _ aft.0 ord.0 full
              (expire_slots-Least s.expires_at ss ord.1 ord.0 still))
      ])

-- The sums of u64 values do not wrap.
pub record IsBounded (ss : List Slot) : Type 0 where
  pub reqs : (total ss).reqs < u64_mod
  pub input : (total ss).input < u64_mod
  pub output : (total ss).output < u64_mod

Least-sort :
    (l : QuotaLimit) (i o from : ℕ) (ss : List Slot) (f : Fit)
    → Least l i o from (sort_slots ss) f
    → Least l i o from ss f
Least-sort l i o from ss f (inl (t, e, h, fit, before)) =
    inl
      (t, e, h, rw (usage_at-sort t ss) at fit, λ u a b k. before u a b (rw (usage_at-sort u ss) k))
Least-sort l i o from ss f (inr (e, ever)) = inr (e, λ u a k. ever u a (rw (usage_at-sort u ss) k))

Least-now :
    (l : QuotaLimit) (i o now : ℕ) (ss : List Slot)
    → FitsAt l i o ss now
    → Least l i o now ss (fits_at now)
Least-now l i o now ss fit = inl (now, refl, omega arith, fit, λ u a b k. omega arith)

uncapped-fits :
    (l : QuotaLimit) (i o : ℕ) (u : Usage) → is_uncapped l ≡ true → cap_fit l i o u ≡ true
unfolding is_uncapped cap_fit
uncapped-fits l i o u h =
    and_mono _ _ _ _ (none-within (request_cap l) _)
      (and_mono _ _ _ _ (none-within l.max_input_tokens _)
        (and_mono _ _ _ _ (none-within l.max_output_tokens _) (none-within l.max_total_tokens _)))
      h
  where
    none-within :
        (cap : Option ℕ) (test : ℕ → Bool) → is_none cap ≡ true → is_none_or cap test ≡ true
    none-within none test h = refl
    none-within (some c) test h = cc

-- The events of a window that has not closed on any of them.
abbrev pub InWindow : QuotaLimit → (now : ℕ) → List UsageEvent → Type 0
InWindow l now = All (λ e. now < e.at + from_secs l.window_seconds)

pub InWindow-After :
    (l : QuotaLimit) (now : ℕ) (events : List UsageEvent)
    → InWindow l now events
    → After (suc now) (map (slot l) events)
unfolding slot
InWindow-After l now [] h = tt
InWindow-After l now (e ∷ es) h = (h.0, InWindow-After l now es h.1)

-- For events that are all still in the window, and token sums below 2 ^ 64, `rolling_fit` returns
-- the least time from now on at which the request fits beside the events that are then left, by
-- every rolling cap of the limit; and it says that the request is impossible exactly when there is
-- no such time.
pub rolling_fit-Least :
    (l : QuotaLimit) (events : List UsageEvent) (i o now : ℕ)
    → InWindow l now events
    → IsBounded (map (slot l) events)
    → Least l i o now (map (slot l) events) (rolling_fit l events i o now)
unfolding rolling_fit
rolling_fit-Least l events i o now open_ bounded = elim (Bool-cases (is_uncapped l)) [
  | inl free ↦ rw free (Least-now l i o now slots (uncapped-fits l i o (usage_at now slots) free))
  | inr capped ↦
      rw (capped, sums)
        (elim (Bool-cases (cap_fit l i o (total sorted))) [
          | inl fits ↦ rw fits (
              Least-sort l i o now slots _ (
                Least-now l i o now sorted (
                  cap_fit_mono l i o (usage_at now sorted) (total sorted)
                    (usage_at-total now sorted) fits)))
          | inr full ↦ rw full (
              Least-sort l i o now slots _ (
                expire_slots-Least l i o now sorted (sort_slots-Ordered slots)
                  (After-mono (suc now) now sorted (omega arith)
                    (sort_slots-After (suc now) slots (InWindow-After l now events open_)))
                  full))
        ])
]
  where
    slots : List Slot
    slots = map (slot l) events

    sorted : List Slot
    sorted = sort_slots slots

    sums : sum_slots sorted ≡ total sorted
    sums =
        sum_slots-total sorted (rw (total-sort slots) bounded.reqs)
          (rw (total-sort slots) bounded.input) (rw (total-sort slots) bounded.output)
