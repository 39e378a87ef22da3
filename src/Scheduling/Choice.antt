-- ===== src/Scheduling/Choice.antt =====
-- src/scheduling.rs: what the loop of `dispatch_ready` keeps.
use kaiion.Prelude.{
  ℕ, ◌≤◌, ◌<◌, ◌≡◌, refl, ap, subst, min, inl, inr, Bool, false, Option, none, some, List, [], ◌∷◌,
  ltb, ltb→lt, Bool-cases, Option-cases, All, is_none_or, unwrap_or, arith,
}
use kaiion.Scheduling.Policy.{SchedulingPolicy}
use kaiion.Scheduling.Types.{ScheduleRequest, Pending, State, Fit, Complexity}
use kaiion.Scheduling.Pacing.{Floats}
use kaiion.Scheduling.Dispatch.{
  is_better, Best, Scan, place, offer, dismiss, postpone, find_key, conclude, choose, no_choice,
  ranked, fit_of, consider, scan,
}

-- A time to look again is in the future, and the best request is a good one.
pub record Sane (Good : Best → Type 0) (now : ℕ) (s : Scan) : Type 0 where
  pub later : (at : ℕ) → s.next_due ≡ some at → now < at
  pub good : (b : Best) → s.best ≡ some b → Good b

module _ (Good : Best → Type 0) where
  offer-Sane :
      (now : ℕ) (b : Best) (s : Scan) → Good b → Sane Good now s → Sane Good now (offer b s)
  unfolding offer
  offer-Sane now b s h sane = elim (Bool-cases (is_none_or s.best (is_better b))) [
    | inl wins ↦
        rw wins
          (record { later = sane.later; good = λ c e. subst Good (ap (λ o. unwrap_or o b) e) h })
    | inr loses ↦ rw loses sane
  ]

  postpone-Sane :
      (now at : ℕ) (s : Scan) → now < at → Sane Good now s → Sane Good now (postpone at s)
  unfolding postpone
  postpone-Sane now at s h sane = record {
    later =
        λ at' e. subst (λ x. now < x) (ap (λ o. unwrap_or o at) e) (earliest s.next_due sane.later);
    good = sane.good;
  }
    where
      earliest :
          (o : Option ℕ)
          → ((x : ℕ) → o ≡ some x → now < x)
          → now < elim o [ none ↦ at | some due ↦ min due at ]
      earliest none later = h
      earliest (some due) later = let k = later due refl in omega arith

  place-Sane :
      (ready : Bool) (now : ℕ) (b : Best) (fit : Fit) (s : Scan)
      → ((at : ℕ) → fit.impossible ≡ false → fit.at ≡ some at → at ≤ now → Good b)
      → Sane Good now s
      → Sane Good now (place ready now b fit s)
  unfolding place dismiss
  place-Sane ready now b fit s h sane = elim (Bool-cases fit.impossible) [
    | inl never ↦ rw (place, never) (record { later = sane.later; good = sane.good })
    | inr can ↦
        rw (place, can)
          (elim (Option-cases fit.at) [
            | inl e ↦ rw e sane
            | inr (at, e) ↦ rw e (elim (Bool-cases (ltb now at)) [
              | inl wait ↦ rw wait (postpone-Sane now at s (ltb→lt now at wait) sane)
              | inr due ↦ rw due (elim (Bool-cases ready) [
                | inl wins ↦ rw wins (offer-Sane now b s (h at can e (ground arith)) sane)
                | inr loses ↦ rw loses sane
              ])
            ])
          ])
  ]

module _ (fl : Floats) (p : SchedulingPolicy) (classifier : ScheduleRequest → Complexity) where
  -- A waiting request that may go now makes a good choice.
  abbrev pub Offers : (Best → Type 0) → State → (now : ℕ) → ℕ × Pending → Type 0
  Offers Good state now (id, q) =
      (at : ℕ)
      → (fit_of fl p classifier state now q).impossible ≡ false
      → (fit_of fl p classifier state now q).at ≡ some at
      → at ≤ now
      → Good (ranked fl p classifier state now id q)

  consider-Sane :
      (Good : Best → Type 0) (ready : Bool) (state : State) (now : ℕ) (q : ℕ × Pending) (s : Scan)
      → Offers Good state now q
      → Sane Good now s
      → Sane Good now (consider fl p classifier ready state now q s)
  unfolding consider dismiss
  consider-Sane Good ready state now (id, q) s h sane = elim (Bool-cases q.closed) [
    | inl gone ↦ rw (consider, gone) (record { later = sane.later; good = sane.good })
    | inr open_ ↦
        rw (consider, open_)
          (place-Sane Good ready now (ranked fl p classifier state now id q)
            (fit_of fl p classifier state now q) s h sane)
  ]

  pub scan-Sane :
      (Good : Best → Type 0) (ready : Bool) (state : State) (now : ℕ) (qs : List (ℕ × Pending))
      (s : Scan)
      → All (Offers Good state now) qs
      → Sane Good now s
      → Sane Good now (scan fl p classifier ready state now qs s)
  unfolding scan
  scan-Sane Good ready state now [] s h sane = sane
  scan-Sane Good ready state now (q ∷ qs) s h sane =
      scan-Sane Good ready state now qs (consider fl p classifier ready state now q s) h.1
        (consider-Sane Good ready state now q s h.0 sane)

  -- The three ends of `dispatch_ready`.
  pub conclude-none :
      (ready : Bool) (now : ℕ) (s : Scan) (left : State)
      → s.best ≡ none
      → conclude fl p classifier ready now s left ≡ no_choice fl p classifier ready s.next_due left
  unfolding conclude
  conclude-none ready now s left e = rw (conclude, e) refl

  pub conclude-gone :
      (ready : Bool) (now : ℕ) (s : Scan) (left : State) (b : Best)
      → s.best ≡ some b
      → find_key b.id left.pending ≡ none
      → conclude fl p classifier ready now s left ≡ (some now, left)
  unfolding conclude
  conclude-gone ready now s left b e f = rw (conclude, e, f) refl

  pub conclude-chosen :
      (ready : Bool) (now : ℕ) (s : Scan) (left : State) (b : Best) (q : Pending)
      → s.best ≡ some b
      → find_key b.id left.pending ≡ some q
      → conclude fl p classifier ready now s left ≡ choose fl p classifier left now b.id q
  unfolding conclude
  conclude-chosen ready now s left b q e f = rw (conclude, e, f) refl
