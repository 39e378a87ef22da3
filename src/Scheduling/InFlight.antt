-- ===== src/Scheduling/InFlight.antt =====
-- src/scheduling.rs: `dispatch_ready` and `dispatch_available` keep every limit on the requests in
-- flight.
use kaiion.Prelude.{
  ◌⊎◌, ◌||◌, ℕ, zero, suc, ◌≡◌, refl, sym, ap, ◌∙◌, subst, ◌<◌, inl, inr, Bool, true, false, not,
  Option, none, some, List, [], ◌∷◌, ◌==◌, if◌then◌else◌, Bool-cases, Option-cases, All,
  is_some_and, leb, unwrap_or, filter_option, ltb, arith,
}
use kaiion.Scheduling.Policy.{QuotaLimit, SchedulingPolicy}
use kaiion.Scheduling.Types.{ScheduleRequest, ActiveRequest, Pending, State, Complexity}
use kaiion.Scheduling.Readiness.{is_saturated}
use kaiion.Scheduling.Pacing.{Floats, update_pacing}
use kaiion.Scheduling.Dispatch.{
  find_key, remove_key, remove_pending, refusal, turn_away, reject_pending, reject_all, active_of,
  grant, look_again, choose, no_choice, conclude, scanned, is_queue_ready, dispatch_ready, Best,
  Scan, dispatch_available,
}
use kaiion.Scheduling.Choice.{
  Sane, Offers, scan-Sane, conclude-none, conclude-gone, conclude-chosen,
}
use kaiion.Scheduling.Room.{readiness-Allows}
use kaiion.Scheduling.Concurrency.{Within, Within-start, Within-keep_if, All-map}

-- Each waiting request is found by its id.
abbrev pub Keyed : List (ℕ × Pending) → Type 0
Keyed pending = All (λ x. find_key x.0 pending ≡ some x.1) pending

-- What is found in the second queue is found in the first.
abbrev pub Fewer : List (ℕ × Pending) → List (ℕ × Pending) → Type 0
Fewer before after = (k : ℕ) (q : Pending) → find_key k after ≡ some q → find_key k before ≡ some q

find_key-removed : (id : ℕ) (qs : List (ℕ × Pending)) → find_key id (remove_key id qs) ≡ none
unfolding find_key remove_key
find_key-removed id [] = refl
find_key-removed id ((j, r) ∷ rest) = ground (arith, find_key-removed id rest)

find_key-other :
    (id k : ℕ) (qs : List (ℕ × Pending))
    → (k == id) ≡ false
    → find_key k (remove_key id qs) ≡ find_key k qs
unfolding find_key remove_key
find_key-other id k [] h = refl
find_key-other id k ((j, r) ∷ rest) h = ground (arith, find_key-other id k rest h)

Fewer-remove_key : (id : ℕ) (qs : List (ℕ × Pending)) → Fewer qs (remove_key id qs)
Fewer-remove_key id qs k q h = elim (Bool-cases (k == id)) [
  | inl same ↦
      let e : k ≡ id = ground arith in
      let bad : none ≡ some q =
        sym (find_key-removed id qs) ∙ subst (λ i. find_key i (remove_key id qs) ≡ some q) e h in
      cc
  | inr other ↦ sym (find_key-other id k qs other) ∙ h
]

Keyed-remove_key :
    (id : ℕ) (qs xs : List (ℕ × Pending))
    → All (λ x. find_key x.0 qs ≡ some x.1) xs
    → All (λ x. find_key x.0 (remove_key id qs) ≡ some x.1) (remove_key id xs)
unfolding remove_key
Keyed-remove_key id qs [] h = tt
Keyed-remove_key id qs ((j, r) ∷ rest) h = elim (Bool-cases (j == id)) [
  | inl removed ↦ rw removed (Keyed-remove_key id qs rest h.1)
  | inr kept ↦ rw kept (find_key-other id j qs kept ∙ h.0, Keyed-remove_key id qs rest h.1)
]

-- A request joins the queue under an id that it does not have yet.
pub Keyed-insert :
    (id : ℕ) (q : Pending) (qs : List (ℕ × Pending)) → Keyed qs → Keyed ((id, q) ∷ remove_key id qs)
unfolding find_key
Keyed-insert id q qs keyed = (
  own,
  All-map _ _ (remove_key id qs) (λ x h. other x h (Bool-cases (id == x.0)))
      (Keyed-remove_key id qs qs keyed),
)
  where
    own : (if id == id then some q else find_key id (remove_key id qs)) ≡ some q
    own = ground arith

    other :
        (x : ℕ × Pending)
        → find_key x.0 (remove_key id qs) ≡ some x.1
        → ((id == x.0) ≡ true) ⊎ ((id == x.0) ≡ false)
        → (if id == x.0 then some q else find_key x.0 (remove_key id qs)) ≡ some x.1
    other x h (inl same) =
        let e : x.0 ≡ id = ground arith in
        let bad : none ≡ some x.1 =
          sym (find_key-removed id qs)
          ∙ subst (λ i. find_key i (remove_key id qs) ≡ some x.1) e h in
        cc
    other x h (inr differs) = rw differs h

-- What the queue's shrinking keeps: the requests in flight, and what is found in the queue.
pub record Keeps (before after : State) : Type 0 where
  pub active : after.active ≡ before.active
  pub fewer : Fewer before.pending after.pending
  pub keyed : Keyed before.pending → Keyed after.pending

pub Keeps-same : (a b : State) → b.active ≡ a.active → b.pending ≡ a.pending → Keeps a b
Keeps-same a b h k = record {
  active = h;
  fewer = λ i q e. ap (λ l. find_key i l) (sym k) ∙ e;
  keyed = λ w. subst Keyed (sym k) w;
}

Keeps-trans : (a b c : State) → Keeps a b → Keeps b c → Keeps a c
Keeps-trans a b c h k = record {
  active = k.active ∙ h.active;
  fewer = λ i q e. h.fewer i q (k.fewer i q e);
  keyed = λ w. k.keyed (h.keyed w);
}

pub remove_pending-Keeps : (id : ℕ) (state : State) → Keeps state (remove_pending id state)
unfolding remove_pending
remove_pending-Keeps id state = elim (Option-cases (find_key id state.pending)) [
  | inl h ↦ rw (remove_pending, h) (Keeps-same state state refl refl)
  | inr (q, h) ↦
      rw (remove_pending, h)
        (record {
          active = refl;
          fewer = Fewer-remove_key id state.pending;
          keyed = Keyed-remove_key id state.pending state.pending;
        })
]

is_saturated-active :
    (ls : List QuotaLimit) (a b : State) (r : ScheduleRequest)
    → b.active ≡ a.active
    → is_saturated ls b r ≡ is_saturated ls a r
unfolding is_saturated
is_saturated-active [] a b r e = refl
is_saturated-active (l ∷ ls) a b r e = rw (is_saturated-active ls a b r e, e) refl

module _ (fl : Floats) (p : SchedulingPolicy) (classifier : ScheduleRequest → Complexity) where
  turn_away-Keeps :
      (id : ℕ) (q : Pending) (rest : State) (now : ℕ)
      → Keeps rest (turn_away fl p classifier id q rest now)
  unfolding turn_away
  turn_away-Keeps id q rest now = elim (Bool-cases (q.closed || q.refuses)) [
    | inl silent ↦ rw (turn_away, silent) (Keeps-same rest rest refl refl)
    | inr told ↦
        rw (turn_away, told)
          (Keeps-same rest
            (record rest { delivered = (id, refusal fl p classifier q rest now) ∷ rest.delivered })
            refl refl)
  ]

  reject_pending-Keeps :
      (state : State) (now id : ℕ) → Keeps state (reject_pending fl p classifier state now id)
  unfolding reject_pending
  reject_pending-Keeps state now id = elim (Option-cases (find_key id state.pending)) [
    | inl h ↦ rw (reject_pending, h) (Keeps-same state state refl refl)
    | inr (q, h) ↦
        rw (reject_pending, h)
          (Keeps-trans state (remove_pending id state)
            (turn_away fl p classifier id q (remove_pending id state) now)
            (remove_pending-Keeps id state) (turn_away-Keeps id q (remove_pending id state) now))
  ]

  reject_all-Keeps :
      (state : State) (now : ℕ) (ids : List ℕ)
      → Keeps state (reject_all fl p classifier state now ids)
  unfolding reject_all
  reject_all-Keeps state now [] = Keeps-same state state refl refl
  reject_all-Keeps state now (id ∷ ids) =
      Keeps-trans state (reject_pending fl p classifier state now id)
        (reject_all fl p classifier (reject_pending fl p classifier state now id) now ids)
        (reject_pending-Keeps state now id)
        (reject_all-Keeps (reject_pending fl p classifier state now id) now ids)

  -- The request that waits under the chosen id finds no concurrency limit used up.
  abbrev HasRoom : State → Best → Type 0
  HasRoom state b =
      (q : Pending)
      → find_key b.id state.pending ≡ some q
      → is_saturated p.limits state q.request ≡ false

  Keyed-Offers :
      (state : State) (now : ℕ)
      → p.enabled ≡ true
      → Keyed state.pending
      → All (Offers fl p classifier (HasRoom state) state now) state.pending
  Keyed-Offers state now enabled keyed =
      All-map _ _ state.pending
        (λ (id, q) here at possible found due r e.
          let same : q ≡ r = ap (λ o. unwrap_or o q) (sym here ∙ e) in
          subst (λ (w : Pending). is_saturated p.limits state w.request ≡ false) same
            (readiness-Allows p state q.request q.input_tokens q.output_tokens now at enabled
              possible found due).1)
        keyed

  grant-Within :
      (state : State) (now id : ℕ) (q : Pending)
      → Within p.limits state.active
      → is_saturated p.limits state q.request ≡ false
      → Within p.limits (grant fl p classifier state now id q).active
  unfolding grant update_pacing
  grant-Within state now id q h room = elim (Bool-cases q.refuses) [
    | inl failed ↦
        rw (grant, failed)
          (Within-keep_if p.limits (λ (x : ℕ × ActiveRequest). not (x.0 == id))
            ((id, active_of q.request) ∷ remove_key id state.active)
            (Within-start p.limits state q.request id h room))
    | inr sent ↦ rw (grant, sent) (Within-start p.limits state q.request id h room)
  ]

  grant-pending :
      (state : State) (now id : ℕ) (q : Pending)
      → (grant fl p classifier state now id q).pending ≡ state.pending
  unfolding grant update_pacing
  grant-pending state now id q = ground arith

  -- The scheduler's state between two steps: the limits hold, and the queue's ids are distinct.
  pub record Sound (state : State) : Type 0 where
    pub within : Within p.limits state.active
    pub keyed : Keyed state.pending

  pub Sound-Keeps : (a b : State) → Keeps a b → Sound a → Sound b
  Sound-Keeps a b k s = record {
    within = subst (Within p.limits) (sym k.active) s.within;
    keyed = k.keyed s.keyed;
  }

  look_again-Keeps : (rest : State) (now : ℕ) → Keeps rest (look_again fl p classifier rest now).1
  unfolding look_again
  look_again-Keeps rest now =
      Keeps-same rest (look_again fl p classifier rest now).1 (ground arith) (ground arith)

  no_choice-Keeps :
      (ready : Bool) (due : Option ℕ) (left : State)
      → Keeps left (no_choice fl p classifier ready due left).1
  unfolding no_choice
  no_choice-Keeps ready due left =
      Keeps-same left (no_choice fl p classifier ready due left).1 (ground arith) (ground arith)

  choose-Sound :
      (left : State) (now id : ℕ) (q : Pending)
      → Sound left
      → is_saturated p.limits left q.request ≡ false
      → Sound (choose fl p classifier left now id q).1
  unfolding choose grant
  choose-Sound left now id q s room = elim (Bool-cases q.closed) [
    | inl gone ↦
        rw (choose, gone)
          (Sound-Keeps rest (look_again fl p classifier rest now).1 (look_again-Keeps rest now)
            kept)
    | inr open_ ↦
        rw (choose, open_)
          (record {
            within =
                grant-Within rest now id q kept.within
                  (room_left (remove_pending-Keeps id left).active);
            keyed = subst Keyed (sym (grant-pending rest now id q)) kept.keyed;
          })
  ]
    where
      rest : State
      rest = remove_pending id left

      kept : Sound rest
      kept = Sound-Keeps left rest (remove_pending-Keeps id left) s

      room_left : rest.active ≡ left.active → is_saturated p.limits rest q.request ≡ false
      room_left e = is_saturated-active p.limits left rest q.request e ∙ room

  conclude-Sound :
      (ready : Bool) (now : ℕ) (s : Scan) (state left : State)
      → Sane (HasRoom state) now s
      → Keeps state left
      → Sound state
      → Sound (conclude fl p classifier ready now s left).1
  conclude-Sound ready now s state left sane k sound = elim (Option-cases s.best) [
    | inl e ↦ rw (conclude-none fl p classifier ready now s left e) (
        Sound-Keeps left (no_choice fl p classifier ready s.next_due left).1
          (no_choice-Keeps ready s.next_due left) kept)
    | inr (b, e) ↦ elim (Option-cases (find_key b.id left.pending)) [
      | inl f ↦ rw (conclude-gone fl p classifier ready now s left b e f) kept
      | inr (q, f) ↦ rw (conclude-chosen fl p classifier ready now s left b q e f) (
          choose-Sound left now b.id q kept (
            is_saturated-active p.limits state left q.request k.active
            ∙ sane.good b e q (k.fewer b.id q f)))
    ]
  ]
    where
      kept : Sound left
      kept = Sound-Keeps state left k sound

  -- In an enabled scheduler whose waiting requests have distinct ids, a call of `dispatch_ready`
  -- keeps each limit's concurrency: for every request that a limit concerns, the limit counts no
  -- more requests in flight than it allows. The ids stay distinct.
  pub dispatch_ready-Sound :
      (state : State) (now : ℕ)
      → p.enabled ≡ true
      → Sound state
      → Sound (dispatch_ready fl p classifier state now).1
  unfolding dispatch_ready scanned
  dispatch_ready-Sound state now enabled sound =
      conclude-Sound ready now s state (reject_all fl p classifier state now s.impossible)
        (scan-Sane fl p classifier (HasRoom state) ready state now state.pending _
          (Keyed-Offers state now enabled sound.keyed)
          (record { later = future state.coalesce_until; good = λ b h. cc }))
        (reject_all-Keeps state now s.impossible) sound
    where
      ready : Bool
      ready = is_queue_ready fl p classifier state now

      s : Scan
      s = scanned fl p classifier ready state now

      future : (o : Option ℕ) (at : ℕ) → filter_option (λ x. ltb now x) o ≡ some at → now < at
      future none at h = cc
      future (some x) at h = ground arith

  pub dispatch_available-Sound :
      (fuel : ℕ) (state : State) (now : ℕ) (final : State)
      → p.enabled ≡ true
      → Sound state
      → dispatch_available fl p classifier fuel state now ≡ some final
      → Sound final
  unfolding dispatch_available
  dispatch_available-Sound zero state now final enabled sound h = cc
  dispatch_available-Sound (suc fuel) state now final enabled sound h =
      repeat (is_some_and due (λ at. leb at now)) (dispatch_ready-Sound state now enabled sound)
        (λ s. dispatch_available-Sound fuel next now final enabled s) h
    where
      due : Option ℕ
      due = (dispatch_ready fl p classifier state now).0

      next : State
      next = (dispatch_ready fl p classifier state now).1

      repeat :
          (again : Bool)
          → Sound next
          → (Sound next
              → dispatch_available fl p classifier fuel next now ≡ some final
              → Sound final)
          → (if again then dispatch_available fl p classifier fuel next now else some next)
            ≡ some final
          → Sound final
      repeat true s rest k = rest s k
      repeat false s rest k = subst Sound (ap (λ o. unwrap_or o next) k) s
