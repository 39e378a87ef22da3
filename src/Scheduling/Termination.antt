-- ===== src/Scheduling/Termination.antt =====
-- src/scheduling.rs: the loop of `dispatch_available` ends.
use kaiion.Prelude.{
  ℕ, zero, suc, ◌≤◌, ◌<◌, ◌≡◌, refl, sym, ap, ◌∙◌, ◌⊎◌, inl, inr, Bool, true, false, not, Option,
  none, some, List, [], ◌∷◌, ltb, leb, ◌==◌, if◌then◌else◌, leb→le, Bool-cases, Option-cases, All,
  is_some, filter_option, keep_if, length, arith,
}
use kaiion.Scheduling.Policy.{SchedulingPolicy}
use kaiion.Scheduling.Types.{ScheduleRequest, Pending, State, Complexity}
use kaiion.Scheduling.Pacing.{Floats, update_pacing}
use kaiion.Scheduling.Choice.{
  Sane, Offers, scan-Sane, conclude-none, conclude-gone, conclude-chosen,
}
use kaiion.Scheduling.Dispatch.{
  find_key, remove_key, remove_pending, turn_away, Best, Scan, ranked, reject_pending, reject_all,
  grant, look_again, choose, no_choice, conclude, scanned, is_queue_ready, dispatch_ready,
  dispatch_available,
}

keep_if-le : {A : Type 0} (test : A → Bool) (xs : List A) → length (keep_if test xs) ≤ length xs
keep_if-le test [] = omega arith
keep_if-le test (x ∷ xs) = ground (arith, keep_if-le test xs)

-- Removing a key that is there makes the list shorter.
length-remove_key :
    {A : Type 0} (id : ℕ) (entries : List (ℕ × A)) (a : A)
    → find_key id entries ≡ some a
    → length (remove_key id entries) < length entries
unfolding find_key remove_key
length-remove_key id [] a h = cc
length-remove_key {A} id ((j, b) ∷ rest) a h = by_key (j == id) (length-remove_key id rest a) h
  where
    by_key :
        (same : Bool)
        → (find_key id rest ≡ some a → length (remove_key id rest) < length rest)
        → (if same then some b else find_key id rest) ≡ some a
        → length (if not same then (j, b) ∷ remove_key id rest else remove_key id rest)
          < suc (length rest)
    by_key true ih k = let le = keep_if-le (λ (x : ℕ × A). not (x.0 == id)) rest in omega arith
    by_key false ih k = let lt = ih k in omega arith

-- The queue stays as it was, or gets shorter.
abbrev Shrinks : State → State → Type 0
Shrinks before after =
    (after.pending ≡ before.pending) ⊎ (length after.pending < length before.pending)

Shrinks-trans : (a b c : State) → Shrinks a b → Shrinks b c → Shrinks a c
Shrinks-trans a b c (inl h) (inl k) = inl (k ∙ h)
Shrinks-trans a b c (inl h) (inr k) = inr (rw (sym h) k)
Shrinks-trans a b c (inr h) (inl k) = inr (rw k h)
Shrinks-trans a b c (inr h) (inr k) = inr (omega arith)

remove_pending-shorter :
    (id : ℕ) (state : State) (q : Pending)
    → find_key id state.pending ≡ some q
    → length (remove_pending id state).pending < length state.pending
unfolding remove_pending
remove_pending-shorter id state q h = rw (length, h) (length-remove_key id state.pending q h)

remove_pending-missing :
    (id : ℕ) (state : State)
    → find_key id state.pending ≡ none
    → (remove_pending id state).pending ≡ state.pending
unfolding remove_pending
remove_pending-missing id state h = rw (remove_pending, h) refl

remove_pending-Shrinks : (id : ℕ) (state : State) → Shrinks state (remove_pending id state)
remove_pending-Shrinks id state = elim (Option-cases (find_key id state.pending)) [
  | inl h ↦ inl (remove_pending-missing id state h)
  | inr (q, h) ↦ inr (remove_pending-shorter id state q h)
]

module _ (fl : Floats) (p : SchedulingPolicy) (classifier : ScheduleRequest → Complexity) where
  turn_away-pending :
      (id : ℕ) (q : Pending) (rest : State) (now : ℕ)
      → (turn_away fl p classifier id q rest now).pending ≡ rest.pending
  unfolding turn_away
  turn_away-pending id q rest now = ground arith

  reject_pending-Shrinks :
      (state : State) (now id : ℕ) → Shrinks state (reject_pending fl p classifier state now id)
  unfolding reject_pending
  reject_pending-Shrinks state now id = elim (Option-cases (find_key id state.pending)) [
    | inl h ↦ rw (reject_pending, h) (inl refl)
    | inr (q, h) ↦
        rw (reject_pending, h)
          (Shrinks-trans state (remove_pending id state)
            (turn_away fl p classifier id q (remove_pending id state) now)
            (remove_pending-Shrinks id state)
            (inl (turn_away-pending id q (remove_pending id state) now)))
  ]

  reject_all-Shrinks :
      (state : State) (now : ℕ) (ids : List ℕ)
      → Shrinks state (reject_all fl p classifier state now ids)
  unfolding reject_all
  reject_all-Shrinks state now [] = inl refl
  reject_all-Shrinks state now (id ∷ ids) =
      Shrinks-trans state (reject_pending fl p classifier state now id)
        (reject_all fl p classifier (reject_pending fl p classifier state now id) now ids)
        (reject_pending-Shrinks state now id)
        (reject_all-Shrinks (reject_pending fl p classifier state now id) now ids)

  grant-pending :
      (state : State) (now id : ℕ) (q : Pending)
      → (grant fl p classifier state now id q).pending ≡ state.pending
  unfolding grant update_pacing
  grant-pending state now id q = ground arith

  look_again-pending :
      (rest : State) (now : ℕ) → (look_again fl p classifier rest now).1.pending ≡ rest.pending
  unfolding look_again
  look_again-pending rest now = ground arith

  choose-shorter :
      (left : State) (now id : ℕ) (q : Pending)
      → find_key id left.pending ≡ some q
      → length (choose fl p classifier left now id q).1.pending < length left.pending
  unfolding choose grant
  choose-shorter left now id q h =
      let shorter = remove_pending-shorter id left q h in
      let same = grant-pending (remove_pending id left) now id q in
      elim (Bool-cases q.closed) [
        | inl gone ↦ rw (choose, gone, look_again-pending (remove_pending id left) now) shorter
        | inr open_ ↦ rw (choose, open_, same) shorter
      ]

  no_choice-later :
      (ready : Bool) (due : Option ℕ) (left : State) (now at : ℕ)
      → ((x : ℕ) → due ≡ some x → now < x)
      → (no_choice fl p classifier ready due left).0 ≡ some at
      → now < at
  unfolding no_choice
  no_choice-later ready due left now at later h = ground (arith, later at)

  -- The chosen id waits in the queue.
  abbrev Waits : State → Best → Type 0
  Waits state b = (q : Pending) × (find_key b.id state.pending ≡ some q)

  -- What a call that looks again at once has done to the queue.
  abbrev Progress : State → (now : ℕ) → Option ℕ × State → Type 0
  Progress state now r =
      (at : ℕ) → r.0 ≡ some at → at ≤ now → length r.1.pending < length state.pending

  conclude-Progress :
      (ready : Bool) (now : ℕ) (s : Scan) (state left : State)
      → Sane (Waits state) now s
      → Shrinks state left
      → Progress state now (conclude fl p classifier ready now s left)
  conclude-Progress ready now s state left sane shrinks = elim (Option-cases s.best) [
    | inl e ↦ rw (conclude-none fl p classifier ready now s left e) (λ at h due.
        let k = no_choice-later ready s.next_due left now at sane.later h in omega arith)
    | inr (b, e) ↦ elim (Option-cases (find_key b.id left.pending)) [
      | inl f ↦
          rw (conclude-gone fl p classifier ready now s left b e f)
            (λ at h due. gone b f (sane.good b e) shrinks)
      | inr (q, f) ↦ rw (conclude-chosen fl p classifier ready now s left b q e f) (λ at h due.
          let k = choose-shorter left now b.id q f in let m = le shrinks in omega arith)
    ]
  ]
    where
      gone :
          (b : Best)
          → find_key b.id left.pending ≡ none
          → Waits state b
          → Shrinks state left
          → length left.pending < length state.pending
      gone b f (q, w) (inl same) =
          let absurd_path : some q ≡ none = sym w ∙ ap (λ l. find_key b.id l) (sym same) ∙ f in cc
      gone b f w (inr shorter) = shorter

      le : Shrinks state left → length left.pending ≤ length state.pending
      le (inl same) = rw same (omega arith)
      le (inr shorter) = omega arith

  -- Every entry's key is found.
  keys_wait :
      (state : State) (now : ℕ) (qs : List (ℕ × Pending))
      → ((id : ℕ) → is_some (find_key id qs) ≡ true → is_some (find_key id state.pending) ≡ true)
      → All (Offers fl p classifier (Waits state) state now) qs
  unfolding find_key
  keys_wait state now [] h = tt
  keys_wait state now ((id, q) ∷ qs) h = (
    λ at _ _ _. waiting (h id (here id q)),
    keys_wait state now qs (λ k found. h k (there k found)),
  )
    where
      waiting :
          is_some (find_key id state.pending) ≡ true
          → Waits state (ranked fl p classifier state now id q)
      waiting w = elim (Option-cases (find_key id state.pending)) [
        | inl e ↦ let bad : false ≡ true = ap (λ o. is_some o) (sym e) ∙ w in cc
        | inr found ↦ found
      ]

      here : (k : ℕ) (r : Pending) → is_some (if k == k then some r else find_key k qs) ≡ true
      here k r = ground arith

      there :
          (k : ℕ)
          → is_some (find_key k qs) ≡ true
          → is_some (if id == k then some q else find_key k qs) ≡ true
      there k found = ground arith

  -- A call of `dispatch_ready` that asks to be repeated at once has shortened the queue.
  dispatch_ready-Progress :
      (state : State) (now : ℕ) → Progress state now (dispatch_ready fl p classifier state now)
  unfolding dispatch_ready scanned
  dispatch_ready-Progress state now =
      conclude-Progress ready now s state (reject_all fl p classifier state now s.impossible)
        (scan-Sane fl p classifier (Waits state) ready state now state.pending _
          (keys_wait state now state.pending (λ id h. h))
          (record { later = future state.coalesce_until; good = λ b h. cc }))
        (reject_all-Shrinks state now s.impossible)
    where
      ready : Bool
      ready = is_queue_ready fl p classifier state now

      s : Scan
      s = scanned fl p classifier ready state now

      future : (o : Option ℕ) (at : ℕ) → filter_option (λ x. ltb now x) o ≡ some at → now < at
      future none at h = cc
      future (some x) at h = ground arith

  -- The loop of `dispatch_available` ends: with more fuel than there are waiting requests, it has a
  -- result.
  pub dispatch_available-ends :
      (fuel : ℕ) (state : State) (now : ℕ)
      → length state.pending < fuel
      → (final : State) × (dispatch_available fl p classifier fuel state now ≡ some final)
  unfolding dispatch_available
  dispatch_available-ends zero state now h = let bad : 0 ≡ suc 0 = omega arith in cc
  dispatch_available-ends (suc fuel) state now h = elim (Option-cases due) [
    | inl e ↦ (next, rw e refl)
    | inr (at, e) ↦ elim (Bool-cases (leb at now)) [
      | inl again ↦
          let k = dispatch_ready-Progress state now at e (leb→le at now again) in
          let (final, g) = dispatch_available-ends fuel next now (omega arith) in
          (final, rw (e, again) g)
      | inr later ↦ (next, rw (e, later) refl)
    ]
  ]
    where
      due : Option ℕ
      due = (dispatch_ready fl p classifier state now).0

      next : State
      next = (dispatch_ready fl p classifier state now).1
