-- ===== src/Scheduling/Windows.antt =====
-- `rolling_fit` of src/scheduling.rs: what the slots of a window add up to at a time, and sorting them.
use kaiion.Prelude.{
  ℕ, suc, ◌+◌, Bool, true, false, ◌&&◌, ◌≡◌, refl, ◌≤◌, ◌<◌, inl, inr, Option, none, some, List, [],
  ◌∷◌, arith, ltb, leb, if◌then◌else◌, Bool-cases, All, is_none_or,
}
use kaiion.Scheduling.Policy.{QuotaLimit}
use kaiion.Scheduling.Types.{u64_mod, saturating_add}
use kaiion.Scheduling.Quota.{Slot, Usage, insert_slot, sort_slots, sum_slots, request_cap, cap_fit}

-- What the slots still in the window at a time add up to, with no bound.
unfoldable pub usage_at : (time : ℕ) → List Slot → Usage
usage_at time [] = record { reqs = 0; input = 0; output = 0 }
usage_at time (s ∷ ss) =
    let u = usage_at time ss in
    if ltb time s.expires_at
    then record { reqs = suc u.reqs; input = s.input + u.input; output = s.output + u.output }
    else u

-- All of the slots.
unfoldable pub total : List Slot → Usage
total [] = record { reqs = 0; input = 0; output = 0 }
total (s ∷ ss) =
    let u = total ss in
    record { reqs = suc u.reqs; input = s.input + u.input; output = s.output + u.output }

pub record Covers (u v : Usage) : Type 0 where
  pub reqs : u.reqs ≤ v.reqs
  pub input : u.input ≤ v.input
  pub output : u.output ≤ v.output

within_mono :
    (cap : Option ℕ) (a b : ℕ)
    → a ≤ b
    → is_none_or cap (λ c. leb b c) ≡ true
    → is_none_or cap (λ c. leb a c) ≡ true
within_mono none a b h k = refl
within_mono (some c) a b h k = ground arith

pub and_mono :
    (a b c d : Bool)
    → (a ≡ true → c ≡ true)
    → (b ≡ true → d ≡ true)
    → (a && b) ≡ true
    → (c && d) ≡ true
and_mono true true c d f g h = rw (f refl, g refl)
and_mono true false c d f g h = cc
and_mono false b c d f g h = cc

saturating_add_mono : (a b c d : ℕ) → a ≤ c → b ≤ d → saturating_add a b ≤ saturating_add c d
saturating_add_mono a b c d h k = omega arith

-- More usage never makes room.
pub cap_fit_mono :
    (l : QuotaLimit) (i o : ℕ) (u v : Usage)
    → Covers u v
    → cap_fit l i o v ≡ true
    → cap_fit l i o u ≡ true
unfolding cap_fit
cap_fit_mono l i o u v h =
    and_mono _ _ _ _
      (within_mono (request_cap l) _ _ (saturating_add_mono u.reqs 1 v.reqs 1 h.reqs (omega arith)))
      (and_mono _ _ _ _
        (within_mono l.max_input_tokens _ _
          (saturating_add_mono u.input i v.input i h.input (omega arith)))
        (and_mono _ _ _ _
          (within_mono l.max_output_tokens _ _
            (saturating_add_mono u.output o v.output o h.output (omega arith)))
          (within_mono l.max_total_tokens _ _ (
            saturating_add_mono _ (saturating_add i o) _ (saturating_add i o)
              (saturating_add_mono u.input u.output v.input v.output h.input h.output)
              (omega arith)))))

pub usage_at-total : (time : ℕ) (ss : List Slot) → Covers (usage_at time ss) (total ss)
unfolding usage_at total
usage_at-total time [] = omega arith
usage_at-total time (s ∷ ss) = ground (arith, usage_at-total time ss)

-- Every slot expires no sooner than this.
abbrev pub After : ℕ → List Slot → Type 0
After t = All (λ s. t ≤ s.expires_at)

-- In the order of their expiry.
abbrev pub Ordered : List Slot → Type 0
Ordered [] = Unit
Ordered (s ∷ ss) = After s.expires_at ss × Ordered ss

-- Before the first expiry nothing has left the window.
pub usage_at-After : (time : ℕ) (ss : List Slot) → After (suc time) ss → usage_at time ss ≡ total ss
unfolding usage_at total
usage_at-After time [] h = refl
usage_at-After time (s ∷ ss) h = ground (arith, usage_at-After time ss h.1)

pub After-mono : (t u : ℕ) (ss : List Slot) → u ≤ t → After t ss → After u ss
After-mono t u [] h k = tt
After-mono t u (s ∷ ss) h k = (omega arith, After-mono t u ss h k.1)

-- Sorting keeps what is in the window at each time, and the bounds on the expiries.
usage_at-insert :
    (u : ℕ) (s : Slot) (ss : List Slot) → usage_at u (insert_slot s ss) ≡ usage_at u (s ∷ ss)
unfolding usage_at insert_slot
usage_at-insert u s [] = refl
usage_at-insert u s (t ∷ ts) = ground (arith, usage_at-insert u s ts)

pub usage_at-sort : (u : ℕ) (ss : List Slot) → usage_at u (sort_slots ss) ≡ usage_at u ss
unfolding sort_slots usage_at
usage_at-sort u [] = refl
usage_at-sort u (s ∷ ss) = ground (arith, usage_at-insert u s (sort_slots ss), usage_at-sort u ss)

insert_slot-After :
    (t : ℕ) (s : Slot) (ss : List Slot) → t ≤ s.expires_at → After t ss → After t (insert_slot s ss)
unfolding insert_slot
insert_slot-After t s [] h k = (h, tt)
insert_slot-After t s (x ∷ xs) h k = ground (arith, insert_slot-After t s xs h k.1)

insert_slot-Ordered : (s : Slot) (ss : List Slot) → Ordered ss → Ordered (insert_slot s ss)
unfolding insert_slot
insert_slot-Ordered s [] o = (tt, tt)
insert_slot-Ordered s (x ∷ xs) o = elim (Bool-cases (leb s.expires_at x.expires_at)) [
  | inl h ↦
      let le : s.expires_at ≤ x.expires_at = ground arith in
      rw h ((le, After-mono x.expires_at s.expires_at xs le o.0), o)
  | inr h ↦
      rw h (insert_slot-After x.expires_at s xs (ground arith) o.0, insert_slot-Ordered s xs o.1)
]

pub sort_slots-Ordered : (ss : List Slot) → Ordered (sort_slots ss)
unfolding sort_slots
sort_slots-Ordered [] = tt
sort_slots-Ordered (s ∷ ss) = insert_slot-Ordered s (sort_slots ss) (sort_slots-Ordered ss)

pub sort_slots-After : (t : ℕ) (ss : List Slot) → After t ss → After t (sort_slots ss)
unfolding sort_slots
sort_slots-After t [] h = tt
sort_slots-After t (s ∷ ss) h =
    insert_slot-After t s (sort_slots ss) h.0 (sort_slots-After t ss h.1)

-- No sum reaches 2 ^ 64, so none wraps.
pub sum_slots-total :
    (ss : List Slot)
    → (total ss).reqs < u64_mod
    → (total ss).input < u64_mod
    → (total ss).output < u64_mod
    → sum_slots ss ≡ total ss
unfolding sum_slots total
sum_slots-total [] a b c = refl
sum_slots-total (s ∷ ss) a b c = ground (arith, sum_slots-total ss)

total-insert : (s : Slot) (ss : List Slot) → total (insert_slot s ss) ≡ total (s ∷ ss)
unfolding total insert_slot
total-insert s [] = refl
total-insert s (t ∷ ts) = ground (arith, total-insert s ts)

pub total-sort : (ss : List Slot) → total (sort_slots ss) ≡ total ss
unfolding total sort_slots
total-sort [] = refl
total-sort (s ∷ ss) = ground (arith, total-insert s (sort_slots ss), total-sort ss)
