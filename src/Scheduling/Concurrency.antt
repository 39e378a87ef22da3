-- ===== src/Scheduling/Concurrency.antt =====
-- src/scheduling.rs: no dispatch exceeds a limit on the requests in flight.
use kaiion.Prelude.{
  ℕ, ◌≤◌, ◌<◌, ◌≡◌, refl, ap, inl, inr, String, Bool, true, false, not, ◌&&◌, ◌||◌, Option, none,
  some, List, [], ◌∷◌, leb, str_eq, str_eq_iff, Bool-cases, All, and→both, is_none_or, is_some_and,
  keep_if, count_if, unwrap_or, arith,
}
use kaiion.Scheduling.Policy.{QuotaLimit}
use kaiion.Scheduling.Types.{ScheduleRequest, ActiveRequest, State}
use kaiion.Scheduling.Quota.{rule_matches, active_matches}
use kaiion.Scheduling.Readiness.{in_flight, is_saturated}
use kaiion.Scheduling.Dispatch.{remove_key, active_of}

-- No limit that concerns a request counts more in flight for it than it allows.
abbrev pub Within : List QuotaLimit → List (ℕ × ActiveRequest) → Type 0
Within limits active =
    (r : ScheduleRequest)
    → All
        (λ l.
          rule_matches l r ≡ true
          → (cap : ℕ) → l.max_concurrency ≡ some cap
          → count_if (λ (x : ℕ × ActiveRequest). active_matches l r x.1) active ≤ cap)
        limits

count_if-keep_if :
    {A : Type 0} (test keep : A → Bool) (xs : List A)
    → count_if test (keep_if keep xs) ≤ count_if test xs
count_if-keep_if test keep [] = omega arith
count_if-keep_if test keep (x ∷ xs) = ground (arith, count_if-keep_if test keep xs)

count_if-same :
    {A : Type 0} (f g : A → Bool) (xs : List A)
    → ((x : A) → f x ≡ g x)
    → count_if f xs ≡ count_if g xs
count_if-same f g [] h = refl
count_if-same f g (x ∷ xs) h = rw (h x, count_if-same f g xs h) refl

pub All-map :
    {A : Type 0} (P Q : A → Type 0) (xs : List A) → ((x : A) → P x → Q x) → All P xs → All Q xs
All-map P Q [] f h = tt
All-map P Q (x ∷ xs) f h = (f x h.0, All-map P Q xs f h.1)

All-both :
    {A : Type 0} (P Q R : A → Type 0) (xs : List A)
    → ((x : A) → P x → Q x → R x)
    → All P xs
    → All Q xs
    → All R xs
All-both P Q R [] f h k = tt
All-both P Q R (x ∷ xs) f h k = (f x h.0 k.0, All-both P Q R xs f h.1 k.1)

-- Releasing requests keeps the limits.
pub Within-keep_if :
    (limits : List QuotaLimit) (keep : ℕ × ActiveRequest → Bool) (active : List (ℕ × ActiveRequest))
    → Within limits active
    → Within limits (keep_if keep active)
Within-keep_if limits keep active h r =
    All-map _ _ limits
      (λ l w e cap c.
        let a = w e cap c in
        let b = count_if-keep_if (λ (x : ℕ × ActiveRequest). active_matches l r x.1) keep active in
        omega arith)
      (h r)

full_one :
    (applies : Bool) (o : Option ℕ) (n cap : ℕ)
    → (applies && is_some_and o (λ c. leb c n)) ≡ false
    → applies ≡ true
    → o ≡ some cap
    → n < cap
full_one false o n cap h e c = cc
full_one true none n cap h e c = cc
full_one true (some d) n cap h e c = let same : d ≡ cap = ap (λ o. unwrap_or o d) c in ground arith

or→both : (a b : Bool) → (a || b) ≡ false → (a ≡ false) × (b ≡ false)
or→both true b h = cc
or→both false b h = (refl, h)

-- The loop over the concurrency limits reads each of them.
is_saturated-All :
    (ls : List QuotaLimit) (state : State) (r : ScheduleRequest)
    → is_saturated ls state r ≡ false
    → All
        (λ l.
          rule_matches l r ≡ true
          → (cap : ℕ) → l.max_concurrency ≡ some cap
          → in_flight l r state < cap)
        ls
unfolding is_saturated
is_saturated-All [] state r h = tt
is_saturated-All (l ∷ ls) state r h =
    let (first, others) =
      or→both (rule_matches l r && is_some_and l.max_concurrency (λ c. leb c (in_flight l r state)))
        (is_saturated ls state r) h in
    (
      (λ e cap c.
          full_one (rule_matches l r) l.max_concurrency (in_flight l r state) cap first e c),
      is_saturated-All ls state r others,
    )

-- What it means that a limit counts a request that is in flight.
record Counts (l : QuotaLimit) (r s : ScheduleRequest) : Type 0 where
  provider : r.provider ≡ s.provider
  scope : (not l.auth_scoped || str_eq r.auth_scope s.auth_scope) ≡ true
  model : is_none_or l.model (λ m. str_eq m r.model) ≡ true

active_matches-Counts :
    (l : QuotaLimit) (r s : ScheduleRequest)
    → active_matches l s (active_of r) ≡ true
    → Counts l r s
unfolding active_matches
active_matches-Counts l r s h =
    let (p, rest) =
      and→both (str_eq r.provider s.provider)
        ((not l.auth_scoped || str_eq r.auth_scope s.auth_scope)
          && is_none_or l.model (λ m. str_eq m r.model))
        h in
    let (a, m) =
      and→both (not l.auth_scoped || str_eq r.auth_scope s.auth_scope)
        (is_none_or l.model (λ m. str_eq m r.model)) rest in
    record { provider = (str_eq_iff r.provider s.provider).0 p; scope = a; model = m }

-- A limit that counts a request for another concerns both, and counts the same for both.
Counts-rule :
    (l : QuotaLimit) (r s : ScheduleRequest)
    → Counts l r s
    → rule_matches l s ≡ true
    → rule_matches l r ≡ true
unfolding rule_matches
Counts-rule l r s c h =
    let (p, m) =
      and→both (is_none_or l.provider (λ p. str_eq p s.provider))
        (is_none_or l.model (λ m. str_eq m s.model)) h in
    rw (c.provider, p, c.model) refl

same_scope :
    (scoped : Bool) (x y z : String)
    → (not scoped || str_eq y z) ≡ true
    → (not scoped || str_eq x z) ≡ (not scoped || str_eq x y)
same_scope false x y z h = refl
same_scope true x y z h = rw ((str_eq_iff y z).0 h) refl

Counts-same :
    (l : QuotaLimit) (r s : ScheduleRequest) (a : ActiveRequest)
    → Counts l r s
    → active_matches l s a ≡ active_matches l r a
unfolding active_matches
Counts-same l r s a c = rw c.provider (
    ap (λ b. str_eq a.provider s.provider && (b && is_none_or l.model (λ m. str_eq m a.model)))
      (same_scope l.auth_scoped a.auth_scope r.auth_scope s.auth_scope c.scope))

-- A request that finds no concurrency limit used up may go.
pub Within-start :
    (limits : List QuotaLimit) (state : State) (r : ScheduleRequest) (id : ℕ)
    → Within limits state.active
    → is_saturated limits state r ≡ false
    → Within limits ((id, active_of r) ∷ remove_key id state.active)
unfolding remove_key
Within-start limits state r id h room s =
    All-both _ _ _ limits one (h s) (is_saturated-All limits state r room)
  where
    others : List (ℕ × ActiveRequest)
    others = remove_key id state.active

    rest :
        (l : QuotaLimit)
        → count_if (λ (x : ℕ × ActiveRequest). active_matches l s x.1) others ≤ in_flight l s state
    rest l = count_if-keep_if (λ (x : ℕ × ActiveRequest). active_matches l s x.1) _ state.active

    one :
        (l : QuotaLimit)
        → (rule_matches l s ≡ true
            → (cap : ℕ) → l.max_concurrency ≡ some cap
            → in_flight l s state ≤ cap)
        → (rule_matches l r ≡ true
            → (cap : ℕ) → l.max_concurrency ≡ some cap
            → in_flight l r state < cap)
        → rule_matches l s ≡ true
        → (cap : ℕ) → l.max_concurrency ≡ some cap
        → count_if (λ (x : ℕ × ActiveRequest). active_matches l s x.1) ((id, active_of r) ∷ others)
          ≤ cap
    one l within free e cap c = elim (Bool-cases (active_matches l s (active_of r))) [
      | inl counted ↦
          let k = active_matches-Counts l r s counted in
          let a = free (Counts-rule l r s k e) cap c in
          let b = rest l in
          let same =
            count_if-same (λ (x : ℕ × ActiveRequest). active_matches l s x.1)
              (λ (x : ℕ × ActiveRequest). active_matches l r x.1) state.active
              (λ x. Counts-same l r s x.1 k) in
          rw counted (omega arith)
      | inr free_of ↦ let a = within e cap c in let b = rest l in rw free_of (omega arith)
    ]
