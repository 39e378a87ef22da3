-- ===== src/Proxy/Retry/Runs.antt =====
-- src/proxy.rs: `scheduled_direct_response` settles every permit that it is granted, and stops
-- retrying.
use kaiion.Prelude.{
  ℕ, suc, ◌+◌, ◌-◌, ◌≤◌, ◌<◌, ◌≡◌, refl, subst, String, Bool, true, false, ltb, ltb→lt, Option,
  none, some, List, [], ◌∷◌, Result, is_some, inl, inr, Result-cases, arith, length,
}
use kaiion.Errors.{ProxyError}
use kaiion.Proxy.Retry.{
  Script, ScheduledDirect, PermitAction, Next, again, done, Setting, retry_round, Run, follow,
  retry_loop, after_preview, scheduled_direct_response,
}
use kaiion.Proxy.Retry.Permits.{
  Replays, sends, Replays-append, sends-append, Tidy, retry_round-Tidy,
}

-- What the loop guarantees with so many rounds to come.
record Good (left : ℕ) (r : List PermitAction × Option (Result ProxyError ScheduledDirect))
    : Type 0 where
  settles : Replays r.0 [] []
  bounded : sends r.0 ≤ left

module _ (s : Setting) (allow : Bool) where
  follow-Good :
      (attempt : ℕ) (r : List PermitAction × Next) (rest : Option ℕ → Run s allow)
      → attempt ≤ s.max_retries
      → Tidy (ltb attempt s.max_retries) [] r
      → ((d : Option ℕ)
          → suc attempt ≤ s.max_retries
          → Good (s.max_retries + 1 - suc attempt) (rest d))
      → Good (s.max_retries + 1 - attempt) (follow s allow r rest)
  unfolding follow
  follow-Good attempt (actions, done result) rest h t k = record {
    settles = t.settles;
    bounded = omega (arith, t.sends_once, h);
  }
  follow-Good attempt (actions, again delay) rest h t k =
      let more : suc attempt ≤ s.max_retries = ltb→lt attempt s.max_retries t.goes_on in
      let later = k delay more in
      record {
        settles = Replays-append actions _ [] [] [] t.settles later.settles;
        bounded =
            omega (arith, t.sends_once, later.bounded, more, sends-append actions (rest delay).0);
      }

  retry_loop-Good :
      (script : List Script) (attempt : ℕ) (delay : Option ℕ)
      → attempt ≤ s.max_retries
      → Good (s.max_retries + 1 - attempt) (retry_loop s allow attempt delay script)
  unfolding retry_loop
  retry_loop-Good [] attempt delay h = record { settles = refl; bounded = omega arith }
  retry_loop-Good (a ∷ rest) attempt delay h =
      follow-Good attempt (retry_round s allow attempt delay a) _ h
        (retry_round-Tidy s allow attempt delay a)
        (λ d more. retry_loop-Good rest (suc attempt) d more)

  follow-ends :
      (attempt : ℕ) (r : List PermitAction × Next) (rest : Option ℕ → Run s allow)
      → Tidy (ltb attempt s.max_retries) [] r
      → ((d : Option ℕ) → suc attempt ≤ s.max_retries → is_some (rest d).1 ≡ true)
      → is_some (follow s allow r rest).1 ≡ true
  unfolding follow
  follow-ends attempt (actions, done result) rest t k = refl
  follow-ends attempt (actions, again delay) rest t k =
      k delay (ltb→lt attempt s.max_retries t.goes_on)

  retry_loop-ends :
      (script : List Script) (attempt : ℕ) (delay : Option ℕ)
      → attempt ≤ s.max_retries
      → s.max_retries < attempt + length script
      → is_some (retry_loop s allow attempt delay script).1 ≡ true
  unfolding retry_loop
  retry_loop-ends [] attempt delay h k = ground (arith, h, k)
  retry_loop-ends (a ∷ rest) attempt delay h k =
      follow-ends attempt (retry_round s allow attempt delay a) _
        (retry_round-Tidy s allow attempt delay a)
        (λ d more. retry_loop-ends rest (suc attempt) d more (omega (arith, k)))

module _ (s : Setting) where
  whole-Good :
      (allow : Bool) (script : List Script)
      → Good (s.max_retries + 1) (retry_loop s allow 0 none script)
  whole-Good allow script =
      subst (λ n. Good n (retry_loop s allow 0 none script)) (omega arith)
        (retry_loop-Good s allow script 0 none (omega arith))

  whole-ends :
      (allow : Bool) (script : List Script)
      → s.max_retries < length script
      → is_some (retry_loop s allow 0 none script).1 ≡ true
  whole-ends allow script h = retry_loop-ends s allow script 0 none (omega arith) (omega (arith, h))

  after_preview-Good :
      (allow : Bool) (preview : Option String) (script : List Script)
      → Good (s.max_retries + 1) (after_preview s allow preview script)
  unfolding after_preview
  after_preview-Good allow none script = whole-Good allow script
  after_preview-Good true (some reason) script = record { settles = refl; bounded = omega arith }
  after_preview-Good false (some reason) script = whole-Good false script

  after_preview-ends :
      (allow : Bool) (preview : Option String) (script : List Script)
      → s.max_retries < length script
      → is_some (after_preview s allow preview script).1 ≡ true
  unfolding after_preview
  after_preview-ends allow none script h = whole-ends allow script h
  after_preview-ends true (some reason) script h = refl
  after_preview-ends false (some reason) script h = whole-ends false script h

-- Whatever the scheduler, the provider and the clock answer, the permits that a scheduled request is
-- granted are all settled when it ends, each once and while it is in hand; a request is sent only
-- with a permit in hand, and at most once more than there are retries.
pub scheduled_direct_response-Replays :
    (s : Setting) (preview : Option String) (script : List Script)
    → Replays (scheduled_direct_response s preview script).0 [] []
      × (sends (scheduled_direct_response s preview script).0 ≤ s.max_retries + 1)
unfolding scheduled_direct_response
scheduled_direct_response-Replays s preview script = elim (Result-cases (s.make_request 0 none)) [
  | inl (first, e) ↦
      let good = after_preview-Good s first.allow_batch_fallback preview script in
      rw (e, scheduled_direct_response) (good.settles, good.bounded)
  | inr (x, e) ↦ rw (e, scheduled_direct_response) (refl, omega arith)
]

-- A scheduled request has its result after at most one round more than there are retries.
pub scheduled_direct_response-ends :
    (s : Setting) (preview : Option String) (script : List Script)
    → s.max_retries < length script
    → is_some (scheduled_direct_response s preview script).1 ≡ true
unfolding scheduled_direct_response
scheduled_direct_response-ends s preview script h = elim (Result-cases (s.make_request 0 none)) [
  | inl (first, e) ↦
      rw (e, scheduled_direct_response)
        (after_preview-ends s first.allow_batch_fallback preview script h)
  | inr (x, e) ↦ rw (e, scheduled_direct_response) refl
]
