-- ===== src/Driver/Soundness.antt =====
-- What every action of a worker keeps. A job's Batch is asked for at most once, and a finished job
-- is not touched.
use kaiion.Prelude.{
  ℕ, String, false, ◌≡◌, refl, subst, inl, inr, some, List, ◌∷◌, ◌+◌, ◌≤◌, arith, Result, ok, err,
  str_eq, str_eq_iff, Bool-cases, Result-cases, map_err,
}
use kaiion.Domain.{JobState, is_terminal}
use kaiion.Openai.{ProviderError}
use kaiion.Db.Rows.{PersistenceError}
use kaiion.Db.Table.{Row, Database, Engine, find_id}
use kaiion.Db.Transitions.{begin_submission}
use kaiion.Db.Statements.{Unique}
use kaiion.Db.Safety.{budget, under_way, Safe, Safe-refl}
use kaiion.Db.Operations.{begin_submission-Safe, begin_submission-live, begin_submission-spends}
use kaiion.Driver.Output.{DriverError, classify_persistence}
use kaiion.Driver.World.{
  Event, World, Outside, Action, ◌>>=◌, lift, transact, ask, statement, create_batch, creates,
  created,
}

-- Ids are unique, and each job has asked for a Batch at most once, or may still ask once and has
-- not yet.
pub record Once (w : World) : Type 0 where
  pub unique : Unique w.db.jobs
  pub spent : (id : String) → created id w.trace + budget (find_id id w.db.jobs) ≤ 1

-- From one world to another, `Once` is kept and no finished job is rewritten.
pub record Sound (w w' : World) : Type 0 where
  pub once : Once w → Once w'
  pub frozen :
      (j : String) (r : Row)
      → find_id j w.db.jobs ≡ some r
      → under_way r.raw.status ≡ false
      → find_id j w'.db.jobs ≡ some r

pub Sound-refl : (w : World) → Sound w w
Sound-refl w = record { once = λ h. h; frozen = λ j r f h. f }

pub Sound-trans : {a b c : World} → Sound a b → Sound b c → Sound a c
Sound-trans p q = record {
  once = λ h. q.once (p.once h);
  frozen = λ j r f h. q.frozen j r (p.frozen j r f h) h;
}

-- A safe change of the database, with no Batch asked for.
pub Safe-Sound :
    (w w' : World)
    → Safe w.db w'.db
    → ((id : String) → created id w'.trace ≡ created id w.trace)
    → Sound w w'
Safe-Sound w w' h quiet = record {
  once = λ k. record {
    unique = h.unique k.unique;
    spent = λ id. omega (arith, quiet id, h.spends id, k.spent id);
  };
  frozen = h.frozen;
}

-- An event that asks for no Batch.
abbrev pub Quiet : Event → Type 0
Quiet event = (id : String) → creates id event ≡ false

pub log-Sound :
    (event : Event) (w : World) → Quiet event → Sound w (record w { trace = event ∷ w.trace })
log-Sound event w quiet = Safe-Sound w _ (Safe-refl w.db) (λ id. rw (quiet id))

pub transact-Sound :
    (o : Outside) (method : Engine → Database → Result PersistenceError JobState × Database)
    (w : World)
    → ((e : Engine) → Safe w.db (method e w.db).1)
    → Sound w (transact o method w).1
unfolding transact
transact-Sound o method w safe = Safe-Sound w _ (safe (o.engine w.trace)) (λ id. refl)

pub ask-Sound :
    {A : Type 0} (event : Event) (answer : (List Event) → Result ProviderError A) (w : World)
    → Quiet event
    → Sound w (ask event answer w).1
unfolding ask
ask-Sound event answer w quiet = log-Sound event w quiet

module _ {A B : Type 0} where
  pub bind-Sound :
      (m : Action A) (f : A → Action B) (w : World)
      → Sound w (m w).1
      → ((a : A) → (m w).0 ≡ ok a → Sound (m w).1 (f a (m w).1).1)
      → Sound w ((m >>= f) w).1
  unfolding ◌>>=◌
  bind-Sound m f w first then_ = elim (Result-cases (m w).0) [
    | inl (a, done) ↦ rw done (Sound-trans first (then_ a done))
    | inr (e, failed) ↦ rw failed first
  ]

  pub bind_lift-Sound :
      (r : Result DriverError A) (f : A → Action B) (w : World)
      → ((a : A) → Sound w (f a w).1)
      → Sound w ((lift r >>= f) w).1
  unfolding ◌>>=◌
  bind_lift-Sound (ok a) f w next = next a
  bind_lift-Sound (err e) f w next = Sound-refl w

map_err-ok {ℓ} :
    {E F A : Type ℓ} (f : E → F) (r : Result E A) (a : A) → map_err f r ≡ ok a → r ≡ ok a
map_err-ok f (ok b) a h = ground arith
map_err-ok f (err e) a h = cc

spent-create :
    (id j file : String) (tr : List Event) (had left : ℕ)
    → created j tr + had ≤ 1
    → left ≤ had
    → (id ≡ j → (had ≡ 1) × (left ≡ 0))
    → created j (create_batch id file ∷ statement ∷ tr) + left ≤ 1
spent-create id j file tr had left once less here = elim (Bool-cases (str_eq id j)) [
  | inl same ↦ let (one, zero_) = here ((str_eq_iff id j).0 same) in rw same (omega arith)
  | inr other ↦ rw other (omega arith)
]

-- `begin_submission` and then the call of the provider: the one place where a Batch is asked for.
pub begin-create-Sound :
    (o : Outside) (id file : String) (s : JobState) (w : World)
    → (transact o (λ e. begin_submission e o.codec id file) w).0 ≡ ok s
    → let w' = (transact o (λ e. begin_submission e o.codec id file) w).1 in
      Sound w (record w' { trace = create_batch id file ∷ w'.trace }) × (is_terminal s ≡ false)
unfolding transact
begin-create-Sound o id file s w begun =
    let engine = o.engine w.trace in
    let kept = begin_submission-Safe engine o.codec id file w.db in
    let ran =
      map_err-ok classify_persistence (begin_submission engine o.codec id file w.db).0 s begun in
    (
      record {
        once = λ h. record {
          unique = kept.unique h.unique;
          spent = λ j.
              spent-create id j file w.trace (budget (find_id j w.db.jobs)) _ (h.spent j)
                (kept.spends j)
                (λ here.
                  subst
                    (λ i.
                      (budget (find_id i w.db.jobs) ≡ 1)
                      × (budget (find_id i (begin_submission engine o.codec id file w.db).1.jobs)
                          ≡ 0))
                    here (begin_submission-spends engine o.codec id file w.db s h.unique ran));
        };
        frozen = kept.frozen;
      },
      begin_submission-live engine o.codec id file w.db s ran,
    )
