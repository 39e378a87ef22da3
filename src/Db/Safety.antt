-- ===== src/Db/Safety.antt =====
-- What every change to `jobs` keeps: ids stay unique, a finished job stays as it is, and no job
-- gets back the right to ask for a Batch.
use kaiion.Prelude.{
  ℕ, String, Bool, true, false, ◌≡◌, refl, sym, ◌∙◌, subst, ◌⊎◌, inl, inr, Option, none, some, List,
  [], ◌∷◌, ◌≤◌, ◌||◌, arith, ok, ◌>>=◌, str_eq, str_eq_iff, if◌then◌else◌, Bool-cases, Option-cases,
}
use kaiion.Json.{Codec}
use kaiion.Domain.{JobState}
use kaiion.Db.Rows.{decode}
use kaiion.Db.Table.{Row, Database, Engine, update, find_id}
use kaiion.Db.Transitions.{after_update, transition}
use kaiion.Db.Statements.{Absent, Names, Unique, find_id-Absent}

Absent-ne :
    (i j : String) (rs : List Row) (r : Row)
    → Absent i rs
    → find_id j rs ≡ some r
    → str_eq i j ≡ false
Absent-ne i j rs r h f = elim (Bool-cases (str_eq i j)) [
  | inl same ↦ cc (find_id-Absent j rs (subst (λ k. Absent k rs) ((str_eq_iff i j).0 same) h), f)
  | inr other ↦ other
]

module _ (c : Codec) (test : Row → Bool) (set : Row → Row)
    (keeps : (r : Row) → (set r).raw.id ≡ r.raw.id) where
  -- An UPDATE that succeeds on `x ∷ rs` succeeds on `rs`, and rewrites `x` or leaves it.
  update-cons :
      (x : Row) (rs rs' : List Row) (f : Option Row)
      → update c test set (x ∷ rs) ≡ some (rs', f)
      → (rs0 : List Row) × (f0 : Option Row) × (update c test set rs ≡ some (rs0, f0))
        × (((test x ≡ true) × (rs' ≡ set x ∷ rs0) × (f ≡ some (set x)))
            ⊎ ((test x ≡ false) × (rs' ≡ x ∷ rs0) × (f ≡ f0)))
  unfolding update
  update-cons x rs rs' f e = elim (Option-cases (update c test set rs)) [
    | inl gone ↦ ground arith
    | inr ((rs0, f0), rest) ↦ elim (Bool-cases (test x)) [
      | inl hit ↦ (rs0, f0, rest, inl (ground arith))
      | inr miss ↦ (rs0, f0, rest, inr (ground arith))
    ]
  ]

  update-Absent_kept :
      (i : String) (rs rs' : List Row) (f : Option Row)
      → update c test set rs ≡ some (rs', f)
      → Absent i rs
      → Absent i rs'
  update-Absent_kept i [] rs' f e h = unfold update in ground arith
  update-Absent_kept i (x ∷ rs) rs' f e h =
      let (rs0, f0, rest, how) = update-cons x rs rs' f e in
      ground (arith, update-Absent_kept i rs rs0 f0 rest h.1, h.0, keeps x)

  pub update-Unique :
      (rs rs' : List Row) (f : Option Row)
      → update c test set rs ≡ some (rs', f)
      → Unique rs
      → Unique rs'
  update-Unique [] rs' f e u = unfold update in ground arith
  update-Unique (x ∷ rs) rs' f e u =
      let (rs0, f0, rest, how) = update-cons x rs rs' f e in
      let alone = update-Absent_kept x.raw.id rs rs0 f0 rest u.0 in
      ground (
        arith,
        update-Unique rs rs0 f0 rest u.1,
        alone,
        subst (λ i. Absent i rs0) (sym (keeps x)) alone,
      )

  -- Each job's row is as before, or the UPDATE has matched and rewritten it.
  pub update-find_id :
      (j : String) (rs rs' : List Row) (f : Option Row)
      → update c test set rs ≡ some (rs', f)
      → (find_id j rs' ≡ find_id j rs)
        ⊎ ((r : Row) × (find_id j rs ≡ some r) × (test r ≡ true) × (find_id j rs' ≡ some (set r)))
  unfolding find_id
  update-find_id j [] rs' f e = inl (unfold update in ground arith)
  update-find_id j (x ∷ rs) rs' f e =
      let (rs0, f0, rest, how) = update-cons x rs rs' f e in
      elim how [
        | inl (hit, out, _) ↦ elim (Bool-cases (str_eq x.raw.id j)) [
          | inl here ↦ inr (x, rw here, hit, rw (out, keeps x, here))
          | inr there ↦ rw (out, keeps x, there) (update-find_id j rs rs0 f0 rest)
        ]
        | inr (miss, out, _) ↦ elim (Bool-cases (str_eq x.raw.id j)) [
          | inl here ↦ inl (rw (out, here))
          | inr there ↦ rw (out, there) (update-find_id j rs rs0 f0 rest)
        ]
      ]

  pub update-new :
      (rs rs' : List Row) (new : Row)
      → update c test set rs ≡ some (rs', some new)
      → (r : Row) × (new ≡ set r)
  update-new [] rs' new e = unfold update in ground arith
  update-new (x ∷ rs) rs' new e =
      let (rs0, f0, rest, how) = update-cons x rs rs' (some new) e in
      elim how [
        | inl (hit, out, f) ↦ (x, ground arith)
        | inr (miss, out, f) ↦ update-new rs rs0 new (rest ∙ ground arith)
      ]

  -- The row that RETURNING gives back is the rewritten row of a job that matched.
  pub update-found :
      (rs rs' : List Row) (new : Row)
      → Unique rs
      → update c test set rs ≡ some (rs', some new)
      → (r : Row) × (new ≡ set r)
        × (test r ≡ true)
        × (find_id r.raw.id rs ≡ some r)
        × (find_id r.raw.id rs' ≡ some (set r))
  unfolding find_id
  update-found [] rs' new u e = unfold update in ground arith
  update-found (x ∷ rs) rs' new u e =
      let (rs0, f0, rest, how) = update-cons x rs rs' (some new) e in
      elim how [
        | inl (hit, out, f) ↦
            let self = (str_eq_iff x.raw.id x.raw.id).1 refl in
            (x, ground arith, hit, rw self, rw (out, keeps x, self))
        | inr (miss, out, f) ↦
            let (r, n, hit, before, after) = update-found rs rs0 new u.1 (rest ∙ ground arith) in
            let other : str_eq x.raw.id r.raw.id ≡ false =
              Absent-ne x.raw.id r.raw.id rs r u.0 before in
            (r, n, hit, rw (other) before, rw (out, other) after)
      ]

-- How often a Batch may still be asked for: once, until the job has been seen in a state past
-- "uploaded". A job that is not there yet may come as "queued".
abbrev pub weight : Row → ℕ
weight r =
    if str_eq r.raw.status "queued" then 1 else if str_eq r.raw.status "uploaded" then 1 else 0

abbrev pub budget : Option Row → ℕ
budget none = 1
budget (some r) = weight r

-- The status of a job that is still under way.
abbrev pub under_way : String → Bool
under_way s =
    str_eq s "queued"
    || str_eq s "uploaded"
    || str_eq s "submitting"
    || str_eq s "submission_uncertain"
    || str_eq s "submitted"

-- A change of the database that keeps ids unique, gives no job a budget back and rewrites no
-- finished job.
pub record Safe (before after : Database) : Type 0 where
  pub unique : Unique before.jobs → Unique after.jobs
  pub spends : (j : String) → budget (find_id j after.jobs) ≤ budget (find_id j before.jobs)
  pub frozen :
      (j : String) (r : Row)
      → find_id j before.jobs ≡ some r
      → under_way r.raw.status ≡ false
      → find_id j after.jobs ≡ some r

pub Safe-refl : (db : Database) → Safe db db
Safe-refl db = record { unique = λ u. u; spends = λ j. omega arith; frozen = λ j r f h. f }

pub Safe-trans : {a b c : Database} → Safe a b → Safe b c → Safe a c
Safe-trans p q = record {
  unique = λ u. q.unique (p.unique u);
  spends = λ j. omega (arith, p.spends j, q.spends j);
  frozen = λ j r f h. q.frozen j r (p.frozen j r f h) h;
}

module _ (e : Engine) (c : Codec) (id expected : String) (test : Row → Bool) (set : Row → Row)
    (keeps : (r : Row) → (set r).raw.id ≡ r.raw.id)
    (lighter : (r : Row) → test r ≡ true → weight (set r) ≤ weight r)
    (live : (r : Row) → test r ≡ true → under_way r.raw.status ≡ true) where
  update-Safe :
      (db : Database) (rows : List Row) (f : Option Row)
      → update c test set db.jobs ≡ some (rows, f)
      → Safe db (record db { jobs = rows })
  update-Safe db rows f done = record {
    unique = update-Unique c test set keeps db.jobs rows f done;
    spends = λ j. elim (update-find_id c test set keeps j db.jobs rows f done) [
      | inl same ↦ rw same (omega arith)
      | inr (r, before, hit, after) ↦ rw (before, after) (lighter r hit)
    ];
    frozen = λ j x found over. elim (update-find_id c test set keeps j db.jobs rows f done) [
      | inl same ↦ same ∙ found
      | inr (r, before, hit, after) ↦ ground (arith, live r hit)
    ];
  }

  pub transition-Safe : (db : Database) → Safe db (transition e c id expected test set db).1
  unfolding transition
  transition-Safe db = elim (Option-cases e.failure) [
    | inr (m, failed) ↦ rw (failed, transition) (Safe-refl db)
    | inl healthy ↦ elim (Option-cases (update c test set db.jobs)) [
      | inl refused ↦ rw (healthy, refused) (unfold after_update in Safe-refl db)
      | inr ((rows, none), done) ↦ rw (healthy, done) (update-Safe db rows none done)
      | inr ((rows, some r), done) ↦ rw (healthy, done) (update-Safe db rows (some r) done)
    ]
  ]

  -- A transition that returns a state has rewritten one job, and decoded it.
  pub transition-ok :
      (db : Database) (s : JobState)
      → Names id test
      → Unique db.jobs
      → (transition e c id expected test set db).0 ≡ ok s
      → (r : Row) × (test r ≡ true)
        × (find_id id db.jobs ≡ some r)
        × (find_id id (transition e c id expected test set db).1.jobs ≡ some (set r))
        × ((decode c (set r).raw >>= λ job. ok job.state) ≡ ok s)
  unfolding transition
  transition-ok db s names u h = elim (Option-cases e.failure) [
    | inr (m, failed) ↦ ground arith
    | inl healthy ↦ elim (Option-cases (update c test set db.jobs)) [
      | inl refused ↦ ground arith
      | inr ((rows, none), done) ↦ ground arith
      | inr ((rows, some new), done) ↦
          let (r, same, hit, before, after) =
            update-found c test set keeps db.jobs rows new u done in
          (
            r,
            hit,
            subst (λ i. find_id i db.jobs ≡ some r) (names r hit) before,
            rw (healthy, done) (subst (λ i. find_id i rows ≡ some (set r)) (names r hit) after),
            ground arith,
          )
    ]
  ]

  -- The state that a transition returns is read from the rewritten row.
  pub transition-reads :
      (db : Database) (s : JobState)
      → (transition e c id expected test set db).0 ≡ ok s
      → (r : Row) × ((decode c (set r).raw >>= λ job. ok job.state) ≡ ok s)
  unfolding transition
  transition-reads db s h = elim (Option-cases e.failure) [
    | inr (m, failed) ↦ ground arith
    | inl healthy ↦ elim (Option-cases (update c test set db.jobs)) [
      | inl refused ↦ ground arith
      | inr ((rows, none), done) ↦ ground arith
      | inr ((rows, some new), done) ↦
          let (r, same) = update-new c test set keeps db.jobs rows new done in (r, ground arith)
    ]
  ]
